-- ===== src/LinkedList/Release.antt =====
-- `emq_list_release` of src/emq.c over the heap of nodes.
use libemq.LinkedList.{Ptr, Heap, LinkedList, release_loop, release, release_value, null, write}
use libemq.LinkedList.Linked.{Cells, values, has, first, Linked, Distinct, IsList, Linked-write}
use libemq.LinkedList.Relink.{load-ok, free_node-ok}
use libemq.LinkedList.Insert.{SameOutside}
use libemq.LinkedList.Runs.{Returns, Returns-weaken}
use libemq.LinkedList.{null, write}
use libemq.LinkedList.Walk.{released_twice, if_same}
use libemq.Base.{if◌then◌else◌, refl, [], ◌∷◌, arith, Bool-cases, inl, inr, ◌∙◌}
use mathlib.Core.List.{reverse_aux}
use libemq.Base.{Bool, ◌≡◌, length, false, true, none}
use libemq.LinkedList.Walk.{if_same}

module _ {A : Type 0} where
  -- No node of `xs` is left, all others are as they were, and the values have been released.
  pub record Freed (h : Heap A) (frees : Bool) (xs : Cells A) (r : Unit {0}) (g : Heap A)
      : Type 0 where
    pub gone : (a : Ptr) → has a xs ≡ true → g.cell a ≡ none
    pub same : SameOutside xs h g
    pub released : g.released ≡ (if frees then reverse_aux (values xs) h.released else h.released)

  Freed-step :
      (h g : Heap A) (frees : Bool) (p : Ptr) (v : A) (xs : Cells A)
      → has p xs ≡ false
      → Freed
          (record h {
            cell = write h.cell p none;
            released = if frees then v ∷ h.released else h.released;
          })
          frees
          xs
          tt
          g
      → Freed h frees ((p, v) ∷ xs) tt g
  Freed-step h g frees p v xs out rest = record {
    gone = λ a i. elim (Bool-cases (has a xs)) [
      | inl j ↦ rest.gone a j
      | inr j ↦ rest.same a j ∙ ground arith
    ];
    same = λ a other. rest.same a (ground arith) ∙ ground arith;
    released = rest.released ∙ released_twice frees v (values xs) h.released;
  }

  release_loop-Freed :
      (h : Heap A) (frees : Bool) (before : Ptr) (xs : Cells A)
      → Linked h.cell before xs null
      → Distinct xs
      → Returns (Freed h frees xs) (release_loop frees (length xs) (first xs null) h)
  unfolding release_loop release_value
  release_loop-Freed h frees before [] links ds = record {
    gone = λ a i. cc;
    same = λ a out. refl;
    released = if_same frees h.released;
  }
  release_loop-Freed h frees before ((p, v) ∷ xs) (here, links) (nn, out, ds) =
      let released = if frees then v ∷ h.released else h.released in
      rw (load-ok h p _ nn here, free_node-ok (record h { released = released }) p _ nn here)
        (Returns-weaken _ (Freed h frees ((p, v) ∷ xs)) _
          (release_loop-Freed (record h { cell = write h.cell p none; released = released }) frees p
            xs (Linked-write h.cell p none p xs null out links) ds)
          (λ r g. Freed-step h g frees p v xs out))

  -- `emq_list_release` frees every node of the list and no other, reads no node after it is freed,
  -- and gives every value once to the `free` method, if one is set.
  pub release-Freed :
      (h : Heap A) (l : LinkedList) (xs : Cells A)
      → IsList h l xs
      → Returns (Freed h l.frees xs) (release l h)
  unfolding release
  release-Freed h l xs is =
      rw (is.count, is.head) (release_loop-Freed h l.frees null xs is.linked is.distinct)
