-- ===== src/LinkedList/Walk.antt =====
-- The loop of the functions of src/emq.c that unsubscribe: it walks over the nodes of a list and
-- deletes some of them on the way.
use libemq.LinkedList.{
  Ptr, null, Node, Heap, LinkedList, ok, delete_node, next_node, delete_hit, delete_loop,
  delete_all,
}
use libemq.Base.{
  zero, suc, refl, ℕ, true, false, some, [], ◌∷◌, inl, inr, if◌then◌else◌, Option, Bool, List, ◌≡◌,
  ◌++◌, append_assoc, ◌∙◌, arith, All, ◌==◌, length, ◌<◌, Bool-cases, ◌+◌, subst, sym,
}
use mathlib.Core.List.{reverse_aux}
use libemq.LinkedList.Linked.{Cells, IsList, has-append, values, first}
use libemq.LinkedList.Around.{IsList-Around}
use libemq.LinkedList.Delete.{Deleted, delete_node-Deleted}
use libemq.LinkedList.Insert.{SameOutside}
use libemq.LinkedList.Relink.{load-ok}
use libemq.LinkedList.Runs.{Returns, Returns-and_then, Returns-weaken}

module _ {A : Type 0} (hit : A → Bool) where
  -- The nodes that stay, and the values of those that go, in order.
  abbrev pub survivors : Cells A → Cells A
  survivors [] = []
  survivors ((p, v) ∷ xs) = if hit v then survivors xs else (p, v) ∷ survivors xs

  abbrev pub hits : List A → List A
  hits [] = []
  hits (v ∷ vs) = if hit v then v ∷ hits vs else hits vs

  -- What the loop has done from where `ys` are ahead of it and `xs` behind.
  pub record Swept (h : Heap A) (l : LinkedList) (xs ys : Cells A) (l' : LinkedList) (g : Heap A)
      : Type 0 where
    pub list : IsList g l' (xs ++ survivors ys)
    pub frees : l'.frees ≡ l.frees
    pub same : SameOutside (xs ++ ys) h g
    pub released :
        g.released ≡ (if l.frees then reverse_aux (hits (values ys)) h.released else h.released)

pub released_twice :
    {A : Type 0} (frees : Bool) (v : A) (vs r : List A)
    → (if frees then reverse_aux vs (if frees then v ∷ r else r) else (if frees then v ∷ r else r))
      ≡ (if frees then reverse_aux vs (v ∷ r) else r)
released_twice true v vs r = refl
released_twice false v vs r = refl

pub if_same : {A : Type 0} (frees : Bool) (r : List A) → r ≡ (if frees then r else r)
if_same true r = refl
if_same false r = refl

module _ {A : Type 0} (test : A → Option Bool) (hit : A → Bool) where
  module _ (h : Heap A) (l : LinkedList) (xs : Cells A) (p : Ptr) (v : A) (ys : Cells A) where
    -- One round over a node that stays.
    Swept-miss :
        hit v ≡ false
        → (l' : LinkedList) (g : Heap A) → Swept hit h l (xs ++ (p, v) ∷ []) ys l' g
        → Swept hit h l xs ((p, v) ∷ ys) l' g
    Swept-miss miss l' g rest = record {
      list = rw (miss, ← append_assoc xs ((p, v) ∷ []) (survivors hit ys)) rest.list;
      frees = rest.frees;
      same = λ a out. rest.same a (rw (append_assoc xs ((p, v) ∷ []) ys) out);
      released = rw miss rest.released;
    }

    -- One round over a node that goes.
    Swept-hit :
        hit v ≡ true
        → (l' : LinkedList) (h' : Heap A) → Deleted h l xs p v ys l' h'
        → (l'' : LinkedList) (g : Heap A) → Swept hit h' l' xs ys l'' g
        → Swept hit h l xs ((p, v) ∷ ys) l'' g
    Swept-hit goes l' h' gone l'' g rest = record {
      list = rw goes rest.list;
      frees = rest.frees ∙ gone.frees;
      same = λ a out.
          rest.same a (ground (arith, has-append a xs ys, has-append a xs ((p, v) ∷ ys)))
          ∙ gone.same a out;
      released = rw goes (
          rw (gone.frees, gone.released) at rest.released
          ∙ released_twice l.frees v (hits hit (values ys)) h.released);
    }

  -- `test` has an answer for each of the values.
  abbrev pub Tested : List A → Type 0
  Tested vs = All (λ v. test v ≡ some (hit v)) vs

  next_node-ok :
      (h : Heap A) (p : Ptr) (n : Node A)
      → (p == null) ≡ false
      → h.cell p ≡ some n
      → next_node p h ≡ ok (p, n.next) h
  unfolding next_node
  next_node-ok h p n nn e = rw (nn, load-ok h p n nn e) refl

  delete_loop-Swept :
      (k : ℕ) (h : Heap A) (l : LinkedList) (xs ys : Cells A)
      → IsList h l (xs ++ ys)
      → Tested (values ys)
      → length ys < k
      → Returns (Swept hit h l xs ys) (delete_loop test k l (first ys null) h)
  unfolding delete_loop next_node delete_hit
  delete_loop-Swept zero h l xs ys is tested room = absurd (omega arith)
  delete_loop-Swept (suc k) h l xs [] is tested room = record {
    list = is;
    frees = refl;
    same = λ a out. refl;
    released = if_same l.frees h.released;
  }
  delete_loop-Swept (suc k) h l xs ((p, v) ∷ ys) is (t, tested) room =
      let at = IsList-Around h l xs p v ys is in
      rw (next_node-ok h p _ at.not_null at.here, at.not_null, load-ok h p _ at.not_null at.here, t)
        (elim (Bool-cases (hit v)) [
          | inl goes ↦ rw goes (
              Returns-and_then (Deleted h l xs p v ys) (Swept hit h l xs ((p, v) ∷ ys))
                (delete_node l p h) _ (delete_node-Deleted h l xs p v ys is)
                (λ l' h' gone.
                  Returns-weaken (Swept hit h' l' xs ys) (Swept hit h l xs ((p, v) ∷ ys)) _
                    (delete_loop-Swept k h' l' xs ys gone.list tested (omega arith))
                    (Swept-hit h l xs p v ys goes l' h' gone)))
          | inr stays ↦ rw stays (
              Returns-weaken (Swept hit h l (xs ++ (p, v) ∷ []) ys) (Swept hit h l xs ((p, v) ∷ ys))
                _
                (delete_loop-Swept k h l (xs ++ (p, v) ∷ []) ys
                  (rw (append_assoc xs ((p, v) ∷ []) ys) is) tested (omega arith))
                (Swept-miss h l xs p v ys stays))
        ])

  -- The whole loop, which has rounds enough.
  pub delete_all-Swept :
      (h : Heap A) (l : LinkedList) (xs : Cells A)
      → IsList h l xs
      → Tested (values xs)
      → Returns (Swept hit h l [] xs) (delete_all test l h)
  unfolding delete_all
  delete_all-Swept h l xs is tested =
      subst (λ (a : Ptr). Returns (Swept hit h l [] xs) (delete_loop test (l.count + 1) l a h))
        (sym is.head)
        (delete_loop-Swept (l.count + 1) h l [] xs is tested (omega (arith, is.count)))
