-- ===== src/LinkedList/Insert.antt =====
-- `emq_list_add_value` of src/emq.c over the heap of nodes.
use libemq.LinkedList.{Ptr, null, Node, node, Heap, LinkedList, write, add_node}
use libemq.LinkedList.Linked.{Cells, has, first, Linked, Distinct, Linked-write, IsList}
use libemq.LinkedList.Relink.{relink_first, set_prev-ok}
use libemq.LinkedList.Runs.{Returns}
use libemq.Base.{
  refl, true, false, none, some, [], ◌∷◌, inl, inr, ◌≡◌, ◌==◌, Option, Bool, Bool-cases, arith, ap,
  ==→eq, ◌∙◌, subst, sym, suc, length, ◌<◌, ◌^◌,
}

module _ {A : Type 0} where
  -- `g` differs from `h` at most at the addresses of `xs`.
  abbrev pub SameOutside : Cells A → Heap A → Heap A → Type 0
  SameOutside xs h g = (a : Ptr) → has a xs ≡ false → g.cell a ≡ h.cell a

  has_of_none :
      (cell : Ptr → Option (Node A)) (a before : Ptr) (xs : Cells A) (after : Ptr)
      → cell a ≡ none
      → Linked cell before xs after
      → has a xs ≡ false
  has_of_none cell a before [] after e h = refl
  has_of_none cell a before ((p, v) ∷ xs) after e (e', h) =
      let rest = has_of_none cell a p xs after e h in
      elim (Bool-cases (a == p)) [
        | inl same ↦ cc (ap cell (==→eq a p same))
        | inr other ↦ rw (other, rest) refl
      ]

  -- Both writes, when the list begins at `q`.
  module _ (cell : Ptr → Option (Node A)) (fresh q p : Ptr) (v v' : A) (xs : Cells A) where
    added_links :
        has fresh ((p, v') ∷ xs) ≡ false
        → q ≡ p
        → Distinct ((p, v') ∷ xs)
        → Linked cell null ((p, v') ∷ xs) null
        → Linked
            (write
              (write cell fresh (some (node null q v)))
              q
              (some (node fresh (first xs null) v')))
            null
            ((fresh, v) ∷ (p, v') ∷ xs)
            null
    added_links out e ds h =
        subst
          (λ (b : Ptr).
            Linked
              (write (write cell fresh (some (node null b v))) b
                (some (node fresh (first xs null) v')))
              null ((fresh, v) ∷ (p, v') ∷ xs) null)
          (sym e)
          (
            added_fresh,
            relink_first (write cell fresh (some (node null p v))) null fresh p v' xs null ds
                (Linked-write cell fresh (some (node null p v)) null ((p, v') ∷ xs) null out h),
          )
      where
        added_fresh :
            write
              (write cell fresh (some (node null p v)))
              p
              (some (node fresh (first xs null) v'))
              fresh
            ≡ some (node null p v)
        added_fresh = ground arith

    added_same :
        q ≡ p
        → (a : Ptr) → has a ((fresh, v) ∷ (p, v') ∷ xs) ≡ false
        → (write (write cell fresh (some (node null q v))) q (some (node fresh (first xs null) v')))
            a
          ≡ cell a
    added_same e a other = rw e (ground arith)

  -- What the function has done when it put `v` at `fresh`.
  pub record Added (h : Heap A) (fresh : Ptr) (v : A) (xs : Cells A) (r : Bool × LinkedList)
      (g : Heap A) : Type 0 where
    pub added : r.0 ≡ true
    pub list : IsList g r.1 ((fresh, v) ∷ xs)
    pub same : SameOutside ((fresh, v) ∷ xs) h g
    pub kept : g.released ≡ h.released

  -- With memory for the node, and a length that a `size_t` can count, `emq_list_add_value` makes the list of the new value and then the old
  -- ones, in order; it changes no other node and releases nothing.
  pub add_node-IsList :
      (h : Heap A) (l : LinkedList) (xs : Cells A) (fresh : Ptr) (v : A)
      → IsList h l xs
      → suc (length xs) < 2 ^ 64
      → (fresh == null) ≡ false
      → h.cell fresh ≡ none
      → Returns (Added h fresh v xs) (add_node fresh l v h)
  unfolding add_node
  add_node-IsList h l [] fresh v is room nn unused =
      let none_there : (l.count == 0) ≡ true = ground (arith, is.count) in
      rw (nn, none_there)
        (record {
          added = refl;
          list = record {
            linked = (ground arith, tt);
            distinct = (nn, refl, tt);
            head = refl;
            tail = refl;
            count = omega (arith, is.count);
            small = room;
          };
          same = λ a out. ground arith;
          kept = refl;
        })
  add_node-IsList h l ((p, v') ∷ xs) fresh v is room nn unused =
      let some_there : (l.count == 0) ≡ false = ground (arith, is.count) in
      let out = has_of_none h.cell fresh null ((p, v') ∷ xs) null unused is.linked in
      let cell' = write h.cell fresh (some (node null l.head v)) in
      let chain =
        Linked-write h.cell fresh (some (node null l.head v)) null ((p, v') ∷ xs) null out
          is.linked in
      let at_head : cell' l.head ≡ some (node null (first xs null) v') =
        ap cell' is.head ∙ chain.0 in
      let nn' : (l.head == null) ≡ false = ap (λ (a : Ptr). a == null) is.head ∙ is.distinct.0 in
      let step =
        set_prev-ok (record h { cell = cell' }) l.head fresh (node null (first xs null) v') nn'
          at_head in
      rw (nn, some_there, step)
        (record {
          added = refl;
          list = record {
            linked = added_links h.cell fresh l.head p v v' xs out is.head is.distinct is.linked;
            distinct = (nn, out, is.distinct);
            head = refl;
            tail = is.tail;
            count = omega (arith, is.count);
            small = room;
          };
          same = λ a other. added_same h.cell fresh l.head p v v' xs is.head a other;
          kept = refl;
        })
