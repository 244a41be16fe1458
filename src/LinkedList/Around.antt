-- ===== src/LinkedList/Around.antt =====
-- A list of nodes in the heap, seen from one of its nodes.
use libemq.LinkedList.{Ptr, null, node, Heap, LinkedList, Node, write}
use libemq.LinkedList.Linked.{
  Cells, first, last, Linked, Distinct, Apart, IsList, has, Linked-split, Distinct-split,
  has-append, Linked-frame,
}
use libemq.Base.{
  ◌∷◌, ◌≡◌, arith, some, ◌==◌, ◌++◌, false, none, Bool-cases, inl, ==_refl, inr, true, Option, ap,
  ==→eq,
}

module _ {A : Type 0} where
  -- The parts of a list round one of its nodes.
  pub record Around (h : Heap A) (l : LinkedList) (xs : Cells A) (p : Ptr) (v : A) (ys : Cells A)
      : Type 0 where
    pub front : Linked h.cell null xs p
    pub here : h.cell p ≡ some (node (last null xs) (first ys null) v)
    pub back : Linked h.cell p ys null
    pub front_distinct : Distinct xs
    pub back_distinct : Distinct ys
    pub not_null : (p == null) ≡ false
    pub not_front : has p xs ≡ false
    pub not_back : has p ys ≡ false
    pub apart : Apart xs ys

  not_in_front :
      (xs : Cells A) (p : Ptr) (v : A) (ys : Cells A) → Apart xs ((p, v) ∷ ys) → has p xs ≡ false
  not_in_front xs p v ys apart = elim (Bool-cases (has p xs)) [
    | inl i ↦ cc (apart p i, ==_refl p)
    | inr out ↦ out
  ]

  pub IsList-Around :
      (h : Heap A) (l : LinkedList) (xs : Cells A) (p : Ptr) (v : A) (ys : Cells A)
      → IsList h l (xs ++ (p, v) ∷ ys)
      → Around h l xs p v ys
  IsList-Around h l xs p v ys is =
      let (front, rest) = Linked-split h.cell null xs ((p, v) ∷ ys) null is.linked in
      let (dx, dp, apart) = Distinct-split xs ((p, v) ∷ ys) is.distinct in
      record {
        front = front;
        here = rest.0;
        back = rest.1;
        front_distinct = dx;
        back_distinct = dp.2;
        not_null = dp.0;
        not_front = not_in_front xs p v ys apart;
        not_back = dp.1;
        apart = λ a i. ground (arith, apart a i);
      }

  Apart-sym : (xs ys : Cells A) → Apart xs ys → (a : Ptr) → has a ys ≡ true → has a xs ≡ false
  Apart-sym xs ys apart a i = elim (Bool-cases (has a xs)) [
    | inl j ↦ cc (apart a j)
    | inr out ↦ out
  ]

  member_ne : (a p : Ptr) (xs : Cells A) → has a xs ≡ true → has p xs ≡ false → (a == p) ≡ false
  member_ne a p xs i out = elim (Bool-cases (a == p)) [
    | inl e ↦ cc (ap (λ (q : Ptr). has q xs) (==→eq a p e))
    | inr e ↦ e
  ]

  pub front_kept :
      (cell cell' : Ptr → Option (Node A)) (xs : Cells A) (p : Ptr) (ys : Cells A) (after : Ptr)
      → has p xs ≡ false
      → Apart xs ys
      → ((a : Ptr) → has a ys ≡ false → cell' a ≡ cell a)
      → Linked cell null xs after
      → Linked (write cell' p none) null xs after
  front_kept cell cell' xs p ys after out apart same =
      Linked-frame cell (write cell' p none) null xs after
        (λ a i. rw (member_ne a p xs i out) (same a (apart a i)))

  pub back_kept :
      (cell cell' : Ptr → Option (Node A)) (xs : Cells A) (p : Ptr) (ys : Cells A)
      → Apart xs ys
      → ((a : Ptr) → has a xs ≡ false → cell' a ≡ cell a)
      → Linked cell p ys null
      → Linked cell' p ys null
  back_kept cell cell' xs p ys apart same =
      Linked-frame cell cell' p ys null (λ a i. same a (Apart-sym xs ys apart a i))

  pub outside_parts :
      (xs : Cells A) (p : Ptr) (v : A) (ys : Cells A) (a : Ptr)
      → has a (xs ++ (p, v) ∷ ys) ≡ false
      → (has a xs ≡ false) × ((a == p) ≡ false) × (has a ys ≡ false)
  outside_parts xs p v ys a out = ground (arith, has-append a xs ((p, v) ∷ ys))
