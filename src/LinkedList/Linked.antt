-- ===== src/LinkedList/Linked.antt =====
-- What nodes in the heap stand for: a chain of addresses and values, linked both ways.
use libemq.LinkedList.{Ptr, null, Node, node, Heap, LinkedList, write}
use libemq.Base.{
  refl, true, false, some, [], ◌∷◌, ◌++◌, List, ◌≡◌, ◌==◌, Option, Bool, ◌||◌, length, arith, ◌∙◌,
  Bool-cases, ◌<◌, inl, ◌^◌, ==→eq, inr,
}

-- Address and value of each node, in order.
abbrev pub Cells : Type 0 → Type 0
Cells A = List (Ptr × A)

module _ {A : Type 0} where
  abbrev pub values : Cells A → List A
  values [] = []
  values ((p, v) ∷ xs) = v ∷ values xs

  abbrev pub has : Ptr → Cells A → Bool
  has a [] = false
  has a ((p, v) ∷ xs) = (a == p) || has a xs

  -- The first address, or `after`, and the last one, or `before`.
  abbrev pub first : Cells A → Ptr → Ptr
  first [] after = after
  first ((p, v) ∷ xs) after = p

  abbrev pub last : Ptr → Cells A → Ptr
  last before [] = before
  last before ((p, v) ∷ xs) = last p xs

  -- From `before` to `after` the links of the nodes lead through the chain and back.
  abbrev pub Linked : (Ptr → Option (Node A)) → Ptr → Cells A → Ptr → Type 0
  Linked cell before [] after = Unit {0}
  Linked cell before ((p, v) ∷ xs) after =
      (cell p ≡ some (node before (first xs after) v)) × Linked cell p xs after

  -- No address twice, and none is `NULL`.
  abbrev pub Distinct : Cells A → Type 0
  Distinct [] = Unit {0}
  Distinct ((p, v) ∷ xs) = ((p == null) ≡ false) × (has p xs ≡ false) × Distinct xs

  pub record IsList (h : Heap A) (l : LinkedList) (xs : Cells A) : Type 0 where
    pub linked : Linked h.cell null xs null
    pub distinct : Distinct xs
    pub head : l.head ≡ first xs null
    pub tail : l.tail ≡ last null xs
    pub count : l.count ≡ length xs
    pub small : length xs < 2 ^ 64

  pub has-append : (a : Ptr) (xs ys : Cells A) → has a (xs ++ ys) ≡ (has a xs || has a ys)
  has-append a [] ys = refl
  has-append a ((p, v) ∷ xs) ys = ground (arith, has-append a xs ys)

  pub first-append :
      (xs ys : Cells A) (after : Ptr) → first (xs ++ ys) after ≡ first xs (first ys after)
  first-append [] ys after = refl
  first-append ((p, v) ∷ xs) ys after = refl

  pub last-append :
      (before : Ptr) (xs ys : Cells A) → last before (xs ++ ys) ≡ last (last before xs) ys
  last-append before [] ys = refl
  last-append before ((p, v) ∷ xs) ys = last-append p xs ys

  pub Linked-append :
      (cell : Ptr → Option (Node A)) (before : Ptr) (xs ys : Cells A) (after : Ptr)
      → Linked cell before xs (first ys after)
      → Linked cell (last before xs) ys after
      → Linked cell before (xs ++ ys) after
  Linked-append cell before [] ys after hx hy = hy
  Linked-append cell before ((p, v) ∷ xs) ys after (e, hx) hy =
      (rw (first-append xs ys after) e, Linked-append cell p xs ys after hx hy)

  pub Linked-split :
      (cell : Ptr → Option (Node A)) (before : Ptr) (xs ys : Cells A) (after : Ptr)
      → Linked cell before (xs ++ ys) after
      → Linked cell before xs (first ys after) × Linked cell (last before xs) ys after
  Linked-split cell before [] ys after h = (tt, h)
  Linked-split cell before ((p, v) ∷ xs) ys after (e, h) =
      let (hx, hy) = Linked-split cell p xs ys after h in
      ((rw (first-append xs ys after) at e, hx), hy)

  -- A chain survives any change that spares its own addresses.
  pub Linked-frame :
      (cell cell' : Ptr → Option (Node A)) (before : Ptr) (xs : Cells A) (after : Ptr)
      → ((a : Ptr) → has a xs ≡ true → cell' a ≡ cell a)
      → Linked cell before xs after
      → Linked cell' before xs after
  Linked-frame cell cell' before [] after same h = tt
  Linked-frame cell cell' before ((p, v) ∷ xs) after same (e, h) = (
    same p (ground arith) ∙ e,
    Linked-frame cell cell' p xs after (λ a i. same a (ground arith)) h,
  )

  pub Linked-write :
      (cell : Ptr → Option (Node A)) (q : Ptr) (c : Option (Node A)) (before : Ptr) (xs : Cells A)
      (after : Ptr)
      → has q xs ≡ false
      → Linked cell before xs after
      → Linked (write cell q c) before xs after
  Linked-write cell q c before xs after out =
      Linked-frame cell (write cell q c) before xs after (λ a i. ground arith)

  -- No address is in both.
  abbrev pub Apart : Cells A → Cells A → Type 0
  Apart xs ys = (a : Ptr) → has a xs ≡ true → has a ys ≡ false

  Distinct-split_first :
      (p : Ptr) (xs ys : Cells A)
      → has p (xs ++ ys) ≡ false
      → (has p xs ≡ false) × (has p ys ≡ false)
  Distinct-split_first p xs ys h = ground (arith, has-append p xs ys)

  pub Distinct-split :
      (xs ys : Cells A) → Distinct (xs ++ ys) → Distinct xs × Distinct ys × Apart xs ys
  Distinct-split [] ys d = (tt, d, λ a i. cc)
  Distinct-split ((p, v) ∷ xs) ys (nn, out, d) =
      let (dx, dy, apart) = Distinct-split xs ys d in
      let (out_x, out_y) = Distinct-split_first p xs ys out in
      (
        (nn, out_x, dx),
        dy,
        λ a i. elim (Bool-cases (a == p)) [
          | inl e ↦ rw (==→eq a p e) out_y
          | inr e ↦ apart a (ground arith)
        ],
      )

  pub Distinct-append :
      (xs ys : Cells A) → Distinct xs → Distinct ys → Apart xs ys → Distinct (xs ++ ys)
  Distinct-append [] ys dx dy apart = dy
  Distinct-append ((p, v) ∷ xs) ys (nn, out, dx) dy apart =
      let other : has p ys ≡ false = apart p (ground arith) in
      (
        nn,
        rw (has-append p xs ys, out, other) refl,
        Distinct-append xs ys dx dy (λ a i. apart a (ground arith)),
      )
