-- ===== src/LinkedList/Relink.antt =====
-- Writing one link at the end of a chain of nodes, and reading a node inside it.
use libemq.LinkedList.{
  Ptr, null, Node, node, Heap, write, load, store, set_prev, set_next, free_node, ok,
}
use libemq.LinkedList.Linked.{Cells, has, first, last, Linked, Distinct, Linked-write}
use libemq.Base.{
  refl, true, false, none, some, [], ◌∷◌, inl, inr, ◌≡◌, Option, ◌==◌, Bool-cases, arith, ap, ==→eq,
}

module _ {A : Type 0} where
  pub ne_of_mem : (p q : Ptr) (xs : Cells A) → has p xs ≡ false → has q xs ≡ true → (p == q) ≡ false
  ne_of_mem p q xs out i = elim (Bool-cases (p == q)) [
    | inl e ↦ cc (ap (λ (a : Ptr). has a xs) (==→eq p q e))
    | inr e ↦ e
  ]

  -- The `next` of the last node.
  abbrev pub Relinked :
      (Ptr → Option (Node A)) → (before : Ptr) → Cells A → (q after : Ptr) → Type 0
  Relinked cell before xs q after =
      (n : Node A) × (cell q ≡ some n)
      × (has q xs ≡ true)
      × ((q == null) ≡ false)
      × Linked (write cell q (some (record n { next = after }))) before xs after

  pub relink_last :
      (cell : Ptr → Option (Node A)) (before p : Ptr) (v : A) (xs : Cells A) (after after' : Ptr)
      → Distinct ((p, v) ∷ xs)
      → Linked cell before ((p, v) ∷ xs) after
      → Relinked cell before ((p, v) ∷ xs) (last p xs) after'
  relink_last cell before p v [] after after' (nn, out, ds) (e, h) =
      (node before after v, e, ground arith, nn, (ground arith, tt))
  relink_last cell before p v ((p', v') ∷ xs) after after' (nn, out, ds) (e, h) =
      let (n, e', i, nn', h') = relink_last cell p p' v' xs after after' ds h in
      let ne : (p == last p' xs) ≡ false = ne_of_mem p (last p' xs) ((p', v') ∷ xs) out i in
      (n, e', ground arith, nn', (rw ne e, h'))

  -- The `prev` of the first node.
  pub relink_first :
      (cell : Ptr → Option (Node A)) (before before' p : Ptr) (v : A) (xs : Cells A) (after : Ptr)
      → Distinct ((p, v) ∷ xs)
      → Linked cell before ((p, v) ∷ xs) after
      → Linked (write cell p (some (node before' (first xs after) v))) before' ((p, v) ∷ xs) after
  relink_first cell before before' p v xs after (nn, out, ds) (e, h) =
      (ground arith, Linked-write cell p _ p xs after out h)

  pub load-ok :
      (h : Heap A) (p : Ptr) (n : Node A)
      → (p == null) ≡ false
      → h.cell p ≡ some n
      → load p h ≡ ok n h
  unfolding load
  load-ok h p n nn e = rw (nn, e) refl

  pub set_next-ok :
      (h : Heap A) (p q : Ptr) (n : Node A)
      → (p == null) ≡ false
      → h.cell p ≡ some n
      → set_next p q h ≡ store p (some (record n { next = q })) h
  unfolding set_next
  set_next-ok h p q n nn e = rw (load-ok h p n nn e) refl

  pub set_prev-ok :
      (h : Heap A) (p q : Ptr) (n : Node A)
      → (p == null) ≡ false
      → h.cell p ≡ some n
      → set_prev p q h ≡ store p (some (record n { prev = q })) h
  unfolding set_prev
  set_prev-ok h p q n nn e = rw (load-ok h p n nn e) refl

  pub free_node-ok :
      (h : Heap A) (p : Ptr) (n : Node A)
      → (p == null) ≡ false
      → h.cell p ≡ some n
      → free_node p h ≡ store p none h
  unfolding free_node
  free_node-ok h p n nn e = rw (load-ok h p n nn e) refl
