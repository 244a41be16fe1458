-- ===== src/LinkedList.antt =====
-- The doubly linked list of src/emq.c: `emq_list_init` to `emq_list_next`, over nodes in a heap.
-- The struct of a list is a value that each function takes and returns; a pointer is a number.
pub mod Runs
pub mod Linked
pub mod Relink
pub mod Insert
pub mod Around
pub mod Delete
pub mod Walk
pub mod Removal
pub mod Release
use libemq.Base.{
  zero, refl, ℕ, suc, true, false, none, some, [], ◌∷◌, if◌then◌else◌, Option, ◌==◌, Bool, ◌+◌, ◌^◌,
  List, ◌-◌, ◌%◌,
}

abbrev pub Ptr : Type 0
Ptr = ℕ

abbrev pub null : Ptr
null = 0

-- `emq_list_node`
pub record Node (A : Type 0) : Type 0 where
  pub prev : Ptr
  pub next : Ptr
  pub value : A

abbrev pub node : {A : Type 0} → Ptr → Ptr → A → Node A
node p n v = record { prev = p; next = n; value = v }

-- The nodes, and the values that have been given to a list's `free` method, the last one first.
pub record Heap (A : Type 0) : Type 0 where
  pub cell : Ptr → Option (Node A)
  pub released : List A

-- `emq_list`; `frees` tells whether its `free` method is set.
pub record LinkedList : Type 0 where
  pub head : Ptr
  pub tail : Ptr
  pub count : ℕ
  pub frees : Bool

-- How a function ends: with a value, outside of what C defines, or with its fuel used up.
pub data Outcome (A B : Type 0) : Type 0 where
  ok : B → Heap A → Outcome A B
  fault : Outcome A B
  stuck : Outcome A B

abbrev pub Cmd : Type 0 → Type 0 → Type 0
Cmd A B = Heap A → Outcome A B

abbrev pub write :
    {A : Type 0} → (Ptr → Option (Node A)) → Ptr → Option (Node A) → Ptr → Option (Node A)
write cell p c a = if a == p then c else cell a

module _ {A : Type 0} where
  abbrev pub pure : {B : Type 0} → B → Cmd A B
  pure b h = ok b h

  abbrev pub and_then : {B C : Type 0} → Outcome A B → (B → Cmd A C) → Outcome A C
  and_then (ok b h) k = k b h
  and_then fault k = fault
  and_then stuck k = stuck

  infixl 5 ◌>>=◌ ◌>>◌
  abbrev pub ◌>>=◌ : {B C : Type 0} → Cmd A B → (B → Cmd A C) → Cmd A C
  ◌>>=◌ m k h = and_then (m h) k

  abbrev pub ◌>>◌ : {B C : Type 0} → Cmd A B → Cmd A C → Cmd A C
  ◌>>◌ m k h = and_then (m h) (λ _. k)

  -- `*p`: a fault where there is no node.
  load_cell : Option (Node A) → Cmd A (Node A)
  load_cell none h = fault
  load_cell (some n) h = ok n h

  unfoldable pub load : Ptr → Cmd A (Node A)
  unfolding load_cell
  load p h = if p == null then fault else load_cell (h.cell p) h

  abbrev pub store : Ptr → Option (Node A) → Cmd A (Unit {0})
  store p c h = ok tt (record h { cell = write h.cell p c })

  unfoldable pub set_prev : Ptr → Ptr → Cmd A (Unit {0})
  set_prev p q = do n ← load p; store p (some (record n { prev = q }))

  unfoldable pub set_next : Ptr → Ptr → Cmd A (Unit {0})
  set_next p q = do n ← load p; store p (some (record n { next = q }))

  -- `free(node)`
  unfoldable pub free_node : Ptr → Cmd A (Unit {0})
  free_node p = load p >> store p none

  -- `if (list->free) list->free(value);`
  unfoldable pub release_value : Bool → A → Cmd A (Unit {0})
  release_value frees v h =
      ok tt (record h { released = if frees then v ∷ h.released else h.released })

  -- `emq_list_add_value`, where `fresh` is what `malloc` gives; `false` is `EMQ_STATUS_ERR`. The
  -- length is a `size_t`.
  unfoldable pub add_node : (fresh : Ptr) → LinkedList → A → Cmd A (Bool × LinkedList)
  add_node fresh l v =
      if fresh == null
      then pure (false, l)
      else if l.count == 0
      then (do
        store fresh (some (node null null v))
        pure (true, record l { head = fresh; tail = fresh; count = (l.count + 1) % 2 ^ 64 }))
      else (do
        store fresh (some (node null l.head v))
        set_prev l.head fresh
        pure (true, record l { head = fresh; count = (l.count + 1) % 2 ^ 64 }))

  -- The two halves of the unlinking in `emq_list_delete_node`.
  unfoldable pub unlink_prev : LinkedList → Node A → Cmd A LinkedList
  unlink_prev l n =
      if n.prev == null
      then pure (record l { head = n.next })
      else (do set_next n.prev n.next; pure l)

  unfoldable pub unlink_next : LinkedList → Node A → Cmd A LinkedList
  unlink_next l n =
      if n.next == null
      then pure (record l { tail = n.prev })
      else (do set_prev n.next n.prev; pure l)

  -- `emq_list_delete_node`
  unfoldable pub delete_node : LinkedList → Ptr → Cmd A LinkedList
  delete_node l p = do
    n ← load p
    l' ← unlink_prev l n
    n' ← load p
    l'' ← unlink_next l' n'
    release_value l.frees n.value
    free_node p
    pure (record l'' { count = (l''.count + 2 ^ 64 - 1) % 2 ^ 64 })

  -- `while (length--) { … }` of `emq_list_release`
  unfoldable pub release_loop : Bool → (length : ℕ) → Ptr → Cmd A (Unit {0})
  release_loop frees zero current = pure tt
  release_loop frees (suc k) current = do
    n ← load current
    release_value frees n.value
    free_node current
    release_loop frees k n.next

  -- `emq_list_release`, less the `free` of the struct
  unfoldable pub release : LinkedList → Cmd A (Unit {0})
  release l = release_loop l.frees l.count l.head

  -- `emq_list_next` over the iterator's `next`: the node, or `NULL`, and the iterator's new `next`.
  unfoldable pub next_node : Ptr → Cmd A (Ptr × Ptr)
  next_node next =
      if next == null then pure (null, next) else (do n ← load next; pure (next, n.next))

  -- One round of the loops in the functions that unsubscribe: `hit` is the test of the value, `none`
  -- if the test is a fault.
  unfoldable pub delete_hit : LinkedList → Ptr → Option Bool → Cmd A LinkedList
  delete_hit l p none h = fault
  delete_hit l p (some hit) h = if hit then delete_node l p h else ok l h

  -- `emq_list_rewind(list, &iter); while ((node = emq_list_next(&iter)) != NULL) { … }`
  unfoldable pub delete_loop : (A → Option Bool) → ℕ → LinkedList → (next : Ptr) → Cmd A LinkedList
  delete_loop test zero l next h = stuck
  delete_loop test (suc k) l next h = and_then (next_node next h) λ (p, next') h'.
      let again =
        and_then (load p h')
          λ n. delete_hit l p (test n.value) >>= λ l'. delete_loop test k l' next' in
      if p == null then ok l h' else again

  -- The loop with enough rounds for the nodes of the list.
  unfoldable pub delete_all : (A → Option Bool) → LinkedList → Cmd A LinkedList
  unfolding delete_loop
  delete_all test l = delete_loop test (l.count + 1) l l.head
