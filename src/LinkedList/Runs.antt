-- ===== src/LinkedList/Runs.antt =====
-- Runs over the heap of nodes that return, with a postcondition: neither a fault nor out of fuel.
use libemq.LinkedList.{Heap, Outcome, ok, fault, stuck, Cmd, and_then}

abbrev pub Returns : {A B : Type 0} → (B → Heap A → Type 0) → Outcome A B → Type 0
Returns P (ok b h) = P b h
Returns P fault = ⊥
Returns P stuck = ⊥

pub Returns-and_then :
    {A B C : Type 0} (P : B → Heap A → Type 0) (Q : C → Heap A → Type 0) (r : Outcome A B)
    (k : B → Cmd A C)
    → Returns P r
    → ((b : B) (h : Heap A) → P b h → Returns Q (k b h))
    → Returns Q (and_then r k)
Returns-and_then P Q (ok b h) k p next = next b h p
Returns-and_then P Q fault k p next = p
Returns-and_then P Q stuck k p next = p

-- A weaker postcondition.
pub Returns-weaken :
    {A B : Type 0} (P Q : B → Heap A → Type 0) (r : Outcome A B)
    → Returns P r
    → ((b : B) (h : Heap A) → P b h → Q b h)
    → Returns Q r
Returns-weaken P Q (ok b h) p weaker = weaker b h p
Returns-weaken P Q fault p weaker = p
Returns-weaken P Q stuck p weaker = p
