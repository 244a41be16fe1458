-- ===== src/Connection/Runs.antt =====
-- Runs that return, with a postcondition: no fault, and not left waiting.
use libemq.Client.{State, Run, Prog, and_then, done, jump, fault, stuck}
use libemq.Connection.{Host, system_call}
use libemq.Base.{◌≡◌, refl}

module _ {World : Type 0} where
  abbrev pub Returns : {A : Type 0} → (A → State World → Type 0) → Run World A → Type 0
  Returns P (done a s) = P a s
  Returns P (jump s) = ⊥
  Returns P fault = ⊥
  Returns P stuck = ⊥

  pub Returns-and_then :
      {A B : Type 0} (P : A → State World → Type 0) (Q : B → State World → Type 0) (r : Run World A)
      (k : A → Prog World B)
      → Returns P r
      → ((a : A) (s : State World) → P a s → Returns Q (k a s))
      → Returns Q (and_then r k)
  Returns-and_then P Q (done a s) k p next = next a s p
  Returns-and_then P Q (jump s) k p next = p
  Returns-and_then P Q fault k p next = p
  Returns-and_then P Q stuck k p next = p

  -- Likewise, where the second run may depend on what the first has returned.
  pub Returns-and_then_known :
      {A B : Type 0} (P : A → State World → Type 0) (Q : B → State World → Type 0) (r : Run World A)
      (k : A → Prog World B)
      → Returns P r
      → ((a : A) (s : State World) → r ≡ done a s → P a s → Returns Q (k a s))
      → Returns Q (and_then r k)
  Returns-and_then_known P Q (done a s) k p next = next a s refl p
  Returns-and_then_known P Q (jump s) k p next = p
  Returns-and_then_known P Q fault k p next = p
  Returns-and_then_known P Q stuck k p next = p

  pub Returns-weaken :
      {A : Type 0} (P Q : A → State World → Type 0) (r : Run World A)
      → Returns P r
      → ((a : A) (s : State World) → P a s → Q a s)
      → Returns Q r
  Returns-weaken P Q (done a s) p weaker = weaker a s p
  Returns-weaken P Q (jump s) p weaker = p
  Returns-weaken P Q fault p weaker = p
  Returns-weaken P Q stuck p weaker = p

module _ {World : Type 0} where
  abbrev pub moved : State (Host World) → World → State (Host World)
  moved s w = record s { world = record (s.world) { world = w } }

  -- A call of the system, whatever it answers.
  pub call-Returns :
      {A B : Type 0} (Q : B → State (Host World) → Type 0) (f : World → A × World)
      (s : State (Host World)) (k : A → Prog (Host World) B)
      → ((a : A) (w : World) → f s.world.world ≡ (a, w) → Returns Q (k a (moved s w)))
      → Returns Q (and_then (system_call f s) k)
  unfolding system_call
  call-Returns Q f s k next = next (f s.world.world).0 (f s.world.world).1 refl
