-- ===== src/Process/Replay.antt =====
-- `emq_process` of src/emq.c as a fold over the events: what the loop does, without the bytes.
use libemq.Base.{
  ◌++◌, if◌then◌else◌, ℕ, none, some, [], ◌∷◌, refl, Bool, true, false, not, List, ◌==◌, Option,
  ◌&&◌, ◌≡◌, Bool-cases, inl, inr, ◌⊎◌,
}
use libemq.Process.{Callbacks, Delivery, is_nil}
use libemq.Client.{Client, State}
use libemq.Process.Events.{idle, Event, target, Listens}
use libemq.System.{System, Posix}

-- What callbacks that read nothing from the connection answer, the client that they leave, and the
-- bytes that they send.
abbrev pub Reactions : Type 0
Reactions = ℕ → Delivery → Client → ℕ × Client × List ℕ

-- A callback asks to end the loop, and has left no subscription to a queue.
abbrev pub ends : ℕ × Client × List ℕ → Bool
ends r = not (r.0 == 0) && is_nil r.1.queue_subscriptions

-- How the loop ends: with these events left, or at one that has no subscription; the client, and
-- the bytes that have been sent.
pub data Outcome : Type 0 where
  ended : List Event → Client → List ℕ → Outcome
  unclaimed : Event → List Event → Client → List ℕ → Outcome

abbrev pub after : List ℕ → Outcome → Outcome
after bs (ended es c out) = ended es c (bs ++ out)
after bs (unclaimed e es c out) = unclaimed e es c (bs ++ out)

abbrev after_all : List ℕ → Option Outcome → Option Outcome
after_all bs none = none
after_all bs (some o) = some (after bs o)

after_all-some :
    (bs : List ℕ) (o : Option Outcome) (out : Outcome)
    → after_all bs o ≡ some out
    → (o' : Outcome) × (o ≡ some o') × (after bs o' ≡ out)
after_all-some bs none out e = absurd cc
after_all-some bs (some o) out e = (o, refl, cc)

module _ (answer : Reactions) where
  -- After a callback: the end, or the events that follow.
  pub answered : (Client → Option Outcome) → List Event → ℕ × Client × List ℕ → Option Outcome
  answered again es r = if ends r then some (ended es r.1 r.2) else after_all r.2 (again r.1)

  pub serve :
      (Client → Option Outcome)
      → Event
      → List Event
      → Client
      → Option (ℕ × Delivery)
      → Option Outcome
  unfolding answered
  serve again e es c none = some (unclaimed e es c [])
  serve again e es c (some (k, d)) = answered again es (answer k d c)

  -- Each event goes to the first subscription with its name, in order, until the callbacks have
  -- ended the loop or an event has no subscription. `none` if the loop would wait for more events.
  unfoldable pub replay : List Event → Client → Option Outcome
  unfolding serve
  replay [] c = if idle c then some (ended [] c []) else none
  replay (e ∷ es) c =
      if idle c then some (ended (e ∷ es) c []) else serve (replay es) e es c (target e c)

  pub replay-idle :
      (es : List Event) (c : Client) (r : Outcome)
      → idle c ≡ true
      → replay es c ≡ some r
      → ended es c [] ≡ r
  unfolding replay
  replay-idle [] c r i e = let here : some (ended [] c []) ≡ some r = rw i at e in cc
  replay-idle (x ∷ es) c r i e = let here : some (ended (x ∷ es) c []) ≡ some r = rw i at e in cc

  pub replay-nil : (c : Client) (r : Outcome) → replay [] c ≡ some r → idle c ≡ true
  unfolding replay
  replay-nil c r e = elim (Bool-cases (idle c)) [
    | inl i ↦ i
    | inr i ↦ let gone : none ≡ some r = rw i at e in absurd cc
  ]

  pub replay-cons :
      (x : Event) (es : List Event) (c : Client) (r : Outcome)
      → idle c ≡ false
      → replay (x ∷ es) c ≡ some r
      → serve (replay es) x es c (target x c) ≡ some r
  unfolding replay
  replay-cons x es c r i e = rw i at e

  pub serve-none :
      (again : Client → Option Outcome) (x : Event) (es : List Event) (c : Client)
      (o : Option (ℕ × Delivery)) (r : Outcome)
      → serve again x es c o ≡ some r
      → o ≡ none
      → unclaimed x es c [] ≡ r
  unfolding serve
  serve-none again x es c o r e h = let here : some (unclaimed x es c []) ≡ some r = rw h at e in cc

  pub serve-some :
      (again : Client → Option Outcome) (x : Event) (es : List Event) (c : Client)
      (o : Option (ℕ × Delivery)) (r : Outcome) (k : ℕ) (d : Delivery)
      → serve again x es c o ≡ some r
      → o ≡ some (k, d)
      → answered again es (answer k d c) ≡ some r
  unfolding serve
  serve-some again x es c o r k d e h = rw h at e

  pub answered-ends :
      (again : Client → Option Outcome) (es : List Event) (r : ℕ × Client × List ℕ) (out : Outcome)
      → answered again es r ≡ some out
      → ends r ≡ true
      → ended es r.1 r.2 ≡ out
  unfolding answered
  answered-ends again es r out e h = let here : some (ended es r.1 r.2) ≡ some out = rw h at e in cc

  pub answered-again :
      (again : Client → Option Outcome) (es : List Event) (r : ℕ × Client × List ℕ) (out : Outcome)
      → answered again es r ≡ some out
      → ends r ≡ false
      → (o : Outcome) × (again r.1 ≡ some o) × (after r.2 o ≡ out)
  unfolding answered
  answered-again again es r out e h = after_all-some r.2 (again r.1) out (rw h at e)

pub over-cases :
    {A B : Type 0} (o : Option (A × B)) → (o ≡ none) ⊎ ((a : A) × (b : B) × (o ≡ some (a, b)))
over-cases none = inl refl
over-cases (some (a, b)) = inr (a, b, refl)

-- Callbacks that do what `answer` says with a client that `Holds`: they leave the stream, and a
-- client that holds, with a NUL in the name of every subscription. The world may change otherwise.
pub record Local {World : Type 0} {sys : System World} (posix : Posix sys)
    (callbacks : Callbacks World) (answer : Reactions) (Holds : Client → Type 0) : Type 0 where
  pub acts :
      (k : ℕ) (d : Delivery) (s : State World)
      → Holds s.client
      → let r = answer k d s.client in
        (w : World) × (callbacks k d s ≡ (r.0, record { client = r.1; world = w }))
        × (posix.incoming r.1.fd w ≡ posix.incoming s.client.fd s.world)
        × (posix.sent r.1.fd w ≡ posix.sent s.client.fd s.world ++ r.2)
  pub keeps : (k : ℕ) (d : Delivery) (c : Client) → Holds c → Holds (answer k d c).1
  pub listens : (c : Client) → Holds c → Listens c
