-- ===== src/Process/Departure.antt =====
-- A callback of `emq_process` (src/emq.c) that unsubscribes with acknowledgements off, as the one of
-- examples/queue-subscribe.c does at its last message.
use libemq.Base.{ℕ, List, refl, All, Bool-cases, inl, inr, [], ◌∷◌, arith}
use libemq.Client.{State, Client, Run, done, jump, fault, stuck, Status}
use libemq.Process.{Callbacks}
use libemq.Process.Replay.{Reactions, Local}
use libemq.Api.Subscribe.{queue_unsubscribe}
use libemq.Api.Unsubscribe.{queue_left, queue_unsubscribe-Settles, IsNamed, queue_name}
use libemq.Api.{noack_enable, noack_disable}
use libemq.Packet.Buffer.{IsValid, with_request-IsValid}
use libemq.Wire.{Text, read_text}
use libemq.System.{System, Posix, Reliable}
use libemq.Packet.RoundTrip.{request_of, IsSendable, request_of-le}
use libemq.Api.Verdicts.{accepted}
use libemq.Subscription.Names.{others, others-Named}
use libemq.Process.Events.{Listens}
use libemq.Packet.Calls.{Call}
use libemq.Subscription.Names.{same}
use libemq.Api.Exchange.{by_silence}

others-All :
    {A : Type 0} (P : A → Type 0) (name_of : A → List ℕ) (t : Text) (xs : List A)
    → All P xs
    → All P (others name_of t xs)
others-All P name_of t [] h = tt
others-All P name_of t (x ∷ xs) (h, hs) = elim (Bool-cases (same (read_text (name_of x)) t)) [
  | inl e ↦ rw e (others-All P name_of t xs hs)
  | inr e ↦ rw e (h, others-All P name_of t xs hs)
]

module _ {World : Type 0} (sys : System World) (name : Text) where
  -- It returns 1 after the call; the other runs do not return.
  abbrev answer_of : State World → Run World Status → ℕ × State World
  answer_of s (done status s') = (1, record s' { client = noack_disable s'.client })
  answer_of s (jump s') = (1, s)
  answer_of s fault = (1, s)
  answer_of s stuck = (1, s)

  abbrev pub depart : Callbacks World
  depart k d s =
      answer_of s (queue_unsubscribe sys name (record s { client = noack_enable s.client }))

abbrev departure_request : Text → List ℕ
departure_request name = request_of (Call.queue_unsubscribe name) 1

abbrev pub departed : Text → Client → Client
departed name c = noack_disable (queue_left (noack_enable c) (departure_request name) name accepted)

abbrev pub departure : Text → Reactions
departure name k d c = (1, departed name c, departure_request name)

-- A client with its invariant, and with a NUL in the name of every subscription.
abbrev pub Ready : Client → Type 0
Ready c = IsValid c × IsNamed c × Listens c

module _ {World : Type 0} {sys : System World} {posix : Posix sys} (works : Reliable posix) where
  departed-Ready :
      (name : Text) (c : Client)
      → IsSendable (Call.queue_unsubscribe name)
      → Ready c
      → Ready (departed name c)
  unfolding noack_enable noack_disable
  departed-Ready name c ok (valid, named, listens) =
      let v =
        with_request-IsValid c (departure_request name) valid
          (omega (arith, valid.large, request_of-le (Call.queue_unsubscribe name) 1 ok)) in
      (
        record { allocated = v.allocated; large = v.large; filled = v.filled },
        (others-Named queue_name name c.queue_subscriptions named.0, named.1),
        (others-All _ queue_name name c.queue_subscriptions listens.0, listens.1),
      )

  pub depart-Local :
      (name : Text)
      → IsSendable (Call.queue_unsubscribe name)
      → Local posix (depart sys name) (departure name) Ready
  unfolding noack_enable noack_disable
  depart-Local name ok = record {
    acts = λ k d s holds.
        let (valid, named, listens) = holds in
        let s1 : State _ = record s { client = noack_enable s.client } in
        let (w, run, out, left, kept) =
          queue_unsubscribe-Settles works name s1
            (record { allocated = valid.allocated; large = valid.large; filled = valid.filled }) ok
            named (by_silence refl) in
        (w, rw run refl, left, out);
    keeps = λ k d c holds. departed-Ready name c ok holds;
    listens = λ c holds. holds.2;
  }
