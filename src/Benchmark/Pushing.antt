-- ===== src/Benchmark/Pushing.antt =====
-- The loop of `worker` of src/benchmark.c that pushes the messages, on a connection that works.
use libemq.Packet.Calls.{command}
use libemq.Base.{
  ℕ, zero, suc, Bool, true, false, List, [], ◌∷◌, ◌++◌, ◌≡◌, refl, All, inl, inr, length, ◌⊎◌, ◌∙◌,
  ap, ◌+◌, ◌<◌, ◌≤◌, take, append-nil, subst, sym,
}
use libemq.Api.Verdicts.{Verdict, accepted, refused}
use libemq.Api.Replies.{settled, outcome}
use libemq.Protocol.{Command, ResponseHeader}
use libemq.Api.Push.{message-Pushes, queue_pushes}
use libemq.Benchmark.{push_loop, queue_name}
use libemq.Client.{Client, Error, State}
use libemq.System.{System, Posix, Reliable, Gathers}
use libemq.Packet.Buffer.{IsValid}
use libemq.Packet.Calls.{Call}
use libemq.Packet.RoundTrip.{IsSendable, request_of}
use libemq.Protocol.Headers.{IsHeader}
use libemq.Message.{Message}
use libemq.Wire.{encode}
use libemq.Api.Transfer.{queue_push}
use libemq.Benchmark.Answers.{awaited, judged, Goes, Goes-and_then, awaited-Answered, settled-Later}

-- The pushes that are tried when these are the answers: up to the first that is refused.
abbrev count : Verdict → ℕ → ℕ
count accepted n = suc n
count (refused e) n = 1

abbrev pub tried : ℕ → List ResponseHeader → ℕ
tried noack [] = 0
tried noack (h ∷ hs) = count (judged noack Command.queue_push h) (tried noack hs)

abbrev both : Verdict → Bool → Bool
both accepted b = b
both (refused e) b = false

abbrev pub all_taken : ℕ → List ResponseHeader → Bool
all_taken noack [] = true
all_taken noack (h ∷ hs) = both (judged noack Command.queue_push h) (all_taken noack hs)

-- The answers that are left then.
abbrev choose : Verdict → List ℕ → List ℕ → List ℕ
choose accepted xs ys = xs
choose (refused e) xs ys = ys

abbrev pub unanswered : ℕ → List ResponseHeader → List ℕ → List ℕ
unanswered noack [] rest = rest
unanswered noack (h ∷ hs) rest =
    choose (judged noack Command.queue_push h) (unanswered noack hs rest) (awaited noack hs rest)

abbrev pub copies : ℕ → List ℕ → List ℕ
copies zero bs = []
copies (suc n) bs = bs ++ copies n bs

Verdict-cases : (v : Verdict) → (v ≡ accepted) ⊎ ((e : Error) × (v ≡ refused e))
Verdict-cases accepted = inl refl
Verdict-cases (refused e) = inr (e, refl)

-- What one push sends.
abbrev pub pushed_bytes : ℕ → Message → List ℕ
pushed_bytes noack msg =
    request_of (Call.queue_push queue_name (4 + msg.size)) noack
    ++ (encode 4 msg.expire ++ take msg.size msg.payload)

module _ {World : Type 0} {sys : System World} {posix : Posix sys} (works : Reliable posix)
    (gathers : Gathers sys) where
  queue_push-Goes :
      (msg : Message) (noack : ℕ) (h : ResponseHeader) (hs : List ResponseHeader) (rest : List ℕ)
      (s : State World)
      → s.client.noack ≡ noack
      → IsValid s.client
      → IsSendable (Call.queue_push queue_name (4 + msg.size))
      → 0 < msg.size
      → msg.size ≤ length msg.payload
      → IsHeader h
      → posix.incoming s.client.fd s.world ≡ awaited noack (h ∷ hs) rest
      → Goes posix
          (outcome (judged noack Command.queue_push h))
          (pushed_bytes noack msg)
          (awaited noack hs rest)
          s
          (queue_push sys queue_name msg s)
  unfolding command
  queue_push-Goes msg noack h hs rest s mode valid ok some_data held fit e =
      let call = Call.queue_push queue_name (4 + msg.size) in
      let (w, run, out, left) =
        message-Pushes works gathers msg s (queue_pushes queue_name) valid ok some_data held (
          awaited-Answered posix Command.queue_push s h hs rest fit (
            subst (λ (n : ℕ). posix.incoming s.client.fd s.world ≡ awaited n (h ∷ hs) rest)
              (sym mode) e)) in
      let here : Goes posix (outcome (judged s.client.noack Command.queue_push h))
          (pushed_bytes s.client.noack msg) (awaited s.client.noack hs rest) s
          (queue_push sys queue_name msg s) =
        (
          settled s.client (request_of call s.client.noack)
              (judged s.client.noack Command.queue_push h),
          w,
          run,
          out,
          left,
          settled-Later s.client call (judged s.client.noack Command.queue_push h) valid ok,
        ) in
      subst
        (λ (n : ℕ).
          Goes posix (outcome (judged n Command.queue_push h)) (pushed_bytes n msg)
            (awaited n hs rest) s (queue_push sys queue_name msg s))
        mode here

  pub push_loop-Goes :
      (msg : Message) (noack : ℕ) (hs : List ResponseHeader) (rest : List ℕ) (s : State World)
      → s.client.noack ≡ noack
      → IsValid s.client
      → IsSendable (Call.queue_push queue_name (4 + msg.size))
      → 0 < msg.size
      → msg.size ≤ length msg.payload
      → All IsHeader hs
      → posix.incoming s.client.fd s.world ≡ awaited noack hs rest
      → Goes posix
          (all_taken noack hs)
          (copies (tried noack hs) (pushed_bytes noack msg))
          (unanswered noack hs rest)
          s
          (push_loop sys (length hs) msg s)
  unfolding push_loop
  push_loop-Goes msg noack [] rest s mode valid ok some_data held fits e =
      (s.client, s.world, refl, rw append-nil refl, e, (valid, refl))
  push_loop-Goes msg noack (h ∷ hs) rest s mode valid ok some_data held (fit, fits) e =
      let pushed = queue_push-Goes msg noack h hs rest s mode valid ok some_data held fit e in
      elim (Verdict-cases (judged noack Command.queue_push h)) [
        | inl taken ↦ rw taken (
            Goes-and_then posix (pushed_bytes noack msg)
              (copies (tried noack hs) (pushed_bytes noack msg)) (awaited noack hs rest)
              (unanswered noack hs rest) s (queue_push sys queue_name msg s) _ (rw taken at pushed)
              (λ s' later left.
                push_loop-Goes msg noack hs rest s' (ap (λ (x : Client). x.noack) later.1 ∙ mode)
                  later.0 ok some_data held fits left))
        | inr (bad, denied) ↦ rw denied (
            Goes-and_then posix (pushed_bytes noack msg) [] (awaited noack hs rest)
              (awaited noack hs rest) s (queue_push sys queue_name msg s) _ (rw denied at pushed)
              (λ s' later left.
                (s'.client, s'.world, refl, rw append-nil refl, left, (later.0, refl))))
      ]
