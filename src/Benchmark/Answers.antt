-- ===== src/Benchmark/Answers.antt =====
-- Programs over the functions of src/emq.c, one call after another, on a connection that works: the
-- answers that they wait for, and what they send.
use libemq.Packet.Calls.{command}
use libemq.Base.{
  ℕ, true, List, [], ◌∷◌, ◌++◌, ◌≡◌, refl, ◌==◌, if◌then◌else◌, inl, inr, ◌∙◌, ap, arith,
  Bool-cases, append_assoc, subst,
}
use libemq.Api.Verdicts.{Verdict, verdict, accepted, refused}
use libemq.Api.Replies.{settled, outcome, command-Concludes, command_noack}
use libemq.Protocol.{Command, ResponseHeader, response_header_bytes}
use libemq.Client.{Client, State, Run, done, Prog, and_then, Status, pure}
use libemq.System.{System, Posix, Reliable}
use libemq.Packet.Buffer.{IsValid, with_request-IsValid}
use libemq.Packet.Calls.{Call}
use libemq.Packet.RoundTrip.{IsSendable, request_of, request_of-le}
use libemq.Protocol.Headers.{IsHeader}
use libemq.Api.Exchange.{Answered, by_header, by_silence}
use libemq.Api.Commands.{Sending}

-- What the server sends in answer to commands, for the client's `noack`: the headers, or nothing.
abbrev pub awaited : ℕ → List ResponseHeader → List ℕ → List ℕ
awaited noack [] rest = rest
awaited noack (h ∷ hs) rest =
    if noack == 0 then response_header_bytes h ++ awaited noack hs rest else awaited noack hs rest

abbrev pub judged : ℕ → Command → ResponseHeader → Verdict
judged noack c h = if noack == 0 then verdict c h else accepted

-- A client that has sent requests: but for the request in its buffer, the status and the error its
-- members are those of `c`.
abbrev pub Later : Client → Client → Type 0
Later c c' =
    IsValid c'
    × (c' ≡ record c { request = c'.request; pos = c'.pos; status = c'.status; error = c'.error })

pub Later-trans : (a b c : Client) → Later a b → Later b c → Later a c
Later-trans a b c (vb, same) (vc, same') = (
  vc,
  same'
      ∙ ap
          (λ (x : Client). record x {
            request = c.request;
            pos = c.pos;
            status = c.status;
            error = c.error;
          })
          same,
)

pub settled-Later :
    (c : Client) (call : Call) (v : Verdict)
    → IsValid c
    → IsSendable call
    → Later c (settled c (request_of call c.noack) v)
settled-Later c call accepted valid ok =
    let v =
      with_request-IsValid c (request_of call c.noack) valid
        (omega (arith, valid.large, request_of-le call c.noack ok)) in
    (record { allocated = v.allocated; large = v.large; filled = v.filled }, refl)
settled-Later c call (refused e) valid ok =
    let v =
      with_request-IsValid c (request_of call c.noack) valid
        (omega (arith, valid.large, request_of-le call c.noack ok)) in
    (record { allocated = v.allocated; large = v.large; filled = v.filled }, refl)

==-zero : (n : ℕ) → (n == 0) ≡ true → n ≡ 0
==-zero n e = ground arith

module _ {World : Type 0} {sys : System World} (posix : Posix sys) where
  -- The next answer, whether it is awaited or not.
  pub awaited-Answered :
      (c : Command) (s : State World) (h : ResponseHeader) (hs : List ResponseHeader)
      (rest : List ℕ)
      → IsHeader h
      → posix.incoming s.client.fd s.world ≡ awaited s.client.noack (h ∷ hs) rest
      → Answered posix c s (awaited s.client.noack hs rest) (judged s.client.noack c h)
  awaited-Answered c s h hs rest fits e = elim (Bool-cases (s.client.noack == 0)) [
    | inl on ↦
        rw on (
          by_header h (awaited s.client.noack hs rest) fits (==-zero s.client.noack on)
            (rw on at e))
    | inr off ↦
        rw off
          (subst (λ (r : List ℕ). Answered posix c s r accepted) (rw off at e) (by_silence off))
  ]

module _ {World : Type 0} {sys : System World} (posix : Posix sys) where
  -- A run that has come to `a`, sent `bs` and left `rest` to be read.
  abbrev pub Goes : {A : Type 0} → A → (bs rest : List ℕ) → State World → Run World A → Type 0
  Goes a bs rest s r =
      (c : Client) × (w : World) × (r ≡ done a (record { client = c; world = w }))
      × (posix.sent s.client.fd w ≡ posix.sent s.client.fd s.world ++ bs)
      × (posix.incoming s.client.fd w ≡ rest)
      × Later s.client c

  -- One run after another.
  pub Goes-and_then :
      {A B : Type 0} {a : A} {b : B} (bs bs' mid rest : List ℕ) (s : State World) (r : Run World A)
      (k : A → Prog World B)
      → Goes a bs mid s r
      → ((s' : State World)
          → Later s.client s'.client
          → posix.incoming s'.client.fd s'.world ≡ mid
          → Goes b bs' rest s' (k a s'))
      → Goes b (bs ++ bs') rest s (and_then r k)
  Goes-and_then bs bs' mid rest s r k (c, w, run, out, left, later) next =
      let fd : c.fd ≡ s.client.fd = ap (λ (x : Client). x.fd) later.1 in
      let (c', w', run', out', left', later') =
        next (record { client = c; world = w }) later (rw fd left) in
      (
        c',
        w',
        rw run run',
        (rw fd at out')
            ∙ (ap (λ (xs : List ℕ). xs ++ bs') out
                ∙ append_assoc (posix.sent s.client.fd s.world) bs bs'),
        rw fd at left',
        Later-trans s.client c c' later later',
      )

  -- The value changed at the end.
  pub Goes-map :
      {A B : Type 0} {a : A} (f : A → B) (bs rest : List ℕ) (s : State World) (r : Run World A)
      → Goes a bs rest s r
      → Goes (f a) bs rest s (and_then r (λ x. pure (f x)))
  Goes-map f bs rest s r (c, w, run, out, left, later) = (c, w, rw run refl, out, left, later)

module _ {World : Type 0} {sys : System World} {posix : Posix sys} (works : Reliable posix) where
  -- One of the 21 functions that send a command, in either mode.
  pub command-Goes :
      {call : Call} {run : Prog World Status} (noack : ℕ) (h : ResponseHeader)
      (hs : List ResponseHeader) (rest : List ℕ) (s : State World)
      → Sending sys call run
      → s.client.noack ≡ noack
      → IsValid s.client
      → IsSendable call
      → IsHeader h
      → posix.incoming s.client.fd s.world ≡ awaited noack (h ∷ hs) rest
      → Goes posix
          (outcome (judged noack (command call) h))
          (request_of call noack)
          (awaited noack hs rest)
          s
          (run s)
  command-Goes {call} {run} noack h hs rest s sends mode valid ok fit e =
      elim (Bool-cases (noack == 0)) [
        | inl on ↦
            let (w, ran, out, left) =
              command-Concludes works h (awaited noack hs rest) s sends valid ok fit
                (mode ∙ ==-zero noack on) (rw on at e) in
            rw on (
              settled s.client (request_of call s.client.noack) (verdict (command call) h),
              w,
              ran,
              subst
                  (λ (n : ℕ).
                    posix.sent s.client.fd w ≡ posix.sent s.client.fd s.world ++ request_of call n)
                  mode out,
              left,
              settled-Later s.client call (verdict (command call) h) valid ok,
            )
        | inr off ↦
            let (w, ran, out, left) =
              command_noack works s sends valid ok (ap (λ (n : ℕ). n == 0) mode ∙ off) in
            rw off (
              settled s.client (request_of call s.client.noack) accepted,
              w,
              ran,
              subst
                  (λ (n : ℕ).
                    posix.sent s.client.fd w ≡ posix.sent s.client.fd s.world ++ request_of call n)
                  mode out,
              left ∙ (rw off at e),
              settled-Later s.client call accepted valid ok,
            )
      ]
