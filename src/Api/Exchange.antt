-- ===== src/Api/Exchange.antt =====
-- The exchange at the start of the functions of src/emq.c that subscribe and unsubscribe.
use libemq.Api.Verdicts.{accepted, refused}
use libemq.Base.{refl, ℕ, false, inl, inr, List, ◌≡◌, ◌++◌, ◌==◌, ◌∙◌, ap}
use libemq.Client.{Client, Run, State, done, Error, Status-cases, jump}
use libemq.System.{System, Posix, Reliable}
use libemq.Api.Verdicts.{Verdict, verdict, judge, judge-reading}
use libemq.Api.Replies.{cleared-IsValid}
use libemq.Protocol.{Command, ResponseHeader, response_header_bytes, status_success}
use libemq.Api.Subscribe.{exchange}
use libemq.Api.{accept, acknowledge, read_response}
use libemq.Packet.Buffer.{with_request, IsValid}
use libemq.Protocol.Headers.{IsHeader}
use libemq.Packet.{check_response_header, check_status, get_error}
use libemq.Packet.Calls.{Call, build}
use libemq.Packet.RoundTrip.{IsSendable, request_of}
use libemq.Api.Stages.{submit-Submits, read_header-arrived}

-- How the server answers a request, for the response's command `c`: with a header and then `rest`,
-- or not at all when the client asked for no acknowledgement.
pub data Answered {World : Type 0} {sys : System World} (posix : Posix sys) (c : Command)
    (s : State World) : List ℕ → Verdict → Type 0 where
  by_header :
      (h : ResponseHeader) (rest : List ℕ)
      → IsHeader h
      → s.client.noack ≡ 0
      → posix.incoming s.client.fd s.world ≡ response_header_bytes h ++ rest
      → Answered posix c s rest (verdict c h)
  by_silence :
      (s.client.noack == 0) ≡ false
      → Answered posix c s (posix.incoming s.client.fd s.world) accepted

-- The state and the way out after the exchange of the request `p`.
abbrev pub exchanged : {World : Type 0} → Client → List ℕ → Verdict → World → Run World (Unit {0})
exchanged c p accepted w =
    done tt (record { client = record (with_request c p) { error = Error.no_error }; world = w })
exchanged c p (refused e) w =
    jump (record { client = record (with_request c p) { error = e }; world = w })

module _ {World : Type 0} {sys : System World} {posix : Posix sys} (works : Reliable posix) where
  -- A run that has sent `p`, left `rest` to be read, and come to a verdict.
  abbrev pub Exchanges : List ℕ → List ℕ → Verdict → State World → Run World (Unit {0}) → Type 0
  Exchanges p rest v s r =
      (w : World) × (r ≡ exchanged s.client p v w)
      × (posix.sent s.client.fd w ≡ posix.sent s.client.fd s.world ++ p)
      × (posix.incoming s.client.fd w ≡ rest)

  accept-judged :
      (c : Command) (h : ResponseHeader) (client : Client) (p : List ℕ) (w : World)
      → let cleared : Client = record client { error = Error.no_error } in
        accept
          (check_response_header h c 0)
          h
          (record { client = with_request cleared p; world = w })
        ≡ exchanged client p
            (judge (check_response_header h c 0) (check_status h status_success) (get_error h))
            w
  unfolding accept
  accept-judged c h client p w = elim (Status-cases (check_response_header h c 0)) [
    | inr bad ↦ rw bad refl
    | inl fit ↦ elim (Status-cases (check_status h status_success)) [
      | inl good ↦ rw (fit, good) refl
      | inr bad ↦ rw (fit, bad) refl
    ]
  ]

  accept-exchanged :
      (c : Command) (h : ResponseHeader) (client : Client) (p : List ℕ) (w : World)
      → let cleared : Client = record client { error = Error.no_error } in
        accept
          (check_response_header h c 0)
          h
          (record { client = with_request cleared p; world = w })
        ≡ exchanged client p (verdict c h) w
  accept-exchanged c h client p w =
      accept-judged c h client p w
      ∙ ap (λ (v : Verdict). exchanged client p v w) (judge-reading c 0 h)

  -- The acknowledgement, once the request `p` is out.
  pub acknowledge-exchanged :
      (c : Command) (s : State World) {rest : List ℕ} {v : Verdict} (p : List ℕ) (w : World)
      → Answered posix c s rest v
      → posix.incoming s.client.fd w ≡ posix.incoming s.client.fd s.world
      → let cleared : Client = record (s.client) { error = Error.no_error } in
        (w' : World) × (acknowledge sys
            (λ h. check_response_header h c 0)
            (record { client = with_request cleared p; world = w })
          ≡ exchanged s.client p v w')
        × (posix.sent s.client.fd w' ≡ posix.sent s.client.fd w)
        × (posix.incoming s.client.fd w' ≡ rest)
  unfolding acknowledge read_response
  acknowledge-exchanged c s p w (by_header h rest fits ack e) kept =
      let cleared : Client = record (s.client) { error = Error.no_error } in
      let (w', arrived, left, out) =
        read_header-arrived works h rest (record { client = with_request cleared p; world = w })
          fits (kept ∙ e) in
      (w', rw (ap (λ (n : ℕ). n == 0) ack, arrived) (accept-exchanged c h s.client p w'), out, left)
  acknowledge-exchanged c s p w (by_silence off) kept = (w, rw off refl, refl, kept)

  pub exchange-Exchanges :
      (call : Call) (c : Command) (s : State World) {rest : List ℕ} {v : Verdict}
      → IsValid s.client
      → IsSendable call
      → Answered posix c s rest v
      → Exchanges (request_of call s.client.noack) rest v s (
          exchange sys
            (build sys call)
            (λ h. check_response_header h c 0)
            (record s { client = record (s.client) { error = Error.no_error } }))
  unfolding exchange
  exchange-Exchanges call c s v ok answer =
      let cleared : Client = record (s.client) { error = Error.no_error } in
      let p = request_of call s.client.noack in
      let (w, submitted, out, kept) =
        submit-Submits works call (record { client = cleared; world = s.world })
          (cleared-IsValid s.client v) ok in
      let (w', e, out', left) = acknowledge-exchanged c s p w answer kept in
      (w', rw (submitted, e) refl, out' ∙ out, left)
