-- ===== src/Api/Replies.antt =====
-- What a command does on a connection that works, for every reply of the server.
use libemq.Base.{refl, inl, inr, ℕ, List, ◌≡◌, ◌++◌, ◌∙◌, ap, ◌==◌, ◌↔◌, false, arith}
use libemq.Client.{
  Client, Error, Status, State, Run, done, returning, and_then, pure, Status-cases, Prog,
}
use libemq.Protocol.{
  Command, ResponseHeader, status_success, response_header_bytes, magic_res, code,
}
use libemq.System.{System, Posix, Reliable}
use libemq.Packet.Buffer.{with_request, IsValid}
use libemq.Packet.{check_response_header, check_status, get_error}
use libemq.Api.Verdicts.{Verdict, accepted, refused, verdict, judge, judge-reading}
use libemq.Api.{run_command, acknowledge, read_response, accept}
use libemq.Packet.Calls.{Call, build, command}
use libemq.Packet.RoundTrip.{IsSendable, request_of}
use libemq.Protocol.Headers.{IsHeader}
use libemq.Api.Stages.{submit-Submits, read_header-arrived}
use libemq.Api.Commands.{Sending, Sending-run_command}

abbrev pub outcome : Verdict → Status
outcome accepted = Status.ok
outcome (refused e) = Status.err

-- The client at the end: the request's bytes in its buffer, and the status and the error set.
abbrev pub settled : Client → List ℕ → Verdict → Client
settled c p accepted = record (with_request c p) { status = Status.ok; error = Error.no_error }
settled c p (refused e) = record (with_request c p) { status = Status.err; error = e }

-- Clearing the error keeps the buffer.
pub cleared-IsValid : (c : Client) → IsValid c → IsValid (record c { error = Error.no_error })
cleared-IsValid c v = record { allocated = v.allocated; large = v.large; filled = v.filled }

module _ {World : Type 0} {sys : System World} {posix : Posix sys} (works : Reliable posix) where
  -- A run that has sent `p`, left `rest` to be read, and come to a verdict.
  abbrev pub Concludes : List ℕ → List ℕ → Verdict → State World → Run World Status → Type 0
  Concludes p rest v s r =
      (w : World) × (r ≡ done (outcome v) (record { client = settled s.client p v; world = w }))
      × (posix.sent s.client.fd w ≡ posix.sent s.client.fd s.world ++ p)
      × (posix.incoming s.client.fd w ≡ rest)

  -- The tests at the end of a command, in one step; `fit` is what the check of the header says.
  accept-judge :
      (fit : Status) (h : ResponseHeader) (p : List ℕ) (s : State World) (w : World)
      → let v = judge fit (check_status h status_success) (get_error h) in
        let cleared : Client = record (s.client) { error = Error.no_error } in
        returning Status.err (
          and_then
            (accept fit h (record { client = with_request cleared p; world = w }))
            (λ _. pure Status.ok))
        ≡ done (outcome v) (record { client = settled s.client p v; world = w })
  unfolding accept
  accept-judge Status.err h p s w = refl
  accept-judge Status.ok h p s w = elim (Status-cases (check_status h status_success)) [
    | inl good ↦ rw good
    | inr bad ↦ rw bad
  ]

  pub run_command-Concludes :
      (call : Call) (check : ResponseHeader → Status) (h : ResponseHeader) (rest : List ℕ)
      (s : State World) (v : Verdict)
      → judge (check h) (check_status h status_success) (get_error h) ≡ v
      → IsValid s.client
      → IsSendable call
      → IsHeader h
      → s.client.noack ≡ 0
      → posix.incoming s.client.fd s.world ≡ response_header_bytes h ++ rest
      → Concludes
          (request_of call s.client.noack)
          rest
          v
          s
          (run_command sys (build sys call) check s)
  unfolding run_command acknowledge read_response
  run_command-Concludes call check h rest s v agrees valid ok fits ack e =
      let cleared : Client = record (s.client) { error = Error.no_error } in
      let (w, submitted, out, kept) =
        submit-Submits works call (record { client = cleared; world = s.world })
          (cleared-IsValid s.client valid) ok in
      let p = request_of call s.client.noack in
      let (w', arrived, left, out') =
        read_header-arrived works h rest (record { client = with_request cleared p; world = w })
          fits (kept ∙ e) in
      (
        w',
        rw (submitted, ap (λ (n : ℕ). n == 0) ack, arrived)
            (accept-judge (check h) h p s w'
              ∙ ap
                  (λ (u : Verdict).
                    done (outcome u) (record { client = settled s.client p u; world = w' }))
                  agrees),
        out' ∙ out,
        left,
      )

  -- For the 21 functions that send a command and wait for a bare response, with acknowledgements
  -- on, arguments that can be sent, and a connection that works on which some response header and
  -- more come next: the function sends exactly its request and reads exactly the header. It returns
  -- and stores `EMQ_STATUS_OK` with no error if the header is a response to the command without a
  -- body and with the status for success; `EMQ_STATUS_ERR` with the error of its status, or none
  -- where the status has no error of its own, if only the status is another; and `EMQ_STATUS_ERR`
  -- with `EMQ_ERROR_RESPONSE` in all other cases.
  pub command-Concludes :
      {call : Call} {run : Prog World Status} (h : ResponseHeader) (rest : List ℕ) (s : State World)
      → Sending sys call run
      → IsValid s.client
      → IsSendable call
      → IsHeader h
      → s.client.noack ≡ 0
      → posix.incoming s.client.fd s.world ≡ response_header_bytes h ++ rest
      → Concludes (request_of call s.client.noack) rest (verdict (command call) h) s (run s)
  command-Concludes {call} h rest s sends v ok fits ack e = rw (Sending-run_command sys sends) (
      run_command-Concludes call (λ k. check_response_header k (command call) 0) h rest s
        (verdict (command call) h) (judge-reading (command call) 0 h) v ok fits ack e)

  -- With acknowledgements off such a function sends exactly its request, reads nothing, and returns
  -- and stores `EMQ_STATUS_OK` with no error.
  pub command_noack :
      {call : Call} {run : Prog World Status} (s : State World)
      → Sending sys call run
      → IsValid s.client
      → IsSendable call
      → (s.client.noack == 0) ≡ false
      → Concludes
          (request_of call s.client.noack)
          (posix.incoming s.client.fd s.world)
          accepted
          s
          (run s)
  command_noack {call} s sends v ok off =
      let cleared : Client = record (s.client) { error = Error.no_error } in
      let (w, submitted, out, kept) =
        submit-Submits works call (record { client = cleared; world = s.world })
          (cleared-IsValid s.client v) ok in
      rw (Sending-run_command sys sends)
        (unfold run_command acknowledge in (w, rw (submitted, off), out, kept))

-- The only response that is accepted: of the command, without a body, with the status for success.
verdict-accepted :
    (c : Command) (h : ResponseHeader)
    → (verdict c h ≡ accepted)
      ↔ (h ≡ record { magic = magic_res; cmd = code c; status = status_success; bodylen = 0 })
verdict-accepted c h = (λ e. ground arith, λ e. rw e (ground arith))
