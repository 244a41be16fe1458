-- ===== src/Api/Errors.antt =====
-- The runs of the functions of src/emq.c that send a command or ask for a number, on any connection:
-- it may close, fail, or send what it likes.
use libemq.Base.{refl, ℕ, List, inl, inr, ◌⊎◌, ◌≡◌, ap, sym, subst, arith}
use libemq.Client.{
  Client, State, Run, Prog, Status, Error, done, jump, fault, stuck, and_then, returning, pure,
}
use libemq.Protocol.{ResponseHeader}
use libemq.Api.Steps.{
  Kept, Tame, Tame-and_then, read_header-Tame, read_number-Tame, accept-Tame, acknowledge-Tame,
  write-Tame, requested,
}
use libemq.System.{System, Posix}
use libemq.Packet.{check_response_header}
use libemq.Packet.Calls.{Call, build, command}
use libemq.Packet.Buffer.{IsValid, with_request, with_request-IsValid}
use libemq.Packet.RoundTrip.{IsSendable, request_of, build-fits, request_of-le}
use libemq.Network.Write.{client_write-Writes}
use libemq.Api.{submit, read_header, acknowledge, run_command, ask, run_query}
use libemq.Api.Stages.{request_block-with_request}
use libemq.Api.Commands.{Sending, Sending-run_command}
use libemq.Api.Replies.{cleared-IsValid}
use libemq.Api.Queries.{Asking, Asking-run_query}

-- How a function ends: the client is settled with a status, which is `EMQ_STATUS_ERR` if the function
-- returns its value for failure at the label `error`.
module _ {World : Type 0} {sys : System World} (posix : Posix sys) where
  abbrev pub Ends : {A : Type 0} → List ℕ → (A → Type 0) → A → State World → Run World A → Type 0
  Ends p Good failed s (done a s') =
      Kept posix p s s'
      × IsValid s'.client
      × (((s'.client.status ≡ Status.ok) × Good a)
          ⊎ ((s'.client.status ≡ Status.err) × (a ≡ failed)))
  Ends p Good failed s (jump s') = ⊥
  Ends p Good failed s fault = ⊥
  Ends p Good failed s stuck = ⊥

  Kept-status :
      (p : List ℕ) (s s' : State World) (v : Status)
      → Kept posix p s s'
      → Kept posix p s (record s' { client = record (s'.client) { status = v } })
  Kept-status p s s' v h = record {
    frame = ap (λ (c : Client). record c { status = v }) h.frame;
    count = h.count;
    sent = h.sent;
    fewer = h.fewer;
  }

  Kept-IsValid :
      (call : Call) (s s' : State World)
      → IsValid s.client
      → IsSendable call
      → Kept posix (request_of call s.client.noack) s s'
      → IsValid s'.client
  Kept-IsValid call s s' valid ok h =
      let p = request_of call s.client.noack in
      let there : IsValid (with_request s.client p) =
        with_request-IsValid s.client p valid
          (omega (arith, valid.large, request_of-le call s.client.noack ok)) in
      subst (λ (c : Client). IsValid c) (sym h.frame)
        (record { allocated = there.allocated; large = there.large; filled = there.filled })

  submit-Tame :
      (call : Call) (s : State World)
      → IsValid s.client
      → IsSendable call
      → let s0 = record s { client = record (s.client) { error = Error.no_error } } in
        Tame posix (request_of call s.client.noack) s (submit sys (build sys call) s0)
  unfolding submit
  submit-Tame call s valid ok =
      let p = request_of call s.client.noack in
      let s0 = record s { client = record (s.client) { error = Error.no_error } } in
      rw
        (
          build-fits sys call s0 (cleared-IsValid s.client valid) ok,
          request_block-with_request s0.client p s.world,
        )
        (write-Tame posix p s Error.no_error _
          (client_write-Writes posix p (requested posix p s Error.no_error)))

  -- The run gives a good value, if it gives one.
  abbrev Gives : {A : Type 0} → (A → Type 0) → Run World A → Type 0
  Gives Good (done a s') = Good a
  Gives Good (jump s') = Unit {0}
  Gives Good fault = Unit {0}
  Gives Good stuck = Unit {0}

  Gives-and_then :
      {A B : Type 0} (Good : B → Type 0) (r : Run World A) (k : A → Prog World B)
      → ((a : A) (s : State World) → Gives Good (k a s))
      → Gives Good (and_then r k)
  Gives-and_then Good (done a s') k next = next a s'
  Gives-and_then Good (jump s') k next = tt
  Gives-and_then Good fault k next = tt
  Gives-and_then Good stuck k next = tt

  Gives-any : {A : Type 0} (r : Run World A) → Gives (λ a. Unit {0}) r
  Gives-any (done a s') = tt
  Gives-any (jump s') = tt
  Gives-any fault = tt
  Gives-any stuck = tt

  returning-Ends :
      {A : Type 0} (call : Call) (Good : A → Type 0) (failed : A) (s : State World)
      (r : Run World A)
      → IsValid s.client
      → IsSendable call
      → Tame posix (request_of call s.client.noack) s r
      → Gives Good r
      → Ends (request_of call s.client.noack) Good failed s (returning failed r)
  returning-Ends call Good failed s (done a s') valid ok h good =
      let h' = Kept-status (request_of call s.client.noack) s s' Status.ok h in
      (h', Kept-IsValid call s _ valid ok h', inl (refl, good))
  returning-Ends call Good failed s (jump s') valid ok h good =
      let h' = Kept-status (request_of call s.client.noack) s s' Status.err h in
      (h', Kept-IsValid call s _ valid ok h', inr (refl, refl))
  returning-Ends call Good failed s fault valid ok h good = h
  returning-Ends call Good failed s stuck valid ok h good = h

  run_command-Ends :
      (call : Call) (check : ResponseHeader → Status) (s : State World)
      → IsValid s.client
      → IsSendable call
      → Ends
          (request_of call s.client.noack)
          (λ v. v ≡ Status.ok)
          Status.err
          s
          (run_command sys (build sys call) check s)
  unfolding run_command
  run_command-Ends call check s valid ok =
      let p = request_of call s.client.noack in
      let s0 = record s { client = record (s.client) { error = Error.no_error } } in
      returning-Ends call (λ v. v ≡ Status.ok) Status.err s _ valid ok
        (Tame-and_then posix p s (submit sys (build sys call) s0) _ (submit-Tame call s valid ok)
          (λ _ s1 h1.
            Tame-and_then posix p s _ _ (acknowledge-Tame posix p s check s1 h1) (λ _ s2 h2. h2)))
        (Gives-and_then (λ v. v ≡ Status.ok) (submit sys (build sys call) s0) _
          (λ _ s1.
            Gives-and_then (λ v. v ≡ Status.ok) (acknowledge sys check s1) (λ _. pure Status.ok)
              (λ _ s2. refl)))

  -- Each of the 21 functions that send a command and wait for a bare response, with arguments that
  -- can be sent, on whatever connection, which may close, fail or send what it likes: it returns,
  -- and returns the status that it stores. It has sent nothing but some first bytes of its request;
  -- the client keeps its invariant, and but for the request in its buffer, the status and the error
  -- all its members.
  pub command-Ends :
      {call : Call} {run : Prog World Status} (s : State World)
      → Sending sys call run
      → IsValid s.client
      → IsSendable call
      → Ends (request_of call s.client.noack) (λ v. v ≡ Status.ok) Status.err s (run s)
  command-Ends {call} s sends valid ok =
      rw (Sending-run_command sys sends)
        (run_command-Ends call (λ k. check_response_header k (command call) 0) s valid ok)

  -- Each of the four functions that ask for a number, with arguments that can be sent, on whatever
  -- connection: it returns, and if it stores `EMQ_STATUS_ERR` what it returns is its value for
  -- failure. It has sent nothing but some first bytes of its request; the client keeps its
  -- invariant, and but for the request in its buffer, the status and the error all its members.
  pub query-Ends :
      {call : Call} {failed : ℕ} {run : Prog World ℕ} (s : State World)
      → Asking sys call failed run
      → IsValid s.client
      → IsSendable call
      → Ends (request_of call s.client.noack) (λ n. Unit {0}) failed s (run s)
  unfolding run_query ask
  query-Ends {call} {failed} s asks valid ok =
      let p = request_of call s.client.noack in
      let s0 = record s { client = record (s.client) { error = Error.no_error } } in
      rw (Asking-run_query sys asks) (
        returning-Ends call (λ n. Unit {0}) failed s _ valid ok
          (Tame-and_then posix p s (submit sys (build sys call) s0) _ (submit-Tame call s valid ok)
            (λ _ s1 h1.
              Tame-and_then posix p s (read_header sys s1) _ (read_header-Tame posix p s s1 h1)
                (λ header s2 h2.
                  Tame-and_then posix p s _ _
                    (accept-Tame posix p s (check_response_header header (command call) 4) header s2
                      h2)
                    (λ _ s3 h3. read_number-Tame posix p s s3 h3))))
          (Gives-any _))
