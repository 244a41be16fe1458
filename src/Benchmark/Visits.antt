-- ===== src/Benchmark/Visits.antt =====
-- What `setup_server` and `cleanup_server` of src/benchmark.c do with a client, on any connection: it
-- may close, fail, or send what it likes.
use libemq.Base.{ℕ, Option, List, ◌≡◌, refl, ap, inl, inr, ◌∙◌, sym, Bool-cases, ◌==◌, arith}
use libemq.Connection.Runs.{Returns, Returns-and_then, Returns-weaken}
use libemq.Benchmark.Answers.{Later, Later-trans}
use libemq.Benchmark.{Config, queue_name}
use libemq.Benchmark.Server.{
  delete_if, delete_sized, create_anew, emq_max_msg, emq_max_msg_size, prepare, clean,
}
use libemq.Client.{
  done, jump, fault, stuck, State, Client, Run, Prog, and_then, Status, Error, done, jump,
}
use libemq.System.{System, Posix}
use libemq.Packet.Buffer.{IsValid, with_request}
use libemq.Packet.Calls.{Call, body, message_size}
use libemq.Api.Errors.{Ends, query-Ends, command-Ends}
use libemq.Api.Commands.{Sending, auth_sends, queue_create_sends, queue_delete_sends}
use libemq.Api.Queries.{Asking, queue_exist_asks, queue_size_asks}
use libemq.Packet.RoundTrip.{IsSendable, request_of}
use libemq.Api.Session.{auth}
use libemq.Api.Queue.{queue_exist, queue_size, queue_create, queue_delete}

Later-refl : (c : Client) → IsValid c → Later c c
Later-refl c valid = (valid, refl)

framed-Later :
    (c c' : Client) (request : Option (List ℕ)) (pos : ℕ) (status : Status) (error : Error)
    → IsValid c'
    → c' ≡ record c { request = request; pos = pos; status = status; error = error }
    → Later c c'
framed-Later c c' request pos status error valid h = (
  valid,
  h
      ∙ sym (
          ap
            (λ (x : Client). record c {
              request = x.request;
              pos = x.pos;
              status = x.status;
              error = x.error;
            })
            h),
)

module _ {World : Type 0} where
  -- The run returns, with a client that has sent requests.
  abbrev pub Stays : {A : Type 0} → Client → Run World A → Type 0
  Stays c r = Returns (λ a s'. Later c s'.client) r

  pub Stays-and_then :
      {A B : Type 0} (c : Client) (r : Run World A) (k : A → Prog World B)
      → Stays c r
      → ((a : A) (s : State World) → Later c s.client → Stays c (k a s))
      → Stays c (and_then r k)
  Stays-and_then c r k first next =
      Returns-and_then (λ a s'. Later c s'.client) (λ b s'. Later c s'.client) r k first next

  Stays-Later : {A : Type 0} (c c' : Client) (r : Run World A) → Later c c' → Stays c' r → Stays c r
  Stays-Later c c' r l stays =
      Returns-weaken (λ a s'. Later c' s'.client) (λ a s'. Later c s'.client) r stays
        (λ a s' l'. Later-trans c c' s'.client l l')

module _ {World : Type 0} {sys : System World} (posix : Posix sys) where
  Ends-Stays :
      {A : Type 0} (p : List ℕ) (Good : A → Type 0) (failed : A) (s : State World) (r : Run World A)
      → Ends posix p Good failed s r
      → Stays s.client r
  Ends-Stays p Good failed s (done a s') (kept, valid, how) =
      framed-Later s.client s'.client (with_request s.client p).request
        (with_request s.client p).pos s'.client.status s'.client.error valid kept.frame
  Ends-Stays p Good failed s (jump s') h = h
  Ends-Stays p Good failed s fault h = h
  Ends-Stays p Good failed s stuck h = h

  command-Stays :
      {call : Call} {run : Prog World Status} (c : Client) (s : State World)
      → Sending sys call run
      → IsSendable call
      → Later c s.client
      → Stays c (run s)
  command-Stays {call} {run} c s sends ok l = Stays-Later c s.client (run s) l (
      Ends-Stays (request_of call s.client.noack) _ Status.err s (run s)
        (command-Ends posix s sends l.0 ok))

  query-Stays :
      {call : Call} {failed : ℕ} {run : Prog World ℕ} (c : Client) (s : State World)
      → Asking sys call failed run
      → IsSendable call
      → Later c s.client
      → Stays c (run s)
  query-Stays {call} {failed} {run} c s asks ok l = Stays-Later c s.client (run s) l (
      Ends-Stays (request_of call s.client.noack) _ failed s (run s)
        (query-Ends posix s asks l.0 ok))

exist_call-IsSendable : IsSendable (Call.queue_exist queue_name)
unfolding body message_size
exist_call-IsSendable = omega arith

size_call-IsSendable : IsSendable (Call.queue_size queue_name)
unfolding body message_size
size_call-IsSendable = omega arith

delete_call-IsSendable : IsSendable (Call.queue_delete queue_name)
unfolding body message_size
delete_call-IsSendable = omega arith

create_call-IsSendable : IsSendable (Call.queue_create queue_name emq_max_msg emq_max_msg_size 0)
unfolding body message_size
create_call-IsSendable = omega arith

module _ {World : Type 0} {sys : System World} (posix : Posix sys) where
  delete_if-Stays :
      (c : Client) (there : ℕ) (s : State World)
      → Later c s.client
      → Stays c (delete_if sys there s)
  unfolding delete_if
  delete_if-Stays c there s l = elim (Bool-cases (there == 0)) [
    | inl e ↦ rw e l
    | inr e ↦ rw e (
        Stays-and_then c (queue_delete sys queue_name s) _
          (command-Stays posix c s (queue_delete_sends queue_name) delete_call-IsSendable l)
          (λ _ s' l'. l'))
  ]

  create_anew-Stays :
      (c : Client) (status : Status) (s : State World)
      → Later c s.client
      → Stays c (create_anew sys status s)
  unfolding create_anew
  create_anew-Stays c Status.err s l = l
  create_anew-Stays c Status.ok s l =
      Stays-and_then c (queue_exist sys queue_name s) _
        (query-Stays posix c s (queue_exist_asks queue_name) exist_call-IsSendable l)
        (λ there s1 l1.
          Stays-and_then c (delete_if sys there s1) _ (delete_if-Stays c there s1 l1) (λ _ s2 l2.
            Stays-and_then c (queue_create sys queue_name emq_max_msg emq_max_msg_size 0 s2) _
              (command-Stays posix c s2
                (queue_create_sends queue_name emq_max_msg emq_max_msg_size 0)
                create_call-IsSendable l2)
              (λ _ s3 l3. l3)))

  delete_sized-Stays :
      (c : Client) (there : ℕ) (s : State World)
      → Later c s.client
      → Stays c (delete_sized sys there s)
  unfolding delete_sized
  delete_sized-Stays c there s l = elim (Bool-cases (there == 0)) [
    | inl e ↦ rw e l
    | inr e ↦ rw e (
        Stays-and_then c (queue_size sys queue_name s) _
          (query-Stays posix c s (queue_size_asks queue_name) size_call-IsSendable l)
          (λ _ s1 l1.
            Stays-and_then c (queue_delete sys queue_name s1) _
              (command-Stays posix c s1 (queue_delete_sends queue_name) delete_call-IsSendable l1)
              (λ _ s2 l2. l2)))
  ]

  pub prepare-Stays :
      (c : Config) (s : State World)
      → IsValid s.client
      → IsSendable (Call.auth c.user_name c.user_password)
      → Stays s.client (prepare sys c s)
  unfolding prepare
  prepare-Stays c s valid ok =
      Stays-and_then s.client (auth sys c.user_name c.user_password s) _
        (command-Stays posix s.client s (auth_sends c.user_name c.user_password) ok
          (Later-refl s.client valid))
        (λ status s' l. create_anew-Stays s.client status s' l)

  pub clean-Stays :
      (c : Config) (s : State World)
      → IsValid s.client
      → IsSendable (Call.auth c.user_name c.user_password)
      → Stays s.client (clean sys c s)
  unfolding clean
  clean-Stays c s valid ok =
      Stays-and_then s.client (auth sys c.user_name c.user_password s) _
        (command-Stays posix s.client s (auth_sends c.user_name c.user_password) ok
          (Later-refl s.client valid))
        (λ _ s1 l1.
          Stays-and_then s.client (queue_exist sys queue_name s1) _
            (query-Stays posix s.client s1 (queue_exist_asks queue_name) exist_call-IsSendable l1)
            (λ there s2 l2. delete_sized-Stays s.client there s2 l2))
