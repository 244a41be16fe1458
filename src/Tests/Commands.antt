-- ===== src/Tests/Commands.antt =====
-- The commands at concrete replies.
use libemq.Api.Queries.{queue_size_asks, number_verdict, query-Answers}
use libemq.Api.Confirm.{confirmation, queue_confirm-Concludes}
use libemq.Api.Ask.{Answers, unread, answer}
use libemq.Base.{refl, ◌≡◌, [], ◌∷◌, ◌++◌, arith, List, ℕ}
use libemq.Packet.Calls.{command, body, message_size, Call}
use libemq.Api.Verdicts.{verdict, accepted, refused}
use libemq.Api.Replies.{Concludes, command_noack, command-Concludes}
use libemq.System.Pipe.{pipe-Reliable, pipe}
use libemq.Tests.{
  declare_jobs, denied, at_pipe, fresh, silent, jobs, fresh-IsValid, silent-IsValid,
  declare_jobs-IsSendable,
}
use libemq.Packet.{check_response_header, check_status, get_error}
use libemq.Packet.RoundTrip.{request_of}
use libemq.Protocol.{code, response_header_bytes, ResponseHeader, Command}
use libemq.Api.Queue.{queue_confirm, queue_declare, queue_size}
use libemq.Client.{Error}
use libemq.Api.Commands.{queue_declare_sends}
use libemq.Wire.{encode}
use libemq.Api.{minus_one}

command-Concludes_example :
    Concludes pipe-Reliable
      (request_of declare_jobs 0)
      (9 ∷ [])
      (verdict (command declare_jobs) denied)
      (at_pipe fresh (response_header_bytes denied ++ 9 ∷ []))
      (queue_declare pipe jobs (at_pipe fresh (response_header_bytes denied ++ 9 ∷ [])))
command-Concludes_example =
    command-Concludes pipe-Reliable denied (9 ∷ [])
      (at_pipe fresh (response_header_bytes denied ++ 9 ∷ [])) (queue_declare_sends jobs)
      fresh-IsValid declare_jobs-IsSendable (omega arith) refl refl

command_noack_example :
    Concludes pipe-Reliable
      (request_of declare_jobs 1)
      []
      accepted
      (at_pipe silent [])
      (queue_declare pipe jobs (at_pipe silent []))
command_noack_example =
    command_noack pipe-Reliable (at_pipe silent []) (queue_declare_sends jobs) silent-IsValid
      declare_jobs-IsSendable refl

-- Denied access, as the caller sees it.
declare_denied : verdict (command declare_jobs) denied ≡ refused Error.access
unfolding command check_response_header check_status get_error code
declare_denied = refl

-- The size of a queue, 300.
abbrev sized : ResponseHeader
sized = record { magic = 0x80; cmd = code Command.queue_size; status = 1; bodylen = 4 }

abbrev sized_bytes : List ℕ
sized_bytes = response_header_bytes sized ++ (encode 4 300 ++ 9 ∷ [])

query-Answers_example :
    let v = number_verdict (command (Call.queue_size jobs)) sized in
    Answers pipe-Reliable
      (request_of (Call.queue_size jobs) 0)
      (unread (encode 4 300) (9 ∷ []) v)
      (answer 300 minus_one v)
      v
      (at_pipe fresh sized_bytes)
      (queue_size pipe jobs (at_pipe fresh sized_bytes))
unfolding body message_size code
query-Answers_example =
    query-Answers pipe-Reliable sized 300 (9 ∷ []) (at_pipe fresh sized_bytes)
      (queue_size_asks jobs) fresh-IsValid (omega arith) (omega arith) (omega arith) refl

-- A confirmation whose response counts a body of three bytes.
abbrev confirmed : ResponseHeader
confirmed = record { magic = 0x80; cmd = code Command.queue_confirm; status = 1; bodylen = 3 }

abbrev confirmed_bytes : List ℕ
confirmed_bytes = response_header_bytes confirmed ++ (1 ∷ 2 ∷ 3 ∷ [])

queue_confirm-Concludes_example :
    Concludes pipe-Reliable
      (request_of (Call.queue_confirm jobs 9) 0)
      (1 ∷ 2 ∷ 3 ∷ [])
      (confirmation confirmed)
      (at_pipe fresh confirmed_bytes)
      (queue_confirm pipe jobs 9 (at_pipe fresh confirmed_bytes))
unfolding body message_size code
queue_confirm-Concludes_example =
    queue_confirm-Concludes pipe-Reliable jobs 9 confirmed (1 ∷ 2 ∷ 3 ∷ [])
      (at_pipe fresh confirmed_bytes) fresh-IsValid (omega arith) (omega arith) refl refl

confirmed_accepted : confirmation confirmed ≡ accepted
unfolding code
confirmed_accepted = refl
