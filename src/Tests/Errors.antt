-- ===== src/Tests/Errors.antt =====
-- A connection that the server has closed.
use libemq.Base.{[], ◌≡◌, arith}
use libemq.Api.Errors.{Ends, command-Ends, query-Ends}
use libemq.Api.Queue.{queue_declare, queue_size}
use libemq.Api.Commands.{queue_declare_sends}
use libemq.Api.Queries.{queue_size_asks}
use libemq.Api.{minus_one}
use libemq.Packet.Calls.{Call, body, message_size}
use libemq.Packet.RoundTrip.{request_of}
use libemq.Client.{Status}
use libemq.System.Pipe.{pipe, pipe_posix}
use libemq.Tests.{fresh, fresh-IsValid, at_pipe, jobs, declare_jobs, declare_jobs-IsSendable}

command-Ends_example :
    Ends pipe_posix
      (request_of declare_jobs 0)
      (λ v. v ≡ Status.ok)
      Status.err
      (at_pipe fresh [])
      (queue_declare pipe jobs (at_pipe fresh []))
command-Ends_example =
    command-Ends pipe_posix (at_pipe fresh []) (queue_declare_sends jobs) fresh-IsValid
      declare_jobs-IsSendable

query-Ends_example :
    Ends pipe_posix
      (request_of (Call.queue_size jobs) 0)
      (λ n. Unit {0})
      minus_one
      (at_pipe fresh [])
      (queue_size pipe jobs (at_pipe fresh []))
unfolding body message_size
query-Ends_example =
    query-Ends pipe_posix (at_pipe fresh []) (queue_size_asks jobs) fresh-IsValid (omega arith)
