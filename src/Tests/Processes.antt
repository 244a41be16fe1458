-- ===== src/Tests/Processes.antt =====
-- `emq_process` at streams of events, with callbacks that stop it.
use libemq.Base.{refl, ℕ, [], ◌∷◌, List, arith, ◌++◌, ◌≡◌}
use libemq.Process.Stream.{Quiet, remaining}
use libemq.System.Limit.{limited_pipe, limited_posix, pipe-Limited}
use libemq.Process.Ends.{Ends, process-Ends}
use libemq.Process.{Callbacks, process}
use libemq.Client.{Client, done, fault, Status}
use libemq.Tests.{x1, fresh, at_pipe, jobs, fresh-IsValid}
use libemq.System.Pipe.{Pipe, pipe_posix, pipe}
use libemq.Wire.{struct_bytes, fill_chars, word, chars, decode}
use libemq.Network.{client_read}
use libemq.Protocol.{event_header, code}
use libemq.Subscription.{find_named, strcmp_eq}
use libemq.Message.{read_message, allocate, read_bytes}
use libemq.Packet.{check_event_header}
use libemq.Client.{QueueSubscription}
use libemq.System.Pipe.{pipe-Reliable, pipe-Ample}
use libemq.Process.{queue_event, channel_event, process_round}
use libemq.Process.Rounds.{Delivers, queue_round-Delivers}
use libemq.Process.ChannelRounds.{channel_round-Delivers}
use libemq.Api.Fetch.{tagged}
use libemq.Base.{none, some}
use libemq.Wire.{read_text}
use libemq.Process.Events.{Event, stream, of_queue}
use libemq.Process.Replay.{replay, ended}
use libemq.Process.Refinement.{process-replay, Finishes}
use libemq.Packet.Calls.{body, message_size, Call}
use libemq.Process.Departure.{Ready, departed, depart, departure, depart-Local}
use libemq.Api.{noack_enable, noack_disable}
use libemq.Packet.RoundTrip.{IsSendable, request_of}

-- A client with one subscription to "jobs".
abbrev listening : Client
listening = record fresh {
  queue_subscriptions = record { name = fill_chars 64 jobs; callback = 7 } ∷ [];
}

-- Header, name and a message of three bytes.
abbrev event_bytes : List ℕ
event_bytes =
    struct_bytes (word 2 0x90 ∷ word 1 0x2d ∷ word 1 2 ∷ word 4 67 ∷ chars 64 jobs ∷ [])
    ++ 1 ∷ 2 ∷ 3 ∷ []

-- A callback that ends the subscription.
abbrev once : Callbacks Pipe
once k d s = (1, record s { client = record (s.client) { queue_subscriptions = [] } })

once-Quiet : Quiet limited_posix once
once-Quiet k d s = (omega arith, λ named. (tt, named.1))

-- An event whose body is shorter than a name, and then bytes of no event.
abbrev short_event : List ℕ
short_event =
    struct_bytes (word 2 0x90 ∷ word 1 0x2d ∷ word 1 2 ∷ word 4 10 ∷ chars 64 jobs ∷ [])
    ++ 1 ∷ 2 ∷ 3 ∷ []

process-Ends_example :
    Ends limited_posix
      (remaining limited_posix (at_pipe listening short_event))
      (process limited_pipe once 100 (at_pipe listening short_event))
unfolding struct_bytes fill_chars read_text
process-Ends_example =
    process-Ends limited_posix pipe-Limited once once-Quiet 100 (at_pipe listening short_event)
      (omega arith) (omega arith)

-- Where the allocator gives the block, the size that has wrapped becomes a negative count.
short_event_faults : process pipe once 100 (at_pipe listening short_event) ≡ fault
unfolding process client_read event_header find_named strcmp_eq read_message allocate read_bytes
    check_event_header code struct_bytes fill_chars decode
short_event_faults = refl

-- The callback has run, and the whole event has been read.
stopped :
    process pipe once 100 (at_pipe listening event_bytes)
    ≡ done Status.ok (at_pipe (record listening { queue_subscriptions = [] }) [])
unfolding process client_read event_header find_named strcmp_eq read_message allocate read_bytes
    check_event_header code struct_bytes fill_chars decode
stopped = refl

-- The parts of that event.
abbrev header_bytes : List ℕ
header_bytes = struct_bytes (word 2 0x90 ∷ word 1 0x2d ∷ word 1 2 ∷ word 4 67 ∷ [])

abbrev to_jobs : QueueSubscription
to_jobs = record { name = fill_chars 64 jobs; callback = 7 }

queue_round-Delivers_example :
    Delivers pipe_posix once 7
      (record {
        kind = queue_event;
        name = fill_chars 64 jobs;
        topic = none;
        glob = none;
        msg = some (tagged 0 (1 ∷ 2 ∷ 3 ∷ []));
      })
      (9 ∷ [])
      (at_pipe listening (header_bytes ++ (fill_chars 64 jobs ++ (1 ∷ 2 ∷ 3 ∷ 9 ∷ []))))
      (process_round pipe once
        (at_pipe listening (header_bytes ++ (fill_chars 64 jobs ++ (1 ∷ 2 ∷ 3 ∷ 9 ∷ [])))))
unfolding event_header code struct_bytes fill_chars decode read_text
queue_round-Delivers_example =
    queue_round-Delivers pipe-Reliable pipe-Ample once header_bytes (fill_chars 64 jobs)
      (some (1 ∷ 2 ∷ 3 ∷ [])) (9 ∷ []) to_jobs
      (at_pipe listening (header_bytes ++ (fill_chars 64 jobs ++ (1 ∷ 2 ∷ 3 ∷ 9 ∷ [])))) refl refl
      refl (omega arith) refl refl refl refl (omega arith) refl

-- An event with a pattern, for a client with one subscription to the channel "jobs".
abbrev tuned : Client
tuned = record fresh {
  channel_subscriptions =
      record { name = fill_chars 64 jobs; channel = fill_chars 32 jobs; callback = 8 } ∷ [];
}

abbrev channel_header : List ℕ
channel_header = struct_bytes (word 2 0x90 ∷ word 1 0x40 ∷ word 1 2 ∷ word 4 130 ∷ [])

abbrev channel_bytes : List ℕ
channel_bytes =
    channel_header
    ++ (fill_chars 64 jobs ++ (fill_chars 32 x1 ++ (fill_chars 32 jobs ++ (1 ∷ 2 ∷ 9 ∷ []))))

channel_round-Delivers_example :
    Delivers pipe_posix once 8
      (record {
        kind = channel_event;
        name = fill_chars 64 jobs;
        topic = some (fill_chars 32 x1);
        glob = some (fill_chars 32 jobs);
        msg = some (tagged 0 (1 ∷ 2 ∷ []));
      })
      (9 ∷ [])
      (at_pipe tuned channel_bytes)
      (process_round pipe once (at_pipe tuned channel_bytes))
unfolding event_header code struct_bytes fill_chars decode read_text
channel_round-Delivers_example =
    channel_round-Delivers pipe-Reliable pipe-Ample once channel_header (fill_chars 64 jobs)
      (fill_chars 32 x1) (some (fill_chars 32 jobs)) (1 ∷ 2 ∷ []) (9 ∷ [])
      (record { name = fill_chars 64 jobs; channel = fill_chars 32 jobs; callback = 8 })
      (at_pipe tuned channel_bytes) refl refl refl refl refl (omega arith) refl refl refl refl
      (omega arith) refl

-- Two messages, of which the first makes the callback unsubscribe.
abbrev two_messages : List Event
two_messages =
    of_queue (fill_chars 64 jobs) (some (1 ∷ 2 ∷ []))
    ∷ of_queue (fill_chars 64 jobs) (some (3 ∷ []))
    ∷ []

unsubscribe_jobs-IsSendable : IsSendable (Call.queue_unsubscribe jobs)
unfolding body message_size
unsubscribe_jobs-IsSendable = omega arith

listening-Ready : Ready listening
unfolding fill_chars read_text
listening-Ready = (
  record { allocated = fresh-IsValid.allocated; large = omega arith; filled = omega arith },
  omega arith,
  omega arith,
)

-- The second message is left, and what has been sent is the request to unsubscribe.
process-replay_example :
    Finishes pipe_posix
      (9 ∷ [])
      (ended
        (of_queue (fill_chars 64 jobs) (some (3 ∷ [])) ∷ [])
        (departed jobs listening)
        (request_of (Call.queue_unsubscribe jobs) 1))
      (at_pipe listening (stream two_messages (9 ∷ [])))
      (process pipe (depart pipe jobs) 4 (at_pipe listening (stream two_messages (9 ∷ []))))
unfolding replay fill_chars read_text noack_enable noack_disable
process-replay_example =
    process-replay pipe-Reliable pipe-Ample (depart pipe jobs) (departure jobs)
      (depart-Local pipe-Reliable jobs unsubscribe_jobs-IsSendable) two_messages (9 ∷ []) 4
      (at_pipe listening (stream two_messages (9 ∷ [])))
      (ended (of_queue (fill_chars 64 jobs) (some (3 ∷ [])) ∷ []) (departed jobs listening)
        (request_of (Call.queue_unsubscribe jobs) 1))
      refl (omega arith) listening-Ready refl (omega arith)
