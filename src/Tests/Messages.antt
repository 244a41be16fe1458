-- ===== src/Tests/Messages.antt =====
-- Sending and fetching a message at concrete replies.
use libemq.Api.Fetch.{queue_gets, message_verdict, tagged, message-Answers}
use libemq.Api.Exchange.{by_header}
use libemq.Base.{refl, [], ◌∷◌, ◌++◌, take, ◌≡◌, arith, append-nil, List, ℕ, some, none}
use libemq.Api.Push.{queue_pushes, Pushes, message-Pushes}
use libemq.Message.{Message, new_message, msg_release, data_block, struct_block}
use libemq.Message.Copies.{create_and_copy, create-copy}
use libemq.Message.Blocks.{Allocates}
use libemq.System.Pipe.{pipe_posix}
use libemq.Base.{◌↔◌}
use libemq.Protocol.{ResponseHeader, code, Command, response_header_bytes}
use libemq.Packet.Calls.{body, message_size, Call, command}
use libemq.Api.Transfer.{queue_push, push, send_message, message_block, queue_get}
use libemq.Api.Verdicts.{verdict, accepted}
use libemq.Api.Replies.{settled}
use libemq.System.Pipe.{pipe-Reliable, pipe-Gathers, pipe, pipe-Ample}
use libemq.Packet.Queue.{queue_push_request}
use libemq.Packet.{
  make_request, set_client_request, check_realloc_client_request, set_header_request,
}
use libemq.Packet.RoundTrip.{request_of}
use libemq.Tests.{jobs, at_pipe, fresh, silent, fresh-IsValid}
use libemq.Network.{client_writev}
use libemq.Wire.{encode, struct_bytes, fill_chars}
use libemq.Api.{acknowledge, request_block}
use libemq.Packet.Buffer.{packet}
use libemq.Client.{done, Status}
use libemq.Api.Ask.{Answers, unread, answer}

abbrev letter : Message
letter = record { payload = 7 ∷ 8 ∷ 9 ∷ []; size = 3; tag = 0; expire = 60; zero_copy = 1 }

abbrev pushed : ResponseHeader
pushed = record { magic = 0x80; cmd = code Command.queue_push; status = 1; bodylen = 0 }

message-Pushes_example :
    let v = verdict Command.queue_push pushed in
    Pushes pipe-Reliable pipe-Gathers
      (request_of (Call.queue_push jobs 7) 0)
      (encode 4 60 ++ take 3 letter.payload)
      []
      v
      (at_pipe fresh (response_header_bytes pushed))
      (queue_push pipe jobs letter (at_pipe fresh (response_header_bytes pushed)))
unfolding body message_size code command
message-Pushes_example =
    message-Pushes pipe-Reliable pipe-Gathers letter (at_pipe fresh (response_header_bytes pushed))
      (queue_pushes jobs) fresh-IsValid (omega arith) (omega arith) (omega arith)
      (by_header pushed [] (omega arith) refl (rw append-nil refl))

-- What the server receives.
letter_sent :
    queue_push pipe jobs letter (at_pipe silent [])
    ≡ done Status.ok (record {
      client = settled silent (request_of (Call.queue_push jobs 7) 1) accepted;
      world = record {
        input = [];
        output = request_of (Call.queue_push jobs 7) 1 ++ 60 ∷ 0 ∷ 0 ∷ 0 ∷ 7 ∷ 8 ∷ 9 ∷ [];
      };
    })
unfolding queue_push push send_message message_block queue_push_request make_request
    set_client_request check_realloc_client_request client_writev acknowledge request_block encode
    request_of packet command body message_size set_header_request code struct_bytes fill_chars
letter_sent = refl

-- A message with the tag 5 in the answer of the server.
abbrev found : ResponseHeader
found = record { magic = 0x80; cmd = code Command.queue_get; status = 1; bodylen = 11 }

abbrev found_bytes : List ℕ
found_bytes = response_header_bytes found ++ ((encode 8 5 ++ (7 ∷ 8 ∷ 9 ∷ [])) ++ [])

message-Answers_example :
    let v = message_verdict (command (Call.queue_get jobs)) found in
    Answers pipe-Reliable
      (request_of (Call.queue_get jobs) 0)
      (unread (encode 8 5 ++ 7 ∷ 8 ∷ 9 ∷ []) [] v)
      (answer (some (tagged 5 (7 ∷ 8 ∷ 9 ∷ []))) none v)
      v
      (at_pipe fresh found_bytes)
      (queue_get pipe jobs (at_pipe fresh found_bytes))
unfolding body message_size code command
message-Answers_example =
    message-Answers pipe-Reliable pipe-Ample found 5 (7 ∷ 8 ∷ 9 ∷ []) [] (at_pipe fresh found_bytes)
      (queue_gets jobs) fresh-IsValid (omega arith) (omega arith) (omega arith) (omega arith)
      (omega arith) refl

-- A message over the caller's own data, copied into a struct that happens to hold 1 at `zero_copy`.
create-copy_example :
    let copy = new_message (7 ∷ 8 ∷ []) 2 1 in
    Allocates pipe_posix
      (some copy)
      (create_and_copy pipe (7 ∷ 8 ∷ 9 ∷ []) 2 1 1)
      (at_pipe fresh [])
    × ((msg_release copy ≡ data_block ∷ struct_block ∷ []) ↔ (◌≡◌ {A = ℕ} 1 0))
create-copy_example =
    create-copy pipe_posix pipe-Ample (7 ∷ 8 ∷ 9 ∷ []) 2 1 1 (at_pipe fresh []) (omega arith)
