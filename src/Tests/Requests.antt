-- ===== src/Tests/Requests.antt =====
-- The request functions at concrete arguments.
use libemq.Base.{refl, replicate, ◌≡◌, ◌∷◌, [], arith}
use libemq.Packet.RoundTrip.{request_of, Sends, build-parse, build_refuses}
use libemq.Packet.Calls.{body, message_size, build, command, Call}
use libemq.Packet.Buffer.{packet}
use libemq.System.Pipe.{pipe, pipe_posix}
use libemq.Packet.{make_request}
use libemq.Packet.Growth.{Placed, make_request-Placed}
use libemq.Wire.{chars}
use libemq.Packet.{set_header_request}
use libemq.Tests.{jobs, x1, at_pipe, fresh, fresh-IsValid}
use libemq.Protocol.{code, Command}
use libemq.Wire.{struct_bytes}
use libemq.Client.{done, Status}

build-parse_example :
    Sends
      (Call.channel_publish jobs x1 40)
      (at_pipe fresh [])
      (build pipe (Call.channel_publish jobs x1 40) (at_pipe fresh []))
unfolding body message_size
build-parse_example =
    build-parse pipe (Call.channel_publish jobs x1 40) (at_pipe fresh []) fresh-IsValid
      (omega arith) (omega arith)

build_refuses_example :
    build pipe (Call.auth (replicate 32 b'a') x1) (at_pipe fresh [])
    ≡ done Status.err (at_pipe fresh [])
unfolding body
build_refuses_example =
    build_refuses pipe (Call.auth (replicate 32 b'a') x1) (at_pipe fresh []) refl

-- The bytes of a request on the wire.
ping_bytes : request_of Call.ping 1 ≡ 0x70 ∷ 0 ∷ 0xb ∷ 1 ∷ 0 ∷ 0 ∷ 0 ∷ 0 ∷ []
unfolding request_of packet command body message_size set_header_request code struct_bytes
ping_bytes = refl

-- A body larger than the buffer.
make_request-Placed_example :
    Placed
      (packet Command.ping (chars 5000 jobs ∷ []) 0 0)
      (at_pipe fresh [])
      (make_request pipe Command.ping (chars 5000 jobs ∷ []) 0 (at_pipe fresh []))
make_request-Placed_example =
    make_request-Placed pipe_posix Command.ping (chars 5000 jobs ∷ []) 0 (at_pipe fresh [])
      fresh-IsValid (omega arith)
