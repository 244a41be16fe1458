-- ===== src/Tests/Benchmarks.antt =====
-- src/benchmark.c at concrete arguments, and its worker at concrete answers.
use libemq.Client.{done, jump, fault, stuck, State, Run}
use libemq.Protocol.{response_header_bytes}
use libemq.Wire.{struct_bytes, decode, encode}
use libemq.Base.{
  ap, ℕ, [], ◌∷◌, List, ◌≡◌, refl, arith, some, none, true, ◌+◌, ◌-◌, ◌*◌, ◌++◌, if◌then◌else◌,
  Bool, sym, ap,
}
use libemq.Wire.{Text}
use libemq.Benchmark.{Config, init_config, parse_args, work, share, queue_name, init_message}
use libemq.Benchmark.Arguments.{Key, Setting, valued, noack, render, configure, parse_args-render}
use libemq.Benchmark.Answers.{Goes, awaited}
use libemq.Benchmark.Work.{work-Goes, noacked, benchmark_message}
use libemq.Tests.{fresh, fresh-IsValid, at_pipe}
use libemq.Packet.{check_response_header, check_status}
use libemq.Protocol.{Command, ResponseHeader, code}
use libemq.Packet.Calls.{body, message_size, Call}
use libemq.System.Pipe.{pipe_posix, pipe, pipe-Reliable, pipe-Gathers, pipe-Ample, Pipe}
use libemq.Benchmark.Pushing.{all_taken, tried, unanswered, copies, pushed_bytes}
use libemq.Packet.RoundTrip.{IsSendable, request_of}
use libemq.Message.{struct_block}
use libemq.Benchmark.Server.{connect_server, connect_by, worker, setup_server}
use libemq.Connection.Runs.{Returns}
use libemq.Benchmark.Leaving.{Leaves, server-Leaves, sets_up}
use libemq.Connection.{Host, client_init, new_block, count_block, system_call, check_init}
use libemq.Benchmark.Worker.{Worked, worker-Worked}
use libemq.Connection.Connect.{
  tcp_connect, connect_with, after_connect, client_tcp_connect, net_create_socket, new_socket,
  test_call, fail_with, with_socket, resolve, or_look_up, connect_to, connect_socket, then_nodelay,
  net_tcp_nodelay, or_close,
}
use libemq.Tests.Connections.{sockets, start}
use libemq.Benchmark.Contents.{Fills, init_message-Fills}

-- A reading of decimal digits.
abbrev decimal_from : ℕ → Text → ℕ
decimal_from n [] = n
decimal_from n (c ∷ s) = decimal_from (n * 10 + (c - b'0')) s

abbrev decimal : Text → ℕ
decimal s = decimal_from 0 s

-- "-c 5 --noack"
abbrev settings : List Setting
settings = valued Key.clients (b'5' ∷ []) ∷ noack ∷ []

parse_args-render_example :
    parse_args decimal (render settings) init_config ≡ configure decimal settings init_config
parse_args-render_example = parse_args-render decimal settings init_config (
  (refl, (refl, (refl, (refl, (refl, (refl, (refl, (refl, (refl, (refl, (refl, tt))))))))))),
  (tt, tt),
)

five_clients :
    configure decimal settings init_config ≡ some (record init_config { clients = 5; noack = 1 })
five_clients = refl

-- `-h` without a host, and a host that is read as an option too.
help_alone : parse_args decimal ((b'-' ∷ b'h' ∷ []) ∷ []) init_config ≡ none
unfolding parse_args
help_alone = refl

host_read_twice :
    parse_args decimal
      ((b'-' ∷ b'h' ∷ []) ∷ (b'-' ∷ b'-' ∷ b'n' ∷ b'o' ∷ b'a' ∷ b'c' ∷ b'k' ∷ []) ∷ [])
      init_config
    ≡ some (record init_config {
      host = b'-' ∷ b'-' ∷ b'n' ∷ b'o' ∷ b'a' ∷ b'c' ∷ b'k' ∷ [];
      noack = 1;
    })
unfolding parse_args
host_read_twice = refl

-- One client, two messages of three bytes.
abbrev small_config : Config
small_config = record init_config { clients = 1; messages = 2; msg_size = 3 }

abbrev accepting : Command → ResponseHeader
accepting c = record { magic = 0x80; cmd = code c; status = 1; bodylen = 0 }

abbrev push_answers : List ResponseHeader
push_answers = accepting Command.queue_push ∷ accepting Command.queue_push ∷ []

abbrev answers : List ℕ
answers =
    awaited 0 (accepting Command.auth ∷ accepting Command.queue_declare ∷ push_answers) (9 ∷ [])

auth_call-IsSendable : IsSendable (Call.auth small_config.user_name small_config.user_password)
unfolding body message_size
auth_call-IsSendable = omega arith

work-Goes_example :
    Goes pipe_posix
      (if all_taken 0 push_answers then some (struct_block ∷ []) else none)
      (request_of (Call.auth small_config.user_name small_config.user_password) 0
        ++ (request_of (Call.queue_declare queue_name) 0
            ++ copies
                (tried 0 push_answers)
                (pushed_bytes 0 (benchmark_message small_config (7 ∷ 8 ∷ 9 ∷ 0 ∷ [])))))
      (unanswered 0 push_answers (9 ∷ []))
      (noacked small_config (at_pipe fresh answers))
      (work pipe small_config (7 ∷ 8 ∷ 9 ∷ 0 ∷ []) (at_pipe fresh answers))
unfolding code share
work-Goes_example =
    work-Goes pipe-Reliable pipe-Gathers pipe-Ample small_config (7 ∷ 8 ∷ 9 ∷ 0 ∷ [])
      (accepting Command.auth) (accepting Command.queue_declare) push_answers (9 ∷ [])
      (at_pipe fresh answers) fresh-IsValid auth_call-IsSendable (omega arith) (omega arith)
      (omega arith) (omega arith) (omega arith) (omega arith) refl refl

-- Both pushes are taken, and all answers read.
both_taken :
    (all_taken 0 push_answers ≡ true)
    × (tried 0 push_answers ≡ 2)
    × (unanswered 0 push_answers (9 ∷ []) ≡ 9 ∷ [])
unfolding check_response_header check_status code
both_taken = (refl, refl, refl)

-- A host whose server has sent its answers.
abbrev answering : State (Host Pipe)
answering = record start {
  world = record (start.world) { world = record { input = answers; output = [] } };
}

server-Leaves_example :
    Returns (Leaves sockets answering) (setup_server pipe sockets small_config answering)
server-Leaves_example =
    server-Leaves pipe_posix pipe-Ample sockets small_config answering sets_up auth_call-IsSendable

abbrev input_of : Run (Host Pipe) Bool → List ℕ
input_of (done b s) = s.world.world.input
input_of (jump s) = []
input_of fault = []
input_of stuck = []

-- To connect reads nothing.
answering_served :
    (s' : State (Host Pipe))
    → connect_server pipe sockets small_config answering ≡ done true s'
    → s'.world.world.input ≡ answers
unfolding connect_server connect_by tcp_connect client_init new_block count_block system_call
    check_init connect_with after_connect client_tcp_connect net_create_socket new_socket test_call
    fail_with with_socket resolve or_look_up connect_to connect_socket then_nodelay net_tcp_nodelay
    or_close response_header_bytes struct_bytes decode encode
answering_served s' e = sym (ap input_of e)

worker-Worked_example :
    Returns
      (Worked sockets (all_taken 0 push_answers) answering)
      (worker pipe sockets small_config (7 ∷ 8 ∷ 9 ∷ 0 ∷ []) answering)
unfolding code share
worker-Worked_example =
    worker-Worked pipe-Reliable pipe-Gathers pipe-Ample sockets small_config (7 ∷ 8 ∷ 9 ∷ 0 ∷ [])
      (accepting Command.auth) (accepting Command.queue_declare) push_answers (9 ∷ []) answering
      auth_call-IsSendable (omega arith) (omega arith) (omega arith) (omega arith) (omega arith)
      (omega arith) refl answering_served

init_message-Fills_example :
    Fills pipe 3 (at_pipe fresh []) (init_message pipe (λ i. i * 7) small_config (at_pipe fresh []))
init_message-Fills_example =
    init_message-Fills pipe-Ample (λ i. i * 7) small_config (at_pipe fresh []) (omega arith)
