-- ===== src/Api/Queries.antt =====
-- The runs of the functions of src/emq.c that ask for one number, on a connection that works.
use libemq.Api.Verdicts.{Verdict, reading, is_response, judge-reading}
use libemq.Base.{◌==◌, ◌&&◌, refl, ℕ, List, ◌++◌, ◌≡◌, ◌<◌, ◌^◌}
use libemq.Api.Queue.{queue_exist, queue_size}
use libemq.Protocol.{Command, ResponseHeader, response_header_bytes}
use libemq.System.{System, Posix, Reliable}
use libemq.Packet.Calls.{Call, build, command}
use libemq.Wire.{encode, Text}
use libemq.Client.{Prog, State}
use libemq.Api.Route.{route_exist}
use libemq.Api.Channel.{channel_exist}
use libemq.Api.{run_query, minus_one, read_number}
use libemq.Packet.{check_response_header}
use libemq.Packet.Buffer.{IsValid}
use libemq.Packet.RoundTrip.{IsSendable, request_of}
use libemq.Wire.Words.{length-encode, decode-encode}
use libemq.Protocol.Headers.{IsHeader}
use libemq.Api.Ask.{Answers, unread, answer, ask-Answers}
use libemq.Network.Takes.{Takes, client_read-Takes}

-- The functions, with their request and what they return at the label `error`: 0, or -1 as the
-- pattern of an `int`.
pub data Asking {World : Type 0} (sys : System World) : Call → ℕ → Prog World ℕ → Type 0 where
  queue_exist_asks : (name : Text) → Asking sys (Call.queue_exist name) 0 (queue_exist sys name)
  queue_size_asks :
      (name : Text) → Asking sys (Call.queue_size name) minus_one (queue_size sys name)
  route_exist_asks : (name : Text) → Asking sys (Call.route_exist name) 0 (route_exist sys name)
  channel_exist_asks :
      (name : Text) → Asking sys (Call.channel_exist name) 0 (channel_exist sys name)

pub Asking-run_query :
    {World : Type 0} (sys : System World) {call : Call} {failed : ℕ} {run : Prog World ℕ}
    → Asking sys call failed run
    → run ≡ run_query sys (build sys call) (command call) failed
unfolding queue_exist queue_size route_exist channel_exist build command
Asking-run_query sys (queue_exist_asks name) = refl
Asking-run_query sys (queue_size_asks name) = refl
Asking-run_query sys (route_exist_asks name) = refl
Asking-run_query sys (channel_exist_asks name) = refl

-- A response to a query has a body of four bytes.
abbrev pub number_verdict : Command → ResponseHeader → Verdict
number_verdict c h = reading (is_response c h && h.bodylen == 4) h

module _ {World : Type 0} {sys : System World} {posix : Posix sys} (works : Reliable posix) where
  read_number-Takes :
      (n : ℕ) (rest : List ℕ) (s : State World)
      → n < 2 ^ 32
      → posix.incoming s.client.fd s.world ≡ encode 4 n ++ rest
      → Takes posix n rest s (read_number sys s)
  unfolding read_number
  read_number-Takes n rest s small e =
      let (w, r, out, left) = client_read-Takes works 4 (encode 4 n) rest s (length-encode 4 n) e in
      (w, rw (r, decode-encode 4 n small) refl, out, left)

  run_query-Answers :
      (call : Call) (failed : ℕ) (h : ResponseHeader) (n : ℕ) (rest : List ℕ) (s : State World)
      → IsValid s.client
      → IsSendable call
      → IsHeader h
      → n < 2 ^ 32
      → posix.incoming s.client.fd s.world ≡ response_header_bytes h ++ (encode 4 n ++ rest)
      → let v = number_verdict (command call) h in
        Answers works
          (request_of call s.client.noack)
          (unread (encode 4 n) rest v)
          (answer n failed v)
          v
          s
          (run_query sys (build sys call) (command call) failed s)
  unfolding run_query
  run_query-Answers call failed h n rest s valid ok fits small e =
      ask-Answers works call (λ h'. check_response_header h' (command call) 4) failed n
        (λ h'. read_number sys) h (encode 4 n) rest s (number_verdict (command call) h)
        (judge-reading (command call) 4 h) valid ok fits e
        (λ c w same left. read_number-Takes n rest (record { client = c; world = w }) small left)

  -- The four functions that ask for a number, on a connection that works on which some header `h`,
  -- four bytes with the number `n` and more come next: the function sends exactly its request,
  -- whatever the acknowledgements. If `h` is the success of the command with a body of four bytes
  -- it reads header and number, and returns `n` with no error; if not, it reads the header alone,
  -- and returns its value for failure with the error that `h` calls for.
  pub query-Answers :
      {call : Call} {failed : ℕ} {run : Prog World ℕ} (h : ResponseHeader) (n : ℕ) (rest : List ℕ)
      (s : State World)
      → Asking sys call failed run
      → IsValid s.client
      → IsSendable call
      → IsHeader h
      → n < 2 ^ 32
      → posix.incoming s.client.fd s.world ≡ response_header_bytes h ++ (encode 4 n ++ rest)
      → let v = number_verdict (command call) h in
        Answers works
          (request_of call s.client.noack)
          (unread (encode 4 n) rest v)
          (answer n failed v)
          v
          s
          (run s)
  query-Answers {call} {failed} h n rest s asks valid ok fits small e =
      rw (Asking-run_query sys asks)
        (run_query-Answers call failed h n rest s valid ok fits small e)
