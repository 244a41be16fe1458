-- ===== src/Api/Push.antt =====
-- The runs of the functions of src/emq.c that send a message, on a connection that works.
use libemq.Api.Verdicts.{accepted, refused, Verdict}
use libemq.Api.Replies.{outcome, settled, cleared-IsValid}
use libemq.Base.{refl, ℕ, [], List, ◌≡◌, ◌+◌, ◌<◌, ◌≤◌, length, ◌++◌, take, le→ltb_false, ◌∙◌}
use libemq.System.{System, Posix, Reliable, Gathers}
use libemq.Api.Transfer.{queue_push, route_push, channel_publish, push, send_message, message_block}
use libemq.Message.{Message}
use libemq.Packet.Calls.{Call, build, command}
use libemq.Client.{Prog, Client, Status, State, returning, Run, and_then, done, pure, Error}
use libemq.Wire.{Text, encode}
use libemq.Packet.Buffer.{IsValid, with_request}
use libemq.Api.Exchange.{exchanged, Answered, acknowledge-exchanged}
use libemq.Packet.RoundTrip.{IsSendable, request_of, build-fits}
use libemq.Network.Gather.{client_writev-Gathered}
use libemq.Api.Stages.{request_block-with_request}

-- The functions, with their request and what goes between the request and the message's data.
pub data Pushing {World : Type 0} (sys : System World) (msg : Message)
    : Call → List ℕ → Prog World Status → Type 0 where
  queue_pushes :
      (name : Text)
      → Pushing sys msg
          (Call.queue_push name (4 + msg.size))
          (encode 4 msg.expire)
          (queue_push sys name msg)
  route_pushes :
      (name key : Text)
      → Pushing sys msg
          (Call.route_push name key (4 + msg.size))
          (encode 4 msg.expire)
          (route_push sys name key msg)
  channel_publishes :
      (name topic : Text)
      → Pushing sys msg
          (Call.channel_publish name topic msg.size)
          []
          (channel_publish sys name topic msg)

Pushing-push :
    {World : Type 0} (sys : System World) (msg : Message) {call : Call} {between : List ℕ}
    {run : Prog World Status}
    → Pushing sys msg call between run
    → run ≡ push sys (build sys call) between (command call) msg
unfolding queue_push route_push channel_publish build command
Pushing-push sys msg (queue_pushes name) = refl
Pushing-push sys msg (route_pushes name key) = refl
Pushing-push sys msg (channel_publishes name topic) = refl

module _ {World : Type 0} {sys : System World} {posix : Posix sys} (works : Reliable posix)
    (gathers : Gathers sys) where
  -- A run that has sent `bs`, left `rest` to be read, and returned by the verdict.
  abbrev pub Pushes : (p bs rest : List ℕ) → Verdict → State World → Run World Status → Type 0
  Pushes p bs rest v s r =
      (w : World) × (r ≡ done (outcome v) (record { client = settled s.client p v; world = w }))
      × (posix.sent s.client.fd w ≡ posix.sent s.client.fd s.world ++ (p ++ bs))
      × (posix.incoming s.client.fd w ≡ rest)

  send_message-sent :
      (call : Call) (between : List ℕ) (msg : Message) (s : State World)
      → IsValid s.client
      → IsSendable call
      → 0 < msg.size
      → msg.size ≤ length msg.payload
      → let p = request_of call s.client.noack in
        let bs = between ++ take msg.size msg.payload in
        (w : World) × (send_message sys (build sys call) between msg s
          ≡ done tt (record { client = with_request s.client p; world = w }))
        × (posix.sent s.client.fd w ≡ posix.sent s.client.fd s.world ++ (p ++ bs))
        × (posix.incoming s.client.fd w ≡ posix.incoming s.client.fd s.world)
  unfolding send_message message_block
  send_message-sent call between msg s v ok some_data held =
      let p = request_of call s.client.noack in
      let bs = between ++ take msg.size msg.payload in
      let (w, e, out, kept) =
        client_writev-Gathered posix gathers (p ++ bs)
          (record { client = with_request s.client p; world = s.world }) in
      (
        w,
        rw
            (
              le→ltb_false msg.size 1 some_data,
              build-fits sys call s v ok,
              request_block-with_request s.client p s.world,
              le→ltb_false (length msg.payload) msg.size held,
              e,
            )
            refl,
        out,
        kept,
      )

  push_end :
      (c : Client) (p : List ℕ) (v : Verdict) (w : World)
      → returning Status.err (and_then (exchanged c p v w) (λ _. pure Status.ok))
        ≡ done (outcome v) (record { client = settled c p v; world = w })
  push_end c p accepted w = refl
  push_end c p (refused e) w = refl

  push-Pushes :
      (call : Call) (between : List ℕ) (msg : Message) (s : State World) {rest : List ℕ}
      {v : Verdict}
      → IsValid s.client
      → IsSendable call
      → 0 < msg.size
      → msg.size ≤ length msg.payload
      → Answered posix (command call) s rest v
      → Pushes
          (request_of call s.client.noack)
          (between ++ take msg.size msg.payload)
          rest
          v
          s
          (push sys (build sys call) between (command call) msg s)
  unfolding push
  push-Pushes call between msg s {v = v} valid ok some_data held answer =
      let cleared : Client = record (s.client) { error = Error.no_error } in
      let p = request_of call s.client.noack in
      let (w, sent, out, kept) =
        send_message-sent call between msg (record { client = cleared; world = s.world })
          (cleared-IsValid s.client valid) ok some_data held in
      let (w', e, out', left) = acknowledge-exchanged works (command call) s p w answer kept in
      (w', rw (sent, e) (push_end s.client p v w'), out' ∙ out, left)

  -- The three functions that send a message, on a connection that works and takes its vectors
  -- whole, for a message that is not empty and holds its data, and arguments that can be sent: the
  -- function sends its request, the time of expiry if it is a push, and the data, and nothing else;
  -- it reads exactly the response's header, or nothing with acknowledgements off; and it returns
  -- and stores what the response calls for, or `EMQ_STATUS_OK` with no error if there is none.
  pub message-Pushes :
      (msg : Message) {call : Call} {between : List ℕ} {run : Prog World Status} (s : State World)
      {rest : List ℕ} {v : Verdict}
      → Pushing sys msg call between run
      → IsValid s.client
      → IsSendable call
      → 0 < msg.size
      → msg.size ≤ length msg.payload
      → Answered posix (command call) s rest v
      → Pushes
          (request_of call s.client.noack)
          (between ++ take msg.size msg.payload)
          rest
          v
          s
          (run s)
  message-Pushes msg {call} {between} s pushes valid ok some_data held answer =
      rw (Pushing-push sys msg pushes)
        (push-Pushes call between msg s valid ok some_data held answer)
