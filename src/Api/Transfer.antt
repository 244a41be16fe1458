-- ===== src/Api/Transfer.antt =====
-- src/emq.c: the functions that send a message with a request, and those that fetch one.
use libemq.Base.{ℕ, none, some, [], if◌then◌else◌, Option, List, ltb, length, ◌+◌, not, take, ◌++◌}
use libemq.System.{System}
use libemq.Message.{Message, read_message_tag}
use libemq.Client.{
  Prog, Status, jump, done, ◌>>◌, returning, require, fault, clear_error, Error, ◌>>=◌, is_ok, pure,
}
use libemq.Wire.{Text, encode}
use libemq.Packet.Queue.{queue_pop_request, queue_get_request, queue_push_request}
use libemq.Packet.Channel.{channel_publish_request}
use libemq.Packet.Route.{route_push_request}
use libemq.Protocol.{Command, ResponseHeader}
use libemq.Api.{acknowledge, request_block, require_some, ask}
use libemq.Packet.{check_response_header, check_response_header_mini}
use libemq.Network.{client_writev}

module _ {World : Type 0} where
  -- The vector over the message's data: past the block it is a fault.
  unfoldable pub message_block : Message → Prog World (List ℕ)
  message_block msg s =
      if ltb (length msg.payload) msg.size then fault else done (take msg.size msg.payload) s

  -- `if (msg == NULL) goto error;`, where the error has been stored before, or not at all.
  unfoldable pub present : Option Message → Prog World Message
  present none s = jump s
  present (some msg) s = done msg s

module _ {World : Type 0} (sys : System World) where
  -- The steps up to `writev`: the request, `between`, and the message's data.
  unfoldable pub send_message : Prog World Status → List ℕ → Message → Prog World (Unit {0})
  send_message request between msg = do
    require (not (ltb msg.size 1)) Error.bad_data
    require (is_ok (← request)) Error.bad_data
    p ← request_block
    bytes ← message_block msg
    n ← client_writev sys (p ++ (between ++ bytes))
    require_some Error.write n
    pure tt

  -- The body of the three functions that send a message.
  unfoldable pub push : Prog World Status → List ℕ → Command → Message → Prog World Status
  push request between command msg s = returning Status.err (
      (do
        clear_error
        send_message request between msg
        acknowledge sys (λ h. check_response_header h command 0)
        pure Status.ok)
        s)

  -- `sizeof(msg->expire)` is 4.
  unfoldable pub queue_push : Text → Message → Prog World Status
  queue_push name msg =
      push (queue_push_request sys name (4 + msg.size)) (encode 4 msg.expire) Command.queue_push msg

  unfoldable pub route_push : (name key : Text) → Message → Prog World Status
  route_push name key msg =
      push (route_push_request sys name key (4 + msg.size)) (encode 4 msg.expire) Command.route_push
        msg

  unfoldable pub channel_publish : (name topic : Text) → Message → Prog World Status
  channel_publish name topic msg =
      push (channel_publish_request sys name topic msg.size) [] Command.channel_publish msg

  unfoldable pub read_tagged : ResponseHeader → Prog World (Option Message)
  read_tagged h = do m ← read_message_tag sys h.bodylen; msg ← present m; pure (some msg)

  -- The two functions that fetch a message; `none` is `NULL`.
  unfoldable pub fetch : Prog World Status → Command → Prog World (Option Message)
  unfolding read_tagged
  fetch request command =
      ask sys request (λ h. check_response_header_mini h command) none read_tagged

  unfoldable pub queue_get : Text → Prog World (Option Message)
  unfolding fetch
  queue_get name = fetch (queue_get_request sys name) Command.queue_get

  unfoldable pub queue_pop : Text → (timeout : ℕ) → Prog World (Option Message)
  unfolding fetch
  queue_pop name timeout = fetch (queue_pop_request sys name timeout) Command.queue_pop
