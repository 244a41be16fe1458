-- ===== src/Api/Subscribe.antt =====
-- src/emq.c: the functions that subscribe and unsubscribe.
use libemq.Base.{ℕ, not, ◌==◌}
use libemq.System.{System}
use libemq.Client.{Prog, Status, returning, ◌>>◌, clear_error, require, Error, pure, ◌>>=◌}
use libemq.Wire.{Text}
use libemq.Protocol.{ResponseHeader, Command}
use libemq.Api.{submit, acknowledge, require_some}
use libemq.Packet.Channel.{
  channel_unsubscribe_request, channel_punsubscribe_request, channel_subscribe_request,
  channel_psubscribe_request,
}
use libemq.Packet.Queue.{queue_unsubscribe_request, queue_subscribe_request}
use libemq.Packet.{check_response_header}
use libemq.Subscription.{
  delete_queue_subscriptions, delete_channel_subscriptions, queue_subscription_create,
  channel_subscription_create, add_channel_subscription, add_queue_subscription,
}

module _ {World : Type 0} (sys : System World) where
  -- The steps up to the end of the acknowledgement, which all of them share.
  unfoldable pub exchange : Prog World Status → (ResponseHeader → Status) → Prog World (Unit {0})
  exchange request check = do submit sys request; acknowledge sys check

  unfoldable pub queue_subscribe : Text → (flags callback : ℕ) → Prog World Status
  queue_subscribe name flags callback s = returning Status.err (
      (do
        clear_error
        require (not (callback == 0)) Error.bad_data
        exchange (queue_subscribe_request sys name flags)
            (λ h. check_response_header h Command.queue_subscribe 0)
        x ← queue_subscription_create sys name callback
        subscription ← require_some Error.alloc x
        add_queue_subscription sys subscription
        pure Status.ok)
        s)

  unfoldable pub queue_unsubscribe : Text → Prog World Status
  queue_unsubscribe name s = returning Status.err (
      (do
        clear_error
        exchange (queue_unsubscribe_request sys name)
            (λ h. check_response_header h Command.queue_unsubscribe 0)
        delete_queue_subscriptions sys name
        pure Status.ok)
        s)

  unfoldable pub channel_subscribe : (name topic : Text) → (callback : ℕ) → Prog World Status
  channel_subscribe name topic callback s = returning Status.err (
      (do
        clear_error
        require (not (callback == 0)) Error.bad_data
        exchange (channel_subscribe_request sys name topic)
            (λ h. check_response_header h Command.channel_subscribe 0)
        x ← channel_subscription_create sys name topic callback
        subscription ← require_some Error.alloc x
        add_channel_subscription sys subscription
        pure Status.ok)
        s)

  unfoldable pub channel_psubscribe : (name glob : Text) → (callback : ℕ) → Prog World Status
  channel_psubscribe name glob callback s = returning Status.err (
      (do
        clear_error
        require (not (callback == 0)) Error.bad_data
        exchange (channel_psubscribe_request sys name glob)
            (λ h. check_response_header h Command.channel_psubscribe 0)
        x ← channel_subscription_create sys name glob callback
        subscription ← require_some Error.alloc x
        add_channel_subscription sys subscription
        pure Status.ok)
        s)

  -- Every subscription to the channel goes, whatever its topic.
  unfoldable pub channel_unsubscribe : (name topic : Text) → Prog World Status
  channel_unsubscribe name topic s = returning Status.err (
      (do
        clear_error
        exchange (channel_unsubscribe_request sys name topic)
            (λ h. check_response_header h Command.channel_unsubscribe 0)
        delete_channel_subscriptions sys name
        pure Status.ok)
        s)

  -- The response is tested for `EMQ_PROTOCOL_CMD_CHANNEL_UNSUBSCRIBE`, as in the source.
  unfoldable pub channel_punsubscribe : (name glob : Text) → Prog World Status
  channel_punsubscribe name glob s = returning Status.err (
      (do
        clear_error
        exchange (channel_punsubscribe_request sys name glob)
            (λ h. check_response_header h Command.channel_unsubscribe 0)
        delete_channel_subscriptions sys name
        pure Status.ok)
        s)
