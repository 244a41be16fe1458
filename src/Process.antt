-- ===== src/Process.antt =====
-- `emq_process` of src/emq.c: the loop that reads events and calls the callbacks.
pub mod Stream
pub mod Ends
pub mod Rounds
pub mod ChannelRounds
pub mod Events
pub mod Replay
pub mod Unclaimed
pub mod Refinement
pub mod Departure
use libemq.Base.{
  zero, ℕ, suc, true, false, none, some, [], ◌∷◌, if◌then◌else◌, ◌+◌, List, ◌^◌, Option, Bool, ◌&&◌,
  ◌==◌, ◌-◌, not, ◌%◌, ◌||◌,
}
use libemq.Client.{
  State, Prog, ◌>>◌, ChannelSubscription, Status, ◌>>=◌, done, QueueSubscription, stuck, and_then,
  jump, returning, require, fault, client_set_error, is_ok, clear_error, Error, pure,
}
use libemq.System.{System}
use libemq.Protocol.{
  EventHeader, event_message, code, Command, header_size, event_notify, event_header,
}
use libemq.Message.{Message, read_message}
use libemq.Subscription.{find_named}
use libemq.Network.{client_read}
use libemq.Api.{require_some}
use libemq.Packet.{check_event_header}

-- The arguments of a callback, less the client: `EMQ_CALLBACK_QUEUE` or `EMQ_CALLBACK_CHANNEL`, and
-- what the event carries. A `NULL` is `none`.
pub data EventKind : Type 0 where
  queue_event channel_event : EventKind

pub record Delivery : Type 0 where
  pub kind : EventKind
  pub name : List ℕ
  pub topic : Option (List ℕ)
  pub glob : Option (List ℕ)
  pub msg : Option Message

-- The code at a callback's address: it may use the client, and returns an `int`.
abbrev pub Callbacks : Type 0 → Type 0
Callbacks World = ℕ → Delivery → State World → ℕ × State World

-- What `emq_queue_process` and `emq_channel_process` return: 0, 1 and -1.
pub data Step : Type 0 where
  go_on stop give_up : Step

-- `uint32_t` less the lengths of the names
abbrev less_names : ℕ → ℕ → ℕ
less_names bodylen k = (bodylen + 2 ^ 32 - k) % 2 ^ 32

abbrev pub is_nil : {A : Type 0} → List A → Bool
is_nil [] = true
is_nil (x ∷ xs) = false

module _ {World : Type 0} (sys : System World) (callbacks : Callbacks World) where
  -- A read into a local array: without the bytes, the error and -1.
  read_array : ℕ → (List ℕ → Prog World Step) → Prog World Step
  read_array n k = do
    bytes ← client_read sys n
    elim bytes [ none ↦ client_set_error Error.read >> pure give_up | some buf ↦ k buf ]

  -- The callback, and the test behind it. Both functions test the queue subscriptions.
  call_back : ℕ → Delivery → Prog World Step
  call_back callback d s =
      let (r, s') = callbacks callback d s in
      done (if not (r == 0) && is_nil s'.client.queue_subscriptions then stop else go_on) s'

  -- The message of a queue event: only `EMQ_PROTOCOL_EVENT_MESSAGE` has one.
  queue_message : EventHeader → (Option Message → Prog World Step) → Prog World Step
  queue_message h k =
      if h.type == event_message
      then (do
        msg ← read_message sys (less_names h.bodylen 64)
        elim msg [ none ↦ pure give_up | some m ↦ k (some m) ])
      else k none

  found_queue : EventHeader → Option (Option QueueSubscription) → Prog World Step
  unfolding queue_message call_back
  found_queue h none s = fault
  found_queue h (some none) s = done give_up s
  found_queue h (some (some x)) s =
      queue_message h
        (λ msg.
          call_back x.callback
            (record { kind = queue_event; name = x.name; topic = none; glob = none; msg = msg }))
        s

  unfoldable pub queue_process : EventHeader → Prog World Step
  unfolding read_array found_queue
  queue_process h = read_array 64 λ name s.
      found_queue h
        (find_named (λ (x : QueueSubscription). x.name) name s.client.queue_subscriptions) s

  found_channel :
      EventHeader
      → (topic : List ℕ) → (glob : Option (List ℕ)) → ℕ
      → Option (Option ChannelSubscription)
      → Prog World Step
  unfolding call_back
  found_channel h topic glob names none s = fault
  found_channel h topic glob names (some none) s = done give_up s
  found_channel h topic glob names (some (some x)) s =
      (do
        msg ← read_message sys (less_names h.bodylen names)
        elim msg [
          | none ↦ pure give_up
          | some m ↦ call_back x.callback (record {
            kind = channel_event;
            name = x.name;
            topic = some topic;
            glob = glob;
            msg = some m;
          })
        ])
        s

  search_channel :
      EventHeader → (name topic : List ℕ) → (glob : Option (List ℕ)) → ℕ → Prog World Step
  unfolding found_channel
  search_channel h name topic glob names s =
      found_channel h topic glob names
        (find_named (λ (x : ChannelSubscription). x.name) name s.client.channel_subscriptions) s

  -- `extended` events carry the pattern too.
  unfoldable pub channel_process : EventHeader → Bool → Prog World Step
  unfolding read_array search_channel
  channel_process h extended = read_array 64 λ name. read_array 32 λ topic.
      if extended
      then (read_array 32 λ glob. search_channel h name topic (some glob) 128)
      else search_channel h name topic none 96

  unfoldable pub dispatch : EventHeader → Prog World Step
  unfolding queue_process channel_process
  dispatch h =
      if h.cmd == code Command.queue_subscribe
      then queue_process h
      else if h.cmd == code Command.channel_subscribe
      then channel_process h false
      else channel_process h true

  -- The tests of an event's header, and its event.
  unfoldable pub handle_event : EventHeader → Prog World Step
  unfolding dispatch
  handle_event h = do
    require (is_ok (check_event_header h event_notify event_message)) Error.read
    require
        (h.cmd == code Command.queue_subscribe
          || h.cmd == code Command.channel_subscribe
          || h.cmd == code Command.channel_psubscribe)
        Error.read
    dispatch h

  -- One round of `for (;;)`.
  unfoldable pub process_round : Prog World Step
  unfolding handle_event
  process_round s =
      if is_nil s.client.queue_subscriptions && is_nil s.client.channel_subscriptions
      then done stop s
      else ((do
        bytes ← client_read sys header_size
        bs ← require_some Error.read bytes
        handle_event (event_header bs))
          s)

  next_round : Prog World (Unit {0}) → Step → Prog World (Unit {0})
  next_round again go_on s = again s
  next_round again stop s = done tt s
  next_round again give_up s = jump s

  -- The loop waits for the peer, so its fuel is a number of rounds; `stuck` if they are used up.
  unfoldable pub process_loop : ℕ → Prog World (Unit {0})
  unfolding process_round next_round
  process_loop zero s = stuck
  process_loop (suc k) s = and_then (process_round s) (next_round (process_loop k))

  -- `emq_process`
  unfoldable pub process : ℕ → Prog World Status
  unfolding process_loop
  process rounds s = returning Status.err ((do clear_error; process_loop rounds; pure Status.ok) s)
