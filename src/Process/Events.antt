-- ===== src/Process/Events.antt =====
-- The events that `emq_process` of src/emq.c reads, as values: how the server writes them, which
-- callback each is for, and the round that reads one.
use mathlib.Core.Option
use mathlib.Core.Option.{map-eq-some_iff}
use libemq.Base.{
  Bool, ◌&&◌, ℕ, none, some, [], ◌∷◌, Option, length, List, All, ◌≡◌, ◌++◌, ap, arith, ◌≤◌, sym,
  ◌<◌, ◌^◌, ◌+◌, append-nil, subst, ◌∙◌,
}
use libemq.Process.{Callbacks, Delivery, queue_event, channel_event, process_round, is_nil}
use libemq.Client.{Client, State, QueueSubscription, ChannelSubscription}
use libemq.Protocol.{
  code, event_header, EventHeader, magic_event, event_header_bytes, Command, event_message,
}
use libemq.System.{System, Posix, Reliable, Ample}
use libemq.Api.Unsubscribe.{queue_name, channel_name}
use libemq.Protocol.Headers.{
  IsEventHeader, event_header-event_header_bytes, length-event_header_bytes,
}
use libemq.Subscription.Names.{first_named, Terminated}
use libemq.Process.Rounds.{carried, payload_bytes, event_type, Delivers, queue_round-Delivers}
use libemq.Api.Fetch.{tagged}
use libemq.Wire.{read_text}
use libemq.Process.ChannelRounds.{pattern_bytes, channel_command, IsPattern, channel_round-Delivers}

-- With the arrays of 64 and 32 bytes that the event holds, whatever comes after a NUL in them.
pub data Event : Type 0 where
  of_queue : (name : List ℕ) → (payload : Option (List ℕ)) → Event
  of_channel : (name topic : List ℕ) → (glob : Option (List ℕ)) → (payload : List ℕ) → Event

abbrev pub header : Event → EventHeader
header (of_queue name payload) = record {
  magic = magic_event;
  cmd = code Command.queue_subscribe;
  type = event_type payload;
  bodylen = 64 + length (payload_bytes payload);
}
header (of_channel name topic glob payload) = record {
  magic = magic_event;
  cmd = code (channel_command glob);
  type = event_message;
  bodylen = 96 + length (pattern_bytes glob) + length payload;
}

-- The body, in front of what follows the event.
abbrev body : Event → List ℕ → List ℕ
body (of_queue name payload) rest = name ++ (payload_bytes payload ++ rest)
body (of_channel name topic glob payload) rest =
    name ++ (topic ++ (pattern_bytes glob ++ (payload ++ rest)))

abbrev pub written : Event → List ℕ → List ℕ
written e rest = event_header_bytes (header e) ++ body e rest

abbrev pub stream : List Event → List ℕ → List ℕ
stream [] rest = rest
stream (e ∷ es) rest = written e (stream es rest)

-- The arrays have their sizes, and the message is one that the client can read.
abbrev pub IsEvent : Event → Type 0
IsEvent (of_queue name payload) = (length name ≡ 64) × (length (payload_bytes payload) < 2 ^ 31)
IsEvent (of_channel name topic glob payload) =
    (length name ≡ 64) × (length topic ≡ 32) × IsPattern glob × (length payload < 2 ^ 31)

-- Every subscription has a NUL in the array of its name.
abbrev Held : {A : Type 0} → (A → List ℕ) → List A → Type 0
Held name_of xs = All (λ x. Terminated (name_of x) × (length (name_of x) ≤ 64)) xs

abbrev pub Listens : Client → Type 0
Listens c = Held queue_name c.queue_subscriptions × Held channel_name c.channel_subscriptions

abbrev pub queue_call : Option (List ℕ) → QueueSubscription → ℕ × Delivery
queue_call payload x = (
  x.callback,
  record { kind = queue_event; name = x.name; topic = none; glob = none; msg = carried payload },
)

abbrev pub channel_call :
    (topic : List ℕ)
    → (glob : Option (List ℕ)) → (payload : List ℕ) → ChannelSubscription
    → ℕ × Delivery
channel_call topic glob payload x = (
  x.callback,
  record {
    kind = channel_event;
    name = x.name;
    topic = some topic;
    glob = glob;
    msg = some (tagged 0 payload);
  },
)

-- Without subscriptions there is nothing to wait for.
abbrev pub idle : Client → Bool
idle c = is_nil c.queue_subscriptions && is_nil c.channel_subscriptions

-- The callback of the first subscription with the event's name, and its arguments.
abbrev pub target : Event → Client → Option (ℕ × Delivery)
target (of_queue name payload) c =
    Option.map (queue_call payload) (first_named queue_name (read_text name) c.queue_subscriptions)
target (of_channel name topic glob payload) c =
    Option.map (channel_call topic glob payload)
      (first_named channel_name (read_text name) c.channel_subscriptions)

pub header-IsEventHeader : (e : Event) → IsEvent e → IsEventHeader (header e)
unfolding code
header-IsEventHeader (of_queue name none) h = record {
  magic_fits = omega arith;
  cmd_fits = omega arith;
  type_fits = omega arith;
  bodylen_fits = omega arith;
}
header-IsEventHeader (of_queue name (some bs)) h = record {
  magic_fits = omega arith;
  cmd_fits = omega arith;
  type_fits = omega arith;
  bodylen_fits = omega arith;
}
header-IsEventHeader (of_channel name topic none payload) h = record {
  magic_fits = omega arith;
  cmd_fits = omega arith;
  type_fits = omega arith;
  bodylen_fits = omega arith;
}
header-IsEventHeader (of_channel name topic (some glob) payload) h = record {
  magic_fits = omega arith;
  cmd_fits = omega arith;
  type_fits = omega arith;
  bodylen_fits = omega arith;
}

pub event_header-header :
    (e : Event) → IsEvent e → event_header (event_header_bytes (header e)) ≡ header e
event_header-header e fits =
    ap event_header (sym (append-nil (event_header_bytes (header e))))
    ∙ event_header-event_header_bytes (header e) [] (header-IsEventHeader e fits)

module _ {World : Type 0} {sys : System World} {posix : Posix sys} (works : Reliable posix)
    (ample : Ample sys) (callbacks : Callbacks World) where
  -- A round on an event that has a subscription reads it and calls the callback.
  pub event_round-Delivers :
      (e : Event) (rest : List ℕ) (k : ℕ) (d : Delivery) (s : State World)
      → posix.incoming s.client.fd s.world ≡ written e rest
      → IsEvent e
      → Listens s.client
      → target e s.client ≡ some (k, d)
      → Delivers posix callbacks k d rest s (process_round sys callbacks s)
  event_round-Delivers (of_queue name payload) rest k d s left fits (queues, channels) there =
      let e = of_queue name payload in
      let (x, found, call) =
        (map-eq-some_iff (queue_call payload)
            (first_named queue_name (read_text name) s.client.queue_subscriptions)).0
          there in
      let read = event_header-header e fits in
      subst
        (λ (p : ℕ × Delivery).
          Delivers posix callbacks p.0 p.1 rest s (process_round sys callbacks s))
        call
        (queue_round-Delivers works ample callbacks (event_header_bytes (header e)) name payload
          rest x s left (length-event_header_bytes (header e) (header-IsEventHeader e fits)) fits.0
          fits.1 (ap (λ (h : EventHeader). h.magic) read) (ap (λ (h : EventHeader). h.type) read)
          (ap (λ (h : EventHeader). h.cmd) read) (ap (λ (h : EventHeader). h.bodylen) read)
          (rw fits.0 queues) found)
  event_round-Delivers (of_channel name topic glob payload) rest k d s left fits (queues, channels)
        there =
      let (len_n, len_t, pattern, small) = fits in
      let e = of_channel name topic glob payload in
      let (x, found, call) =
        (map-eq-some_iff (channel_call topic glob payload)
            (first_named channel_name (read_text name) s.client.channel_subscriptions)).0
          there in
      let read = event_header-header e fits in
      subst
        (λ (p : ℕ × Delivery).
          Delivers posix callbacks p.0 p.1 rest s (process_round sys callbacks s))
        call
        (channel_round-Delivers works ample callbacks (event_header_bytes (header e)) name topic
          glob payload rest x s left
          (length-event_header_bytes (header e) (header-IsEventHeader e fits)) len_n len_t pattern
          small (ap (λ (h : EventHeader). h.magic) read) (ap (λ (h : EventHeader). h.type) read)
          (ap (λ (h : EventHeader). h.cmd) read) (ap (λ (h : EventHeader). h.bodylen) read)
          (rw len_n channels) found)
