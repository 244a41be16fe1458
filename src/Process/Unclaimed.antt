-- ===== src/Process/Unclaimed.antt =====
-- The round of `emq_process` of src/emq.c on an event that has no subscription.
use libemq.Network.Takes.{client_read-Takes}
use mathlib.Core.Option.{map-eq-none_iff}
use libemq.Base.{ℕ, none, some, refl, false, List, ◌≡◌, inr, inl, ◌++◌, ◌∙◌, ap, length}
use libemq.Process.{
  Callbacks, process_round, handle_event, dispatch, queue_process, channel_process, read_array,
  found_queue, search_channel, found_channel, give_up,
}
use libemq.Client.{State, Status, done}
use libemq.System.{System, Posix, Reliable}
use libemq.Process.Events.{
  Event, of_queue, header, of_channel, written, IsEvent, Listens, idle, target, event_header-header,
  header-IsEventHeader, queue_call, channel_call,
}
use libemq.Packet.{check_event_header}
use libemq.Protocol.{event_notify, event_message, code, event_header_bytes, header_size}
use libemq.Process.Rounds.{payload_bytes, check_event-ok}
use libemq.Network.Takes.{client_read-Takes}
use libemq.Protocol.Headers.{length-event_header_bytes}
use libemq.Subscription.Names.{find_named-first_named}
use libemq.Api.Unsubscribe.{queue_name, channel_name}
use libemq.Process.ChannelRounds.{pattern_bytes}
use libemq.Network.{client_read}

-- What such a round leaves of the event.
abbrev pub unread_part : Event → List ℕ
unread_part (of_queue name payload) = payload_bytes payload
unread_part (of_channel name topic glob payload) = payload

check_event-header :
    (e : Event) → check_event_header (header e) event_notify event_message ≡ Status.ok
check_event-header (of_queue name none) =
    check_event-ok (header (of_queue name none)) refl (inr refl)
check_event-header (of_queue name (some bs)) =
    check_event-ok (header (of_queue name (some bs))) refl (inl refl)
check_event-header (of_channel name topic glob payload) =
    check_event-ok (header (of_channel name topic glob payload)) refl (inl refl)

-- The first array of the body, and what follows it.
abbrev event_name : Event → List ℕ
event_name (of_queue name payload) = name
event_name (of_channel name topic glob payload) = name

abbrev behind_name : Event → List ℕ → List ℕ
behind_name (of_queue name payload) rest = payload_bytes payload ++ rest
behind_name (of_channel name topic glob payload) rest =
    topic ++ (pattern_bytes glob ++ (payload ++ rest))

length-event_name : (e : Event) → IsEvent e → length (event_name e) ≡ 64
length-event_name (of_queue name payload) fits = fits.0
length-event_name (of_channel name topic glob payload) fits = fits.0

written-parts :
    (e : Event) (rest : List ℕ)
    → written e rest ≡ event_header_bytes (header e) ++ (event_name e ++ behind_name e rest)
written-parts (of_queue name payload) rest = refl
written-parts (of_channel name topic glob payload) rest = refl

module _ {World : Type 0} {sys : System World} {posix : Posix sys} (works : Reliable posix)
    (callbacks : Callbacks World) where
  abbrev at_world : State World → World → State World
  at_world s w = record { client = s.client; world = w }

  -- The reads that all events begin with.
  read_head :
      (e : Event) (rest : List ℕ) (s : State World)
      → posix.incoming s.client.fd s.world ≡ written e rest
      → IsEvent e
      → (w1 : World) × (w2 : World) × (client_read sys header_size s
          ≡ done (some (event_header_bytes (header e))) (at_world s w1))
        × (client_read sys 64 (at_world s w1) ≡ done (some (event_name e)) (at_world s w2))
        × (posix.sent s.client.fd w2 ≡ posix.sent s.client.fd s.world)
        × (posix.incoming s.client.fd w2 ≡ behind_name e rest)
  read_head e rest s left fits =
      let (w1, r1, out1, left1) =
        client_read-Takes works header_size (event_header_bytes (header e))
          (event_name e ++ behind_name e rest) s
          (length-event_header_bytes (header e) (header-IsEventHeader e fits))
          (left ∙ written-parts e rest) in
      let (w2, r2, out2, left2) =
        client_read-Takes works 64 (event_name e) (behind_name e rest) (at_world s w1)
          (length-event_name e fits) left1 in
      (w1, w2, r1, r2, out2 ∙ out1, left2)

  -- The round reads the header and the names, and gives up.
  pub event_round-unread_part :
      (e : Event) (rest : List ℕ) (s : State World)
      → posix.incoming s.client.fd s.world ≡ written e rest
      → IsEvent e
      → Listens s.client
      → idle s.client ≡ false
      → target e s.client ≡ none
      → (w : World) × (posix.incoming s.client.fd w ≡ unread_part e ++ rest)
        × (posix.sent s.client.fd w ≡ posix.sent s.client.fd s.world)
        × (process_round sys callbacks s ≡ done give_up (record { client = s.client; world = w }))
  unfolding process_round handle_event dispatch queue_process channel_process read_array found_queue
      search_channel found_channel code
  event_round-unread_part (of_queue name payload) rest s left fits (queues, channels) busy nobody =
      let e = of_queue name payload in
      let (w1, w2, r1, r2, out, left2) = read_head e rest s left fits in
      let search =
        find_named-first_named queue_name name s.client.queue_subscriptions (rw fits.0 queues)
        ∙ ap some ((map-eq-none_iff (queue_call payload) _).0 nobody) in
      (
        w2,
        left2,
        out,
        rw (busy, r1, event_header-header e fits, check_event-header e, r2, search) refl,
      )
  event_round-unread_part (of_channel name topic none payload) rest s left fits (queues, channels)
        busy nobody =
      let e = of_channel name topic none payload in
      let (len_n, len_t, pattern, small) = fits in
      let (w1, w2, r1, r2, out, left2) = read_head e rest s left fits in
      let (w3, r3, out3, left3) =
        client_read-Takes works 32 topic (payload ++ rest) (at_world s w2) len_t left2 in
      let search =
        find_named-first_named channel_name name s.client.channel_subscriptions (rw len_n channels)
        ∙ ap some ((map-eq-none_iff (channel_call topic none payload) _).0 nobody) in
      (
        w3,
        left3,
        out3 ∙ out,
        rw (busy, r1, event_header-header e fits, check_event-header e, r2, r3, search) refl,
      )
  event_round-unread_part (of_channel name topic (some glob) payload) rest s left fits
        (queues, channels) busy nobody =
      let e = of_channel name topic (some glob) payload in
      let (len_n, len_t, pattern, small) = fits in
      let (w1, w2, r1, r2, out, left2) = read_head e rest s left fits in
      let (w3, r3, out3, left3) =
        client_read-Takes works 32 topic (glob ++ (payload ++ rest)) (at_world s w2) len_t left2 in
      let (w4, r4, out4, left4) =
        client_read-Takes works 32 glob (payload ++ rest) (at_world s w3) pattern left3 in
      let search =
        find_named-first_named channel_name name s.client.channel_subscriptions (rw len_n channels)
        ∙ ap some ((map-eq-none_iff (channel_call topic (some glob) payload) _).0 nobody) in
      (
        w4,
        left4,
        out4 ∙ (out3 ∙ out),
        rw (busy, r1, event_header-header e fits, check_event-header e, r2, r3, r4, search) refl,
      )
