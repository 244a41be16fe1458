-- ===== src/Process/Rounds.antt =====
-- The rounds of `emq_process` of src/emq.c that deliver an event, on a connection that works.
use libemq.Message.{Message}
use libemq.Base.{
  inl, inr, ◌⊎◌, Option, refl, ℕ, List, false, none, some, [], ◌∷◌, ◌++◌, ◌≡◌, ◌<◌, ◌≤◌, ◌^◌, ◌+◌,
  ◌∙◌, ◌&&◌, ◌==◌, not, length, All, arith, ap, if◌then◌else◌,
}
use libemq.Client.{State, Run, done, QueueSubscription, Status}
use libemq.System.{System, Posix, Reliable, Ample}
use libemq.Protocol.{
  EventHeader, event_header, header_size, magic_event, event_message, event_notify, code, Command,
}
use libemq.Packet.{check_event_header}
use libemq.Wire.{read_text}
use libemq.Network.Takes.{client_read-Takes}
use libemq.Api.Fetch.{read_message-Takes, tagged}
use libemq.Subscription.Names.{Terminated, first_named, find_named-first_named}
use libemq.Process.{
  Callbacks, Delivery, queue_event, Step, go_on, stop, is_nil, less_names, read_array, call_back,
  queue_message, found_queue, queue_process, dispatch, handle_event, process_round,
}

pub check_event-ok :
    (h : EventHeader)
    → h.magic ≡ magic_event
    → (h.type ≡ event_message) ⊎ (h.type ≡ event_notify)
    → check_event_header h event_notify event_message ≡ Status.ok
unfolding check_event_header
check_event-ok h magic (inl type) = ground arith
check_event-ok h magic (inr type) = ground arith

pub found-not_nil :
    {A : Type 0} (name_of : A → List ℕ) (t : List ℕ) (xs : List A) (x : A)
    → first_named name_of t xs ≡ some x
    → is_nil xs ≡ false
found-not_nil name_of t [] x e = cc
found-not_nil name_of t (y ∷ xs) x e = refl

-- The message of an event, if it carries one, and the type of the event.
abbrev pub payload_bytes : Option (List ℕ) → List ℕ
payload_bytes none = []
payload_bytes (some bs) = bs

abbrev pub event_type : Option (List ℕ) → ℕ
event_type none = event_notify
event_type (some bs) = event_message

abbrev pub carried : Option (List ℕ) → Option Message
carried none = none
carried (some bs) = some (tagged 0 bs)

abbrev pub queue_name : QueueSubscription → List ℕ
queue_name x = x.name

module _ {World : Type 0} {sys : System World} (posix : Posix sys)
    (callbacks : Callbacks World) where
  -- The round has left `rest` to be read and sent nothing, and then called the callback with `d`.
  abbrev pub Delivers : ℕ → Delivery → List ℕ → State World → Run World Step → Type 0
  Delivers callback d rest s r =
      (w : World) × (posix.incoming s.client.fd w ≡ rest)
      × (posix.sent s.client.fd w ≡ posix.sent s.client.fd s.world)
      × (let after = callbacks callback d (record { client = s.client; world = w }) in
          r
          ≡ done
              (if not (after.0 == 0) && is_nil after.1.client.queue_subscriptions
                then stop
                else go_on)
              after.1)

module _ {World : Type 0} {sys : System World} {posix : Posix sys} (works : Reliable posix)
    (ample : Ample sys) (callbacks : Callbacks World) where
  -- A round of `emq_process` on an event of a queue: with a header of such an event, the name of 64
  -- bytes, and a message of as many bytes as the header counts, or no message if the event only
  -- notifies, next on a connection that works, an allocator that does not run out, and a NUL in the
  -- name of every subscription, it reads exactly these, and calls the callback of the first
  -- subscription with this name, once, with the message; it ends the loop if the callback asks for
  -- that and no subscription to a queue is left.
  pub queue_round-Delivers :
      (hb name : List ℕ) (payload : Option (List ℕ)) (rest : List ℕ) (x : QueueSubscription)
      (s : State World)
      → let h = event_header hb in
        posix.incoming s.client.fd s.world ≡ hb ++ (name ++ (payload_bytes payload ++ rest))
        → length hb ≡ header_size
        → length name ≡ 64
        → length (payload_bytes payload) < 2 ^ 31
        → h.magic ≡ magic_event
        → h.type ≡ event_type payload
        → h.cmd ≡ code Command.queue_subscribe
        → h.bodylen ≡ 64 + length (payload_bytes payload)
        → All
            (λ y. Terminated (queue_name y) × (length (queue_name y) ≤ length name))
            s.client.queue_subscriptions
        → first_named queue_name (read_text name) s.client.queue_subscriptions ≡ some x
        → Delivers posix callbacks x.callback
            (record {
              kind = queue_event;
              name = x.name;
              topic = none;
              glob = none;
              msg = carried payload;
            })
            rest
            s
            (process_round sys callbacks s)
  unfolding process_round handle_event dispatch queue_process read_array found_queue queue_message
      call_back code
  queue_round-Delivers hb name none rest x s e len_h len_n small magic type cmd bodylen named
        found =
      let (w1, r1, out1, left1) = client_read-Takes works header_size hb (name ++ rest) s len_h e in
      let (w2, r2, out2, left2) =
        client_read-Takes works 64 name rest (record { client = s.client; world = w1 }) len_n
          left1 in
      let there = found-not_nil queue_name (read_text name) s.client.queue_subscriptions x found in
      let search =
        find_named-first_named queue_name name s.client.queue_subscriptions named ∙ ap some found in
      (
        w2,
        left2,
        out2 ∙ out1,
        rw (there, r1, check_event-ok (event_header hb) magic (inr type), cmd, r2, search, type)
            refl,
      )
  queue_round-Delivers hb name (some bs) rest x s e len_h len_n small magic type cmd bodylen named
        found =
      let (w1, r1, out1, left1) =
        client_read-Takes works header_size hb (name ++ (bs ++ rest)) s len_h e in
      let (w2, r2, out2, left2) =
        client_read-Takes works 64 name (bs ++ rest) (record { client = s.client; world = w1 })
          len_n left1 in
      let (w3, r3, out3, left3) =
        read_message-Takes works ample bs rest (record { client = s.client; world = w2 }) small
          left2 in
      let there = found-not_nil queue_name (read_text name) s.client.queue_subscriptions x found in
      let search =
        find_named-first_named queue_name name s.client.queue_subscriptions named ∙ ap some found in
      let size : less_names (event_header hb).bodylen 64 ≡ length bs = omega arith in
      (
        w3,
        left3,
        out3 ∙ (out2 ∙ out1),
        rw
            (
              there,
              r1,
              check_event-ok (event_header hb) magic (inl type),
              cmd,
              r2,
              search,
              type,
              size,
              r3,
            )
            refl,
      )
