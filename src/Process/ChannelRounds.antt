-- ===== src/Process/ChannelRounds.antt =====
-- The rounds of `emq_process` of src/emq.c that deliver an event of a channel, likewise.
use libemq.Base.{
  inl, Bool, Option, refl, ℕ, List, true, false, none, some, [], ◌++◌, ◌≡◌, ◌<◌, ◌≤◌, ◌^◌, ◌+◌, ◌∙◌,
  ◌&&◌, length, All, arith, ap,
}
use libemq.Client.{State, ChannelSubscription}
use libemq.System.{System, Posix, Reliable, Ample}
use libemq.Protocol.{event_header, header_size, magic_event, event_message, code, Command}
use libemq.Wire.{read_text}
use libemq.Network.Takes.{client_read-Takes}
use libemq.Api.Fetch.{read_message-Takes, tagged}
use libemq.Subscription.Names.{Terminated, first_named, find_named-first_named}
use libemq.Process.{
  Callbacks, channel_event, is_nil, less_names, read_array, call_back, dispatch, handle_event,
  process_round, channel_process, search_channel, found_channel,
}
use libemq.Process.Rounds.{check_event-ok, found-not_nil, Delivers}

-- What an event of a channel carries besides its name, its topic and its message: with
-- `EMQ_PROTOCOL_CMD_CHANNEL_PSUBSCRIBE` the pattern of 32 bytes, else nothing.
abbrev pub pattern_bytes : Option (List ℕ) → List ℕ
pattern_bytes none = []
pattern_bytes (some glob) = glob

abbrev pub channel_command : Option (List ℕ) → Command
channel_command none = Command.channel_subscribe
channel_command (some glob) = Command.channel_psubscribe

abbrev pub IsPattern : Option (List ℕ) → Type 0
IsPattern none = Unit {0}
IsPattern (some glob) = length glob ≡ 32

abbrev pub channel_name : ChannelSubscription → List ℕ
channel_name x = x.name

and_false : (a : Bool) → (a && false) ≡ false
and_false true = refl
and_false false = refl

module _ {World : Type 0} {sys : System World} {posix : Posix sys} (works : Reliable posix)
    (ample : Ample sys) (callbacks : Callbacks World) where
  -- A round of `emq_process` on an event of a channel: with a header of such an event, the name of 64
  -- bytes, the topic of 32, the pattern of 32 if the command is the one for patterns, and a message
  -- of as many bytes as the header counts, next on a connection that works, an allocator that does
  -- not run out, and a NUL in the name of every subscription, it reads exactly these, and calls the
  -- callback of the first subscription to a channel with this name, once, with all of them; it ends
  -- the loop if the callback asks for that and no subscription to a queue is left.
  pub channel_round-Delivers :
      (hb name topic : List ℕ) (glob : Option (List ℕ)) (bs rest : List ℕ) (x : ChannelSubscription)
      (s : State World)
      → let h = event_header hb in
        posix.incoming s.client.fd s.world
          ≡ hb ++ (name ++ (topic ++ (pattern_bytes glob ++ (bs ++ rest))))
        → length hb ≡ header_size
        → length name ≡ 64
        → length topic ≡ 32
        → IsPattern glob
        → length bs < 2 ^ 31
        → h.magic ≡ magic_event
        → h.type ≡ event_message
        → h.cmd ≡ code (channel_command glob)
        → h.bodylen ≡ 96 + length (pattern_bytes glob) + length bs
        → All
            (λ y. Terminated (channel_name y) × (length (channel_name y) ≤ length name))
            s.client.channel_subscriptions
        → first_named channel_name (read_text name) s.client.channel_subscriptions ≡ some x
        → Delivers posix callbacks x.callback
            (record {
              kind = channel_event;
              name = x.name;
              topic = some topic;
              glob = glob;
              msg = some (tagged 0 bs);
            })
            rest
            s
            (process_round sys callbacks s)
  unfolding process_round handle_event dispatch channel_process read_array search_channel
      found_channel call_back code
  channel_round-Delivers hb name topic none bs rest x s e len_h len_n len_t pattern small magic type
        cmd bodylen named found =
      let (w1, r1, out1, left1) =
        client_read-Takes works header_size hb (name ++ (topic ++ (bs ++ rest))) s len_h e in
      let (w2, r2, out2, left2) =
        client_read-Takes works 64 name (topic ++ (bs ++ rest))
          (record { client = s.client; world = w1 }) len_n left1 in
      let (w3, r3, out3, left3) =
        client_read-Takes works 32 topic (bs ++ rest) (record { client = s.client; world = w2 })
          len_t left2 in
      let (w4, r4, out4, left4) =
        read_message-Takes works ample bs rest (record { client = s.client; world = w3 }) small
          left3 in
      let there =
        found-not_nil channel_name (read_text name) s.client.channel_subscriptions x found in
      let search =
        find_named-first_named channel_name name s.client.channel_subscriptions named
        ∙ ap some found in
      let size : less_names (event_header hb).bodylen 96 ≡ length bs = omega arith in
      (
        w4,
        left4,
        out4 ∙ (out3 ∙ (out2 ∙ out1)),
        rw
            (
              there,
              and_false (is_nil s.client.queue_subscriptions),
              r1,
              check_event-ok (event_header hb) magic (inl type),
              cmd,
              r2,
              r3,
              search,
              size,
              r4,
            )
            refl,
      )
  channel_round-Delivers hb name topic (some glob) bs rest x s e len_h len_n len_t pattern small
        magic type cmd bodylen named found =
      let (w1, r1, out1, left1) =
        client_read-Takes works header_size hb (name ++ (topic ++ (glob ++ (bs ++ rest)))) s len_h
          e in
      let (w2, r2, out2, left2) =
        client_read-Takes works 64 name (topic ++ (glob ++ (bs ++ rest)))
          (record { client = s.client; world = w1 }) len_n left1 in
      let (w3, r3, out3, left3) =
        client_read-Takes works 32 topic (glob ++ (bs ++ rest))
          (record { client = s.client; world = w2 }) len_t left2 in
      let (w4, r4, out4, left4) =
        client_read-Takes works 32 glob (bs ++ rest) (record { client = s.client; world = w3 })
          pattern left3 in
      let (w5, r5, out5, left5) =
        read_message-Takes works ample bs rest (record { client = s.client; world = w4 }) small
          left4 in
      let there =
        found-not_nil channel_name (read_text name) s.client.channel_subscriptions x found in
      let search =
        find_named-first_named channel_name name s.client.channel_subscriptions named
        ∙ ap some found in
      let size : less_names (event_header hb).bodylen 128 ≡ length bs = omega arith in
      (
        w5,
        left5,
        out5 ∙ (out4 ∙ (out3 ∙ (out2 ∙ out1))),
        rw
            (
              there,
              and_false (is_nil s.client.queue_subscriptions),
              r1,
              check_event-ok (event_header hb) magic (inl type),
              cmd,
              r2,
              r3,
              r4,
              search,
              size,
              r5,
            )
            refl,
      )
