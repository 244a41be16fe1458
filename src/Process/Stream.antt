-- ===== src/Process/Stream.antt =====
-- The functions of src/emq.c that `emq_process` uses, and what they leave of the stream.
use libemq.Client.{
  done, jump, fault, stuck, require, ChannelSubscription, QueueSubscription, ◌>>◌, is_ok,
}
use libemq.Base.{
  ℕ, true, false, none, some, inl, inr, ◌≤◌, arith, Bool-cases, Option, length, ltb, ap, List, ◌%◌,
  ◌^◌, length-append, Bool, ◌==◌, ◌||◌, ◌<◌, Option-cases, ◌≡◌,
}
use libemq.System.{System, Posix, Limited}
use native.Mathlib.Decide.{dec_lt}
use libemq.Process.Events.{Listens}
use libemq.Api.Unsubscribe.{queue_name, channel_name}
use libemq.Subscription.Names.{find_named-first_named}
use libemq.Client.{State, Run, Error, Prog, and_then, ◌>>=◌}
use libemq.Message.{allocate, read_message, read_bytes, or_error, message_struct_size, Message}
use libemq.Network.{client_read}
use libemq.Network.Read.{client_read-Reads, Reads}
use libemq.Process.{
  Callbacks, Delivery, channel_process, handle_event, queue_process, dispatch, read_array,
  call_back, queue_message, found_queue, found_channel, search_channel, Step, less_names,
  queue_event,
}
use libemq.Protocol.{EventHeader, code, Command, event_message, event_notify}
use libemq.Packet.{check_event_header}

module _ {World : Type 0} {sys : System World} (posix : Posix sys) where
  -- The bytes that are still to come on the client's connection.
  abbrev pub remaining : State World → ℕ
  remaining s = length (posix.incoming s.client.fd s.world)

  -- The run comes to an end, with a stream that is no longer than `n`, and the names keep their NUL.
  abbrev pub Shortens : {A : Type 0} → ℕ → Run World A → Type 0
  Shortens n (done a s) = (remaining s ≤ n) × Listens s.client
  Shortens n (jump s) = (remaining s ≤ n) × Listens s.client
  Shortens n fault = ⊥
  Shortens n stuck = ⊥

  abbrev pub Keeps : {A : Type 0} → Prog World A → Type 0
  Keeps m = (s : State World) → Listens s.client → Shortens (remaining s) (m s)

  Shortens-le : {A : Type 0} {m n : ℕ} (r : Run World A) → m ≤ n → Shortens m r → Shortens n r
  Shortens-le (done a s) h (k, named) = (omega arith, named)
  Shortens-le (jump s) h (k, named) = (omega arith, named)
  Shortens-le fault h k = k
  Shortens-le stuck h k = k

  Shortens-and_then :
      {A B : Type 0} (n : ℕ) (r : Run World A) (k : A → Prog World B)
      → Shortens n r
      → ((a : A) → Keeps (k a))
      → Shortens n (and_then r k)
  Shortens-and_then n (done a s) k (h, named) rest = Shortens-le (k a s) h (rest a s named)
  Shortens-and_then n (jump s) k h rest = h
  Shortens-and_then n fault k h rest = h
  Shortens-and_then n stuck k h rest = h

  Keeps-bind :
      {A B : Type 0} (m : Prog World A) (k : A → Prog World B)
      → Keeps m
      → ((a : A) → Keeps (k a))
      → Keeps (m >>= k)
  Keeps-bind m k h rest s named = Shortens-and_then (remaining s) (m s) k (h s named) rest

  -- A read, and what follows it: it has the bytes that were asked for, or none.
  Shortens-Reads :
      {B : Type 0} (n : ℕ) (s : State World) (r : Run World (Option (List ℕ)))
      (k : Option (List ℕ) → Prog World B)
      → Listens s.client
      → Reads posix n s r
      → Keeps (k none)
      → ((buf : List ℕ) → length buf ≡ n → Keeps (k (some buf)))
      → Shortens (remaining s) (and_then r k)
  Shortens-Reads n s (done (some buf) s') k named (len, stream, kept, same) gone rest =
      let less : remaining s' ≤ remaining s = rw (same) (
        omega (arith, ap length stream, length-append buf (posix.incoming s.client.fd s'.world))) in
      Shortens-le (k (some buf) s') less (rest buf len s' (rw (same) named))
  Shortens-Reads n s (done none s') k named (kept, fewer, same) gone rest =
      Shortens-le (k none s') (rw (same) fewer) (gone s' (rw (same) named))
  Shortens-Reads n s (jump s') k named h gone rest = absurd h
  Shortens-Reads n s fault k named h gone rest = absurd h
  Shortens-Reads n s stuck k named h gone rest = absurd h

  client_read-Keeps :
      {B : Type 0} (n : ℕ) (k : Option (List ℕ) → Prog World B)
      → Keeps (k none)
      → ((buf : List ℕ) → length buf ≡ n → Keeps (k (some buf)))
      → Keeps (client_read sys n >>= k)
  client_read-Keeps n k gone rest s named =
      Shortens-Reads n s (client_read sys n s) k named (client_read-Reads posix n s) gone rest

module _ {World : Type 0} {sys : System World} (posix : Posix sys) (limited : Limited sys) where
  -- An allocation or its error; a block that is given is smaller than 2 GiB.
  allocate-Keeps :
      {A : Type 0} (n : ℕ) (k : List ℕ → Prog World (Option A))
      → (n < 2 ^ 31 → (block : List ℕ) → Keeps posix (k block))
      → Keeps posix (allocate sys n >>= λ block. or_error sys Error.alloc block k)
  unfolding allocate
  allocate-Keeps n k rest s named =
      let left = (posix.malloc_streams s.client.fd n s.world).0 in
      elim (Option-cases (sys.malloc n s.world).0) [
        | inl e ↦ rw e (omega (arith, ap length left), named)
        | inr (block, e) ↦
            let small : n < 2 ^ 31 = elim (dec_lt n (2 ^ 31)) [
              | yes h ↦ h
              | no h ↦ let refused = limited.refuses n s.world (omega arith) in absurd (cc)
            ] in
            rw e (
              Shortens-le posix (k block _) (omega (arith, ap length left))
                (rest small block _ named))
      ]

  read_bytes-Keeps :
      {A : Type 0} (n : ℕ) (k : List ℕ → Prog World (Option A))
      → n < 2 ^ 31
      → ((buf : List ℕ) → Keeps posix (k buf))
      → Keeps posix (read_bytes sys n >>= λ bytes. or_error sys Error.read bytes k)
  unfolding read_bytes
  read_bytes-Keeps n k small rest s named =
      let whole : n % 2 ^ 32 ≡ n = omega arith in
      let test : ltb n (2 ^ 31) ≡ true = ground arith in
      rw (whole, test)
        (client_read-Keeps posix n (λ bytes. or_error sys Error.read bytes k)
          (λ s' named'. (omega arith, named')) (λ buf len. rest buf) s named)

  read_message-Keeps : (n : ℕ) → Keeps posix (read_message sys n)
  unfolding read_message
  read_message-Keeps n = allocate-Keeps message_struct_size _ λ _ _.
      allocate-Keeps n _ λ small _. read_bytes-Keeps n _ small λ _ s named. (omega arith, named)

-- The callbacks leave no more to be read than they found, and a NUL in the name of every
-- subscription.
abbrev pub Quiet : {World : Type 0} {sys : System World} → Posix sys → Callbacks World → Type 0
Quiet posix callbacks =
    (k : ℕ) (d : Delivery) (s : State _)
    → let after = (callbacks k d s).1 in
      (remaining posix after ≤ remaining posix s) × (Listens s.client → Listens after.client)

module _ {World : Type 0} {sys : System World} (posix : Posix sys) (limited : Limited sys)
    (callbacks : Callbacks World) (quiet : Quiet posix callbacks) where
  read_array-Keeps :
      (n : ℕ) (k : List ℕ → Prog World Step)
      → ((buf : List ℕ) → length buf ≡ n → Keeps posix (k buf))
      → Keeps posix (read_array sys callbacks n k)
  unfolding read_array
  read_array-Keeps n k h = client_read-Keeps posix n _ (λ s named. (omega arith, named)) h

  call_back-Keeps : (k : ℕ) (d : Delivery) → Keeps posix (call_back sys callbacks k d)
  unfolding call_back
  call_back-Keeps k d s named = let (less, kept) = quiet k d s in (less, kept named)

  queue_message-Keeps :
      (h : EventHeader) (k : Option Message → Prog World Step)
      → ((m : Option Message) → Keeps posix (k m))
      → Keeps posix (queue_message sys callbacks h k)
  unfolding queue_message
  queue_message-Keeps h k rest s named = elim (Bool-cases (h.type == event_message)) [
    | inl e ↦ rw e (
        Keeps-bind posix _ _ (read_message-Keeps posix limited (less_names h.bodylen 64))
          (elim [ none ↦ λ s' named'. (omega arith, named') | some m ↦ rest (some m) ]) s named)
    | inr e ↦ rw e (rest none s named)
  ]

  found_queue-Keeps :
      (h : EventHeader) (o : Option QueueSubscription)
      → Keeps posix (found_queue sys callbacks h (some o))
  unfolding found_queue
  found_queue-Keeps h none s named = (omega arith, named)
  found_queue-Keeps h (some x) s named =
      let delivery : Option Message → Delivery =
        λ msg. record { kind = queue_event; name = x.name; topic = none; glob = none; msg = msg } in
      queue_message-Keeps h (λ msg. call_back sys callbacks x.callback (delivery msg))
        (λ msg. call_back-Keeps x.callback (delivery msg)) s named

  queue_process-Keeps : (h : EventHeader) → Keeps posix (queue_process sys callbacks h)
  unfolding queue_process
  queue_process-Keeps h = read_array-Keeps 64 _ (λ name len s named.
      rw (find_named-first_named queue_name name s.client.queue_subscriptions (rw len named.0))
        (found_queue-Keeps h _ s named))

  found_channel-Keeps :
      (h : EventHeader) (topic : List ℕ) (glob : Option (List ℕ)) (n : ℕ)
      (o : Option ChannelSubscription)
      → Keeps posix (found_channel sys callbacks h topic glob n (some o))
  unfolding found_channel
  found_channel-Keeps h topic glob n none s named = (omega arith, named)
  found_channel-Keeps h topic glob n (some x) s named =
      Keeps-bind posix _ _ (read_message-Keeps posix limited (less_names h.bodylen n))
        (elim [ none ↦ λ s' named'. (omega arith, named') | some m ↦ call_back-Keeps x.callback _ ])
        s named

  search_channel-Keeps :
      (h : EventHeader) (name topic : List ℕ) (glob : Option (List ℕ)) (n : ℕ)
      → length name ≡ 64
      → Keeps posix (search_channel sys callbacks h name topic glob n)
  unfolding search_channel
  search_channel-Keeps h name topic glob n len s named =
      rw (find_named-first_named channel_name name s.client.channel_subscriptions (rw len named.1))
        (found_channel-Keeps h topic glob n _ s named)

  channel_process-Keeps :
      (h : EventHeader) (extended : Bool) → Keeps posix (channel_process sys callbacks h extended)
  unfolding channel_process
  channel_process-Keeps h true = read_array-Keeps 64 _ λ name len. read_array-Keeps 32 _ λ topic _.
      read_array-Keeps 32 _ λ glob _. search_channel-Keeps h name topic (some glob) 128 len
  channel_process-Keeps h false =
      read_array-Keeps 64 _
        λ name len. read_array-Keeps 32 _ λ topic _. search_channel-Keeps h name topic none 96 len

  dispatch-Keeps : (h : EventHeader) → Keeps posix (dispatch sys callbacks h)
  unfolding dispatch
  dispatch-Keeps h s named = elim (Bool-cases (h.cmd == code Command.queue_subscribe)) [
    | inl e ↦ rw e (queue_process-Keeps h s named)
    | inr e ↦ elim (Bool-cases (h.cmd == code Command.channel_subscribe)) [
      | inl e' ↦ rw (e, e') (channel_process-Keeps h false s named)
      | inr e' ↦ rw (e, e') (channel_process-Keeps h true s named)
    ]
  ]

  require-Keeps :
      (test : Bool) (e : Error) (m : Prog World Step)
      → Keeps posix m
      → Keeps posix (require test e >> m)
  require-Keeps true e m h s named = h s named
  require-Keeps false e m h s named = (omega arith, named)

  pub handle_event-Keeps : (h : EventHeader) → Keeps posix (handle_event sys callbacks h)
  unfolding handle_event
  handle_event-Keeps h =
      let known =
        h.cmd == code Command.queue_subscribe
        || h.cmd == code Command.channel_subscribe
        || h.cmd == code Command.channel_psubscribe in
      require-Keeps (is_ok (check_event_header h event_notify event_message)) Error.read
        (require known Error.read >> dispatch sys callbacks h)
        (require-Keeps known Error.read (dispatch sys callbacks h) (dispatch-Keeps h))
