-- ===== src/Api/Joining.antt =====
-- The runs of the functions of src/emq.c that subscribe, on a connection that works.
use libemq.Base.{refl, ℕ, false, some, ◌∷◌, List, ◌≡◌, ◌∙◌}
use libemq.System.{System, Posix, Ample}
use libemq.Client.{
  Client, QueueSubscription, ChannelSubscription, State, done, Run, Status, returning, and_then,
  ◌>>=◌, Error, ◌>>◌, pure,
}
use libemq.Wire.{Text, fill_chars}
use libemq.Api.Verdicts.{accepted, Verdict, refused}
use libemq.Api.Replies.{settled, outcome}
use libemq.Subscription.{
  channel_subscription_create, queue_subscription_create, channel_subscription_size,
  queue_subscription_size, add_queue_subscription, add_channel_subscription, list_node_size,
}
use libemq.Packet.{too_long}
use libemq.Api.Exchange.{exchanged}
use libemq.Api.{require_some}
use libemq.Packet.Buffer.{with_request}
use libemq.Message.Blocks.{Allocates, allocate-provides}

-- The client at the end: settled by the verdict, and with the subscription at the head of its list
-- if the server has accepted.
abbrev pub queue_joined : Client → List ℕ → QueueSubscription → Verdict → Client
queue_joined c p x accepted = record (settled c p accepted) {
  queue_subscriptions = x ∷ c.queue_subscriptions;
}
queue_joined c p x (refused e) = settled c p (refused e)

abbrev pub channel_joined : Client → List ℕ → ChannelSubscription → Verdict → Client
channel_joined c p x accepted = record (settled c p accepted) {
  channel_subscriptions = x ∷ c.channel_subscriptions;
}
channel_joined c p x (refused e) = settled c p (refused e)

abbrev pub queue_entry : Text → ℕ → QueueSubscription
queue_entry name callback = record { name = fill_chars 64 name; callback = callback }

abbrev pub channel_entry : Text → Text → ℕ → ChannelSubscription
channel_entry name topic callback = record {
  name = fill_chars 64 name;
  channel = fill_chars 32 topic;
  callback = callback;
}

module _ {World : Type 0} {sys : System World} (posix : Posix sys) (ample : Ample sys) where
  -- A run that ends by the verdict with the client `c` and the streams as they were at `w`.
  abbrev pub Ends : ℕ → Verdict → Client → World → Run World Status → Type 0
  Ends fd v c w r =
      (w' : World) × (r ≡ done (outcome v) (record { client = c; world = w' }))
      × (posix.sent fd w' ≡ posix.sent fd w)
      × (posix.incoming fd w' ≡ posix.incoming fd w)

  queue_create_step :
      (name : Text) (callback : ℕ) (s : State World)
      → too_long 64 name ≡ false
      → Allocates posix
          (some (queue_entry name callback))
          (queue_subscription_create sys name callback)
          s
  unfolding queue_subscription_create
  queue_create_step name callback s fits =
      let (block, w, e, out, left) = allocate-provides posix ample queue_subscription_size s in
      (w, rw (e, fits) refl, out, left)

  channel_create_step :
      (name topic : Text) (callback : ℕ) (s : State World)
      → too_long 64 name ≡ false
      → too_long 32 topic ≡ false
      → Allocates posix
          (some (channel_entry name topic callback))
          (channel_subscription_create sys name topic callback)
          s
  unfolding channel_subscription_create
  channel_create_step name topic callback s fits fits' =
      let (block, w, e, out, left) = allocate-provides posix ample channel_subscription_size s in
      (w, rw (e, fits, fits') refl, out, left)

  pub queue_join :
      (c : Client) (p : List ℕ) (name : Text) (callback : ℕ) (v : Verdict) (w : World)
      → too_long 64 name ≡ false
      → Ends c.fd v (queue_joined c p (queue_entry name callback) v) w (
          returning Status.err (
            and_then (exchanged c p v w) (λ _. queue_subscription_create sys name callback >>= λ x.
            require_some Error.alloc x >>= λ entry.
            add_queue_subscription sys entry >> pure Status.ok)))
  unfolding add_queue_subscription
  queue_join c p name callback accepted w fits =
      let c' : Client = record (with_request c p) { error = Error.no_error } in
      let (w', e, out, left) =
        queue_create_step name callback (record { client = c'; world = w }) fits in
      let (node, w'', e', out', left') =
        allocate-provides posix ample list_node_size (record { client = c'; world = w' }) in
      (w'', rw (returning, e, e') refl, out' ∙ out, left' ∙ left)
  queue_join c p name callback (refused e) w fits = (w, refl, refl, refl)

  pub channel_join :
      (c : Client) (p : List ℕ) (name topic : Text) (callback : ℕ) (v : Verdict) (w : World)
      → too_long 64 name ≡ false
      → too_long 32 topic ≡ false
      → Ends c.fd v (channel_joined c p (channel_entry name topic callback) v) w (
          returning Status.err (
            and_then (exchanged c p v w) (λ _.
              channel_subscription_create sys name topic callback >>= λ x.
              require_some Error.alloc x >>= λ entry.
              add_channel_subscription sys entry >> pure Status.ok)))
  unfolding add_channel_subscription
  channel_join c p name topic callback accepted w fits fits' =
      let c' : Client = record (with_request c p) { error = Error.no_error } in
      let (w', e, out, left) =
        channel_create_step name topic callback (record { client = c'; world = w }) fits fits' in
      let (node, w'', e', out', left') =
        allocate-provides posix ample list_node_size (record { client = c'; world = w' }) in
      (w'', rw (returning, e, e') refl, out' ∙ out, left' ∙ left)
  channel_join c p name topic callback (refused e) w fits fits' = (w, refl, refl, refl)
