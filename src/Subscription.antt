-- ===== src/Subscription.antt =====
-- The subscriptions of a client (src/emq.c): names in `char` arrays, `strcmp`, and the searches
-- and removals over the lists.
pub mod Names
use libemq.Base.{
  ℕ, true, false, none, some, [], ◌∷◌, List, Option, Bool, ◌++◌, if◌then◌else◌, ◌==◌, ◌||◌,
}
use libemq.System.{System}
use libemq.Wire.{Text, fill_chars}
use libemq.Client.{ChannelSubscription, QueueSubscription, Prog, fault, done, ◌>>=◌, pure}
use libemq.Message.{allocate}
use libemq.Packet.{too_long}

-- `strcmp(a, b) == 0` over the bytes of two buffers: `none` is a read past the end of one.
unfoldable pub strcmp_eq : List ℕ → List ℕ → Option Bool
strcmp_eq [] bs = none
strcmp_eq (a ∷ as_) [] = none
strcmp_eq (a ∷ as_) (b ∷ bs) =
    let rest = strcmp_eq as_ bs in if a == b then if a == 0 then some true else rest else some false

-- The bytes of a C string that is given as an argument.
abbrev pub text_bytes : Text → List ℕ
text_bytes s = s ++ (0 ∷ [])

module _ {A : Type 0} (name_of : A → List ℕ) where
  keep_unless : A → Bool → Option (List A) → Option (List A)
  keep_unless x hit none = none
  keep_unless x hit (some rest) = some (if hit then rest else x ∷ rest)

  -- `while ((node = emq_list_next(&iter)) != NULL) if (!strcmp(…)) emq_list_delete_node(…);`
  unfoldable pub delete_named : List ℕ → List A → Option (List A)
  unfolding keep_unless
  delete_named name [] = some []
  delete_named name (x ∷ xs) =
      let rest = delete_named name xs in
      elim (strcmp_eq (name_of x) name) [ none ↦ none | some hit ↦ keep_unless x hit rest ]

  -- `while (…) if (!strcmp(…)) { found = 1; break; }`: the first match, `none` if there is none.
  unfoldable pub find_named : List ℕ → List A → Option (Option A)
  find_named name [] = some none
  find_named name (x ∷ xs) =
      let rest = find_named name xs in
      elim (strcmp_eq (name_of x) name) [
        | none ↦ none
        | some hit ↦ if hit then some (some x) else rest
      ]

abbrev pub queue_subscription_size : ℕ
queue_subscription_size = 72

abbrev pub channel_subscription_size : ℕ
channel_subscription_size = 104

abbrev pub list_node_size : ℕ
list_node_size = 24

module _ {World : Type 0} (sys : System World) where
  -- `emq_queue_subscription_create`: the copy is a fault if the name does not fit.
  unfoldable pub queue_subscription_create : Text → ℕ → Prog World (Option QueueSubscription)
  queue_subscription_create name callback = do
    block ← allocate sys queue_subscription_size
    elim block [
      | none ↦ pure none
      | some _ ↦ λ s.
          if too_long 64 name
          then fault
          else done (some (record { name = fill_chars 64 name; callback = callback })) s
    ]

  unfoldable pub channel_subscription_create :
      Text → Text → ℕ → Prog World (Option ChannelSubscription)
  channel_subscription_create name topic callback = do
    block ← allocate sys channel_subscription_size
    elim block [
      | none ↦ pure none
      | some _ ↦ λ s.
          if too_long 64 name || too_long 32 topic
          then fault
          else done
              (some (record {
                name = fill_chars 64 name;
                channel = fill_chars 32 topic;
                callback = callback;
              }))
              s
    ]

  -- `emq_list_add_value`, whose result the callers do not test: without memory for the node the
  -- subscription is lost.
  unfoldable pub add_queue_subscription : QueueSubscription → Prog World (Unit {0})
  add_queue_subscription x = do
    node ← allocate sys list_node_size
    λ s. done tt (record s {
      client = elim node [
        | none ↦ s.client
        | some _ ↦ record (s.client) { queue_subscriptions = x ∷ s.client.queue_subscriptions }
      ];
    })

  unfoldable pub add_channel_subscription : ChannelSubscription → Prog World (Unit {0})
  add_channel_subscription x = do
    node ← allocate sys list_node_size
    λ s. done tt (record s {
      client = elim node [
        | none ↦ s.client
        | some _ ↦ record (s.client) { channel_subscriptions = x ∷ s.client.channel_subscriptions }
      ];
    })

  unfoldable pub delete_queue_subscriptions : Text → Prog World (Unit {0})
  delete_queue_subscriptions name s =
      elim (delete_named (λ (x : QueueSubscription). x.name) (text_bytes name)
        s.client.queue_subscriptions) [
          | none ↦ fault
          | some rest ↦
              done tt (record s { client = record (s.client) { queue_subscriptions = rest } })
        ]

  unfoldable pub delete_channel_subscriptions : Text → Prog World (Unit {0})
  delete_channel_subscriptions name s =
      elim (delete_named (λ (x : ChannelSubscription). x.name) (text_bytes name)
        s.client.channel_subscriptions) [
          | none ↦ fault
          | some rest ↦
              done tt (record s { client = record (s.client) { channel_subscriptions = rest } })
        ]
