-- ===== src/Connection/Memory.antt =====
-- What `emq_client_release` and `emq_disconnect` of src/emq.c give back.
use libemq.Base.{
  ℕ, List, true, false, some, zero, suc, ◌≡◌, ◌∙◌, ◌+◌, ◌≤◌, ◌<◌, refl, arith, length, ◌==◌, Option,
}
use libemq.Client.{Client, State, Run, and_then, ◌>>◌}
use libemq.Connection.{
  Host, Blocks, Sockets, closed, free_client, free_request, free_list, free_node, free_subscription,
  release_subscriptions, release_request, client_release, free_one,
}
use libemq.Connection.Connect.{disconnect, client_disconnect, close_socket}
use libemq.Connection.Runs.{Returns, Returns-and_then, Returns-weaken}

-- How many subscriptions the client has.
abbrev pub entries : Client → ℕ
entries c = length c.queue_subscriptions + length c.channel_subscriptions

module _ {World : Type 0} where
  -- From `s` to `s'` so many blocks of each kind have been freed, and nothing else has changed.
  pub record Released (s : State (Host World)) (c r l n u : ℕ) (result : Unit {0})
      (s' : State (Host World)) : Type 0 where
    pub client : s'.client ≡ s.client
    pub world : s'.world.world ≡ s.world.world
    pub descriptors : s'.world.descriptors ≡ s.world.descriptors
    pub clients : s.world.blocks.clients ≡ c + s'.world.blocks.clients
    pub requests : s.world.blocks.requests ≡ r + s'.world.blocks.requests
    pub lists : s.world.blocks.lists ≡ l + s'.world.blocks.lists
    pub nodes : s.world.blocks.nodes ≡ n + s'.world.blocks.nodes
    pub subscriptions : s.world.blocks.subscriptions ≡ u + s'.world.blocks.subscriptions
    pub messages : s'.world.blocks.messages ≡ s.world.blocks.messages
    pub payloads : s'.world.blocks.payloads ≡ s.world.blocks.payloads

  Released-trans :
      (s s' s'' : State (Host World)) (c r l n u c' r' l' n' u' : ℕ)
      → Released s c r l n u tt s'
      → Released s' c' r' l' n' u' tt s''
      → Released s (c + c') (r + r') (l + l') (n + n') (u + u') tt s''
  Released-trans s s' s'' c r l n u c' r' l' n' u' a b = record {
    client = b.client ∙ a.client;
    world = b.world ∙ a.world;
    descriptors = b.descriptors ∙ a.descriptors;
    clients = omega (arith, a.clients, b.clients);
    requests = omega (arith, a.requests, b.requests);
    lists = omega (arith, a.lists, b.lists);
    nodes = omega (arith, a.nodes, b.nodes);
    subscriptions = omega (arith, a.subscriptions, b.subscriptions);
    messages = b.messages ∙ a.messages;
    payloads = b.payloads ∙ a.payloads;
  }

  -- One release after the other.
  release-then :
      (s : State (Host World)) (c r l n u c' r' l' n' u' : ℕ) (run : Run (Host World) (Unit {0}))
      (k : State (Host World) → Run (Host World) (Unit {0}))
      → Returns (Released s c r l n u) run
      → ((s' : State (Host World))
          → Released s c r l n u tt s'
          → Returns (Released s' c' r' l' n' u') (k s'))
      → Returns (Released s (c + c') (r + r') (l + l') (n + n') (u + u')) (and_then run (λ _. k))
  release-then s c r l n u c' r' l' n' u' run k first next =
      Returns-and_then (Released s c r l n u)
        (Released s (c + c') (r + r') (l + l') (n + n') (u + u')) run _ first
        (λ a s' freed.
          Returns-weaken (Released s' c' r' l' n' u') _ (k s') (next s' freed)
            (λ b s'' freed'. Released-trans s s' s'' c r l n u c' r' l' n' u' freed freed'))

  Released-cast :
      (s s' : State (Host World)) (c r l n u c' r' l' n' u' : ℕ)
      → Released s c r l n u tt s'
      → c ≡ c'
      → r ≡ r'
      → l ≡ l'
      → n ≡ n'
      → u ≡ u'
      → Released s c' r' l' n' u' tt s'
  Released-cast s s' c r l n u c' r' l' n' u' freed ec er el en eu = record {
    client = freed.client;
    world = freed.world;
    descriptors = freed.descriptors;
    clients = omega (arith, freed.clients, ec);
    requests = omega (arith, freed.requests, er);
    lists = omega (arith, freed.lists, el);
    nodes = omega (arith, freed.nodes, en);
    subscriptions = omega (arith, freed.subscriptions, eu);
    messages = freed.messages;
    payloads = freed.payloads;
  }

  -- `free` of one block, after which the blocks are `b`.
  free_one-Released :
      (s : State (Host World)) (there c r l n u : ℕ) (b : Blocks)
      → 0 < there
      → s.world.blocks.clients ≡ c + b.clients
      → s.world.blocks.requests ≡ r + b.requests
      → s.world.blocks.lists ≡ l + b.lists
      → s.world.blocks.nodes ≡ n + b.nodes
      → s.world.blocks.subscriptions ≡ u + b.subscriptions
      → b.messages ≡ s.world.blocks.messages
      → b.payloads ≡ s.world.blocks.payloads
      → Returns (Released s c r l n u) (free_one there b s)
  free_one-Released s there c r l n u b h clients requests lists nodes subscriptions messages
        payloads =
      let some_there : (there == 0) ≡ false = ground arith in
      rw some_there (record {
        client = refl;
        world = refl;
        descriptors = refl;
        clients = clients;
        requests = requests;
        lists = lists;
        nodes = nodes;
        subscriptions = subscriptions;
        messages = messages;
        payloads = payloads;
      })

  free_client-Released :
      (s : State (Host World))
      → 0 < s.world.blocks.clients
      → Returns (Released s 1 0 0 0 0) (free_client s)
  unfolding free_client
  free_client-Released s h =
      free_one-Released s s.world.blocks.clients 1 0 0 0 0 _ h (omega arith) (omega arith)
        (omega arith) (omega arith) (omega arith) refl refl

  free_request-Released :
      (s : State (Host World))
      → 0 < s.world.blocks.requests
      → Returns (Released s 0 1 0 0 0) (free_request s)
  unfolding free_request
  free_request-Released s h =
      free_one-Released s s.world.blocks.requests 0 1 0 0 0 _ h (omega arith) (omega arith)
        (omega arith) (omega arith) (omega arith) refl refl

  free_list-Released :
      (s : State (Host World))
      → 0 < s.world.blocks.lists
      → Returns (Released s 0 0 1 0 0) (free_list s)
  unfolding free_list
  free_list-Released s h =
      free_one-Released s s.world.blocks.lists 0 0 1 0 0 _ h (omega arith) (omega arith)
        (omega arith) (omega arith) (omega arith) refl refl

  free_node-Released :
      (s : State (Host World))
      → 0 < s.world.blocks.nodes
      → Returns (Released s 0 0 0 1 0) (free_node s)
  unfolding free_node
  free_node-Released s h =
      free_one-Released s s.world.blocks.nodes 0 0 0 1 0 _ h (omega arith) (omega arith)
        (omega arith) (omega arith) (omega arith) refl refl

  free_subscription-Released :
      (s : State (Host World))
      → 0 < s.world.blocks.subscriptions
      → Returns (Released s 0 0 0 0 1) (free_subscription s)
  unfolding free_subscription
  free_subscription-Released s h =
      free_one-Released s s.world.blocks.subscriptions 0 0 0 0 1 _ h (omega arith) (omega arith)
        (omega arith) (omega arith) (omega arith) refl refl

  release_request-Released :
      (s : State (Host World)) (request : Option (List ℕ)) (block : List ℕ)
      → request ≡ some block
      → 0 < s.world.blocks.requests
      → Returns (Released s 0 1 0 0 0) (release_request request s)
  unfolding release_request
  release_request-Released s request block e h = rw e (free_request-Released s h)

  release_subscriptions-Released :
      (k : ℕ) (s : State (Host World))
      → 0 < s.world.blocks.lists
      → k ≤ s.world.blocks.nodes
      → k ≤ s.world.blocks.subscriptions
      → Returns (Released s 0 0 1 k k) (release_subscriptions k s)
  unfolding release_subscriptions
  release_subscriptions-Released zero s hl hn hu = free_list-Released s hl
  release_subscriptions-Released (suc k) s hl hn hu =
      Returns-weaken (Released s 0 0 1 (0 + (1 + k)) (1 + (0 + k)))
        (Released s 0 0 1 (suc k) (suc k)) _
        (release-then s 0 0 0 0 1 0 0 1 (1 + k) (0 + k) (free_subscription s)
          (λ s'. (free_node >> release_subscriptions k) s')
          (free_subscription-Released s (omega arith))
          (λ s' a.
            release-then s' 0 0 0 1 0 0 0 1 k k (free_node s') (release_subscriptions k)
              (free_node-Released s' (omega (arith, a.nodes)))
              (λ s'' b.
                release_subscriptions-Released k s'' (omega (arith, a.lists, b.lists))
                  (omega (arith, a.nodes, b.nodes))
                  (omega (arith, a.subscriptions, b.subscriptions)))))
        (λ _ s' freed.
          Released-cast s s' 0 0 1 _ _ 0 0 1 (suc k) (suc k) freed (omega arith) (omega arith)
            (omega arith) (omega arith) (omega arith))

  -- The blocks of the client are among those that the library has.
  pub record Owns (s : State (Host World)) : Type 0 where
    pub block : List ℕ
    pub request : s.client.request ≡ some block
    pub clients : 0 < s.world.blocks.clients
    pub requests : 0 < s.world.blocks.requests
    pub lists : 1 < s.world.blocks.lists
    pub nodes : entries s.client ≤ s.world.blocks.nodes
    pub subscriptions : entries s.client ≤ s.world.blocks.subscriptions

  pub client_release-Released :
      (s : State (Host World))
      → Owns s
      → Returns (Released s 1 1 2 (entries s.client) (entries s.client)) (client_release s)
  unfolding client_release
  client_release-Released s owns =
      let q = length s.client.queue_subscriptions in
      let c = length s.client.channel_subscriptions in
      (Returns-weaken (Released s 1 1 2 (q + (c + 0)) (q + (c + 0))) _ _
        (release-then s 0 0 1 q q 1 1 1 (c + 0) (c + 0) (release_subscriptions q s)
          (λ s'. (release_subscriptions c >> (release_request s.client.request >> free_client)) s')
          (release_subscriptions-Released q s (omega (arith, owns.lists))
            (omega (arith, owns.nodes)) (omega (arith, owns.subscriptions)))
          (λ s1 f1.
            release-then s1 0 0 1 c c 1 1 0 0 0 (release_subscriptions c s1)
              (λ s'. (release_request s.client.request >> free_client) s')
              (release_subscriptions-Released c s1 (omega (arith, owns.lists, f1.lists))
                (omega (arith, owns.nodes, f1.nodes))
                (omega (arith, owns.subscriptions, f1.subscriptions)))
              (λ s2 f2.
                release-then s2 0 1 0 0 0 1 0 0 0 0 (release_request s.client.request s2)
                  free_client
                  (release_request-Released s2 s.client.request owns.block owns.request
                    (omega (arith, owns.requests, f1.requests, f2.requests)))
                  (λ s3 f3.
                    free_client-Released s3
                      (omega (arith, owns.clients, f1.clients, f2.clients, f3.clients))))))
        (λ _ s' freed.
          Released-cast s s' 1 1 2 _ _ 1 1 2 (entries s.client) (entries s.client) freed
            (omega arith) (omega arith) (omega arith) (omega arith) (omega arith)))

  -- The client's blocks and its descriptor are given back.
  pub record GivenBack (net : Sockets World) (s : State (Host World)) (result : Unit {0})
      (s' : State (Host World)) : Type 0 where
    pub world : s'.world.world ≡ net.close s.client.fd s.world.world
    pub descriptors : s'.world.descriptors ≡ closed s.client.fd s.world.descriptors
    pub clients : s.world.blocks.clients ≡ 1 + s'.world.blocks.clients
    pub requests : s.world.blocks.requests ≡ 1 + s'.world.blocks.requests
    pub lists : s.world.blocks.lists ≡ 2 + s'.world.blocks.lists
    pub nodes : s.world.blocks.nodes ≡ entries s.client + s'.world.blocks.nodes
    pub subscriptions :
        s.world.blocks.subscriptions ≡ entries s.client + s'.world.blocks.subscriptions
    pub messages : s'.world.blocks.messages ≡ s.world.blocks.messages
    pub payloads : s'.world.blocks.payloads ≡ s.world.blocks.payloads

  -- `emq_disconnect` on a client whose blocks the library holds returns: it has closed the client's
  -- descriptor and no other, and has freed the client, its request, its two lists, and a node and a
  -- subscription for each entry of these; it frees no more, and nothing that is not there.
  pub disconnect-GivenBack :
      (net : Sockets World) (s : State (Host World))
      → Owns s
      → Returns (GivenBack net s) (disconnect net true s)
  unfolding disconnect client_disconnect close_socket
  disconnect-GivenBack net s owns =
      let s' = record s {
        world = record (s.world) {
          world = net.close s.client.fd s.world.world;
          descriptors = closed s.client.fd s.world.descriptors;
        };
      } in
      let owns' : Owns s' = record {
        block = owns.block;
        request = owns.request;
        clients = owns.clients;
        requests = owns.requests;
        lists = owns.lists;
        nodes = owns.nodes;
        subscriptions = owns.subscriptions;
      } in
      Returns-weaken (Released s' 1 1 2 (entries s.client) (entries s.client)) (GivenBack net s)
        (client_release s') (client_release-Released s' owns')
        (λ _ s'' freed. record {
          world = freed.world;
          descriptors = freed.descriptors;
          clients = freed.clients;
          requests = freed.requests;
          lists = freed.lists;
          nodes = freed.nodes;
          subscriptions = freed.subscriptions;
          messages = freed.messages;
          payloads = freed.payloads;
        })
