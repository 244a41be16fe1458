-- ===== src/Connection/Opening.antt =====
-- `emq_tcp_connect` and `emq_unix_connect` of src/emq.c, when the allocator does not run out.
use libemq.Base.{
  ℕ, Bool, List, true, false, some, ◌∷◌, ◌≡◌, ◌∙◌, ◌+◌, refl, arith, ap, sym, length, Option, subst,
}
use libemq.System.{System, Posix, Ample}
use libemq.Client.{Client, State, Prog, Status, Error, done}
use libemq.Wire.{Text}
use libemq.Packet.{default_request_size}
use libemq.Listing.{list_struct_size}
use libemq.Connection.{
  Host, Blocks, Sockets, NetResult, net_ok, net_err, new_client, client_size, count_block,
  system_call, new_block, client_init, check_init,
}
use libemq.Connection.Connect.{
  client_tcp_connect, client_unix_connect, after_connect, connect_with, tcp_connect, unix_connect,
}
use libemq.Connection.Memory.{entries, Owns, client_release-Released, Released}
use libemq.Connection.Attempts.{
  Connects, Settled, client_tcp_connect-Connects, client_unix_connect-Connects,
}
use libemq.Connection.Runs.{Returns, Returns-and_then, moved}

-- So many clients, requests and lists more, and as many blocks of all other kinds.
abbrev pub Gains : Blocks → (clients requests lists : ℕ) → Blocks → Type 0
Gains b c r l b' =
    (b'.clients ≡ c + b.clients)
    × (b'.requests ≡ r + b.requests)
    × (b'.lists ≡ l + b.lists)
    × (b'.nodes ≡ b.nodes)
    × (b'.subscriptions ≡ b.subscriptions)
    × (b'.messages ≡ b.messages)
    × (b'.payloads ≡ b.payloads)

-- The two functions that connect.
pub data Opens {World : Type 0} (sys : System World) (net : Sockets World)
    : Prog (Host World) Bool → Type 0 where
  tcp : (addr : Text) (port : ℕ) → Opens sys net (tcp_connect sys net addr port)
  unix : (path : Text) → Opens sys net (unix_connect sys net path)

module _ {World : Type 0} where
  -- What is left of a connection that has been made: a client like one that `emq_client_init` has
  -- made, except for its descriptor.
  pub record Established (s s' : State (Host World)) : Type 0 where
    pub block : List ℕ
    pub client : s'.client ≡ record (new_client (some block)) { fd = s'.client.fd }
    pub allocated : length block ≡ default_request_size
    pub blocks : Gains s.world.blocks 1 1 2 s'.world.blocks
    pub descriptors : s'.world.descriptors ≡ s'.client.fd ∷ s.world.descriptors

  abbrev pub Connected : Sockets World → State (Host World) → Bool → State (Host World) → Type 0
  Connected net s true s' = Established s s'
  Connected net s false s' =
      Gains s.world.blocks 0 0 0 s'.world.blocks
      × Settled net s.world.descriptors s'.world.descriptors

module _ {World : Type 0} {sys : System World} (posix : Posix sys) (ample : Ample sys) where
  abbrev gained : State (Host World) → World → (Blocks → Blocks) → State (Host World)
  gained s w more = record s {
    world = record (s.world) { world = w; blocks = more s.world.blocks };
  }

  new_block-provides :
      (n : ℕ) (more : Blocks → Blocks) (s : State (Host World))
      → (block : List ℕ) × (w : World) × (length block ≡ n)
        × (new_block sys n more s ≡ done (some block) (gained s w more))
  unfolding new_block system_call count_block
  new_block-provides n more s =
      let (block, w, e) = ample.provides n s.world.world in
      (
        block,
        w,
        posix.malloc_length n s.world.world w block e,
        ap (λ (p : Option (List ℕ) × World). count_block more p.0 (moved s p.1)) e,
      )

  abbrev Inits : State (Host World) → Bool → State (Host World) → Type 0
  Inits s b s' =
      (b ≡ true)
      × (block : List ℕ) × (s'.client ≡ new_client (some block))
      × (length block ≡ default_request_size)
      × Gains s.world.blocks 1 1 2 s'.world.blocks
      × (s'.world.descriptors ≡ s.world.descriptors)

  client_init-Inits : (s : State (Host World)) → Returns (Inits s) (client_init sys s)
  unfolding client_init check_init
  client_init-Inits s =
      let more_clients = λ (b : Blocks). record b { clients = b.clients + 1 } in
      let more_requests = λ (b : Blocks). record b { requests = b.requests + 1 } in
      let more_lists = λ (b : Blocks). record b { lists = b.lists + 1 } in
      let (b1, w1, len1, e1) = new_block-provides client_size more_clients s in
      let (b2, w2, len2, e2) =
        new_block-provides default_request_size more_requests (gained s w1 more_clients) in
      let s2 = gained (gained s w1 more_clients) w2 more_requests in
      let s3 = record s2 { client = new_client (some b2) } in
      let (b3, w3, len3, e3) = new_block-provides list_struct_size more_lists s3 in
      let (b4, w4, len4, e4) =
        new_block-provides list_struct_size more_lists (gained s3 w3 more_lists) in
      rw (e1, e2, e3, e4)
        (
          refl,
          b2,
          refl,
          len2,
          (omega arith, omega arith, omega arith, refl, refl, refl, refl),
          refl,
        )

  module _ (s s' s'' : State (Host World)) (inits : Inits s true s') (fd : ℕ)
      (ec : s''.client ≡ record (s'.client) { fd = fd })
      (eb : s''.world.blocks ≡ s'.world.blocks) where
    -- The client when `emq_client_tcp_connect` or `emq_client_unix_connect` has returned.
    connected_client : s''.client ≡ record (new_client (some inits.1)) { fd = fd }
    connected_client = ec ∙ ap (λ (c : Client). record c { fd = fd }) inits.2

    connected_Gains : Gains s.world.blocks 1 1 2 s''.world.blocks
    connected_Gains = subst (λ (b : Blocks). Gains s.world.blocks 1 1 2 b) (sym eb) inits.4

    no_entries : entries s''.client ≡ 0
    no_entries = ap entries connected_client

    connected_Owns : Owns s''
    connected_Owns = record {
      block = inits.1;
      request = ap (λ (c : Client). c.request) connected_client;
      clients = omega (arith, connected_Gains.0);
      requests = omega (arith, connected_Gains.1);
      lists = omega (arith, connected_Gains.2);
      nodes = omega (arith, no_entries);
      subscriptions = omega (arith, no_entries);
    }

    Released-Gains :
        (s3 : State (Host World))
        → Released s'' 1 1 2 (entries s''.client) (entries s''.client) tt s3
        → Gains s.world.blocks 0 0 0 s3.world.blocks
    Released-Gains s3 freed = (
      omega (arith, connected_Gains.0, freed.clients),
      omega (arith, connected_Gains.1, freed.requests),
      omega (arith, connected_Gains.2, freed.lists),
      omega (arith, connected_Gains.3, freed.nodes, no_entries),
      omega (arith, connected_Gains.4, freed.subscriptions, no_entries),
      freed.messages ∙ connected_Gains.5,
      freed.payloads ∙ connected_Gains.6,
    )

  after_connect-Connected :
      (net : Sockets World) (s s' s'' : State (Host World)) (r : NetResult ℕ)
      → Inits s true s'
      → Connects net s' r s''
      → Returns (Connected net s) (after_connect r s'')
  unfolding after_connect
  after_connect-Connected net s s' s'' (net_ok a) inits (fd, ec, eb, ed) =
      let c = connected_client s s' s'' inits fd ec eb in
      let same_fd : fd ≡ s''.client.fd = sym (ap (λ (c : Client). c.fd) c) in
      record {
        block = inits.1;
        client =
            ap (λ (c : Client). record c { status = Status.ok }) c
            ∙ ap (λ (f : ℕ). record (new_client (some inits.1)) { fd = f }) same_fd;
        allocated = inits.3;
        blocks = connected_Gains s s' s'' inits fd ec eb;
        descriptors =
            ed
            ∙ (ap (λ (f : ℕ). f ∷ s'.world.descriptors) same_fd
                ∙ ap (λ (ds : List ℕ). s''.client.fd ∷ ds) inits.5);
      }
  after_connect-Connected net s s' s'' (net_err e) inits (fd, ec, eb, ed) =
      Returns-and_then (Released s'' 1 1 2 (entries s''.client) (entries s''.client))
        (Connected net s) _ _ (client_release-Released s'' (connected_Owns s s' s'' inits fd ec eb))
        (λ _ s3 freed. (
          Released-Gains s s' s'' inits fd ec eb s3 freed,
          subst (λ (ds : List ℕ). Settled net ds s3.world.descriptors) inits.5
              (subst (λ (ds : List ℕ). Settled net s'.world.descriptors ds) (sym freed.descriptors)
                ed),
        ))

  connect_with-Connected :
      (net : Sockets World) (s s' : State (Host World)) (connect : Prog (Host World) (NetResult ℕ))
      (b : Bool)
      → Inits s b s'
      → ((s1 : State (Host World)) → Returns (Connects net s1) (connect s1))
      → Returns (Connected net s) (connect_with connect b s')
  unfolding connect_with
  connect_with-Connected net s s' connect false inits connects = cc (inits.0)
  connect_with-Connected net s s' connect true (e, block, client, len, gains, same) connects =
      let s1 = record s' { client = record (s'.client) { error = Error.no_error } } in
      let inits : Inits s true s1 = (
        refl,
        block,
        ap (λ (c : Client). record c { error = Error.no_error }) client,
        len,
        gains,
        same,
      ) in
      Returns-and_then (Connects net s1) (Connected net s) (connect s1) _ (connects s1)
        (λ r s'' connected. after_connect-Connected net s s1 s'' r inits connected)

  -- `emq_tcp_connect` and `emq_unix_connect` return, whatever the calls that make the connection
  -- answer, with an allocator that does not run out. Either the function has made a client like the
  -- one of `emq_client_init`, with the new descriptor, and the library holds this descriptor and
  -- four blocks more; or it returns `NULL`, and the library holds the blocks that it held, and its
  -- descriptors, but for one more if `setsockopt` has refused SO_REUSEADDR for it.
  pub connect-Connected :
      (net : Sockets World) (run : Prog (Host World) Bool) (s : State (Host World))
      → Opens sys net run
      → Returns (Connected net s) (run s)
  unfolding tcp_connect unix_connect
  connect-Connected net run s (tcp addr port) =
      Returns-and_then (Inits s) (Connected net s) _ _ (client_init-Inits s) (λ b s' inits.
        connect_with-Connected net s s' (client_tcp_connect net addr port) b inits
          (λ s1. client_tcp_connect-Connects net s1 addr port))
  connect-Connected net run s (unix path) =
      Returns-and_then (Inits s) (Connected net s) _ _ (client_init-Inits s) (λ b s' inits.
        connect_with-Connected net s s' (client_unix_connect net path) b inits
          (λ s1. client_unix_connect-Connects net s1 path))
