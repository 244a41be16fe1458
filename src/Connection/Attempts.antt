-- ===== src/Connection/Attempts.antt =====
-- `emq_client_tcp_connect` and `emq_client_unix_connect` of src/network.c, whatever the calls of the
-- system answer.
use libemq.Base.{
  ◌++◌, Option, ℕ, Bool, List, true, false, none, some, [], ◌∷◌, inl, inr, ◌⊎◌, ◌≡◌, ◌∙◌, ◌^◌, ◌-◌,
  refl, ap, ==_refl, Option,
}
use libemq.Client.{Client, State, Prog, and_then, ◌>>=◌, done}
use libemq.Wire.{Text}
use libemq.Connection.{
  Host, Sockets, Domain, Address, NetResult, NetError, net_ok, net_err, closed, strncpy,
  system_call,
}
use libemq.Connection.Connect.{
  test_call, new_socket, net_create_socket, net_tcp_nodelay, with_socket, or_close, connect_socket,
  or_look_up, resolve, connect_to, client_tcp_connect, client_unix_connect, fail_with, close_socket,
  then_nodelay,
}
use libemq.Connection.Runs.{Returns, Returns-and_then, Returns-weaken, call-Returns, moved}

pub closed_head : (fd : ℕ) (ds : List ℕ) → closed fd (fd ∷ ds) ≡ ds
closed_head fd ds = rw (==_refl fd) refl

module _ {World : Type 0} (net : Sockets World) where
  -- Only calls of the system have been made.
  abbrev Keeps : State (Host World) → NetResult ℕ → State (Host World) → Type 0
  Keeps s r s' =
      (s'.client ≡ s.client)
      × (s'.world.blocks ≡ s.world.blocks)
      × (s'.world.descriptors ≡ s.world.descriptors)

  -- A descriptor for which `setsockopt` has refused SO_REUSEADDR.
  abbrev pub Refused : ℕ → Type 0
  Refused fd = (w : World) × ((net.reuse_address fd w).0 ≡ false)

  -- The descriptors as they were, or with one more that `setsockopt` has refused.
  abbrev pub Settled : List ℕ → List ℕ → Type 0
  Settled before after = (after ≡ before) ⊎ ((fd : ℕ) × Refused fd × (after ≡ fd ∷ before))

  abbrev Created : State (Host World) → NetResult ℕ → State (Host World) → Type 0
  Created s (net_ok fd) s' =
      (s'.client ≡ s.client)
      × (s'.world.blocks ≡ s.world.blocks)
      × (s'.world.descriptors ≡ fd ∷ s.world.descriptors)
  Created s (net_err e) s' =
      (s'.client ≡ s.client)
      × (s'.world.blocks ≡ s.world.blocks)
      × Settled s.world.descriptors s'.world.descriptors

  reuse_address-Created :
      (s : State (Host World)) (fd : ℕ) (b : Bool) (w w0 : World)
      → net.reuse_address fd w0 ≡ (b, w)
      → Returns (Created s) (
          test_call net b NetError.setsockopt_error
            (λ s'. done (net_ok fd) s')
            (record s {
              world = record (s.world) { world = w; descriptors = fd ∷ s.world.descriptors };
            }))
  unfolding test_call fail_with
  reuse_address-Created s fd true w w0 e = (refl, refl, refl)
  reuse_address-Created s fd false w w0 e =
      (refl, refl, inr (fd, (w0, ap (λ (r : Bool × World). r.0) e), refl))

  new_socket-Created :
      (s : State (Host World)) (sock : Option ℕ) (w : World)
      → Returns (Created s) (new_socket net sock (moved s w))
  unfolding new_socket fail_with
  new_socket-Created s none w = (refl, refl, inl refl)
  new_socket-Created s (some fd) w =
      call-Returns (Created s) (net.reuse_address fd)
        (record s {
          world = record (s.world) { world = w; descriptors = fd ∷ s.world.descriptors };
        })
        (λ b. test_call net b NetError.setsockopt_error (λ s'. done (net_ok fd) s'))
        (λ b w' e. reuse_address-Created s fd b w' w e)

  net_create_socket-Created :
      (s : State (Host World)) (domain : Domain)
      → Returns (Created s) (net_create_socket net domain s)
  unfolding net_create_socket
  net_create_socket-Created s domain =
      call-Returns (Created s) (net.socket domain) s (new_socket net)
        (λ sock w e. new_socket-Created s sock w)

  test_call-Keeps :
      (s : State (Host World)) (b : Bool) (e : ℕ → NetError)
      (go_on : Prog (Host World) (NetResult ℕ)) (w : World)
      → Returns (Keeps s) (go_on (moved s w))
      → Returns (Keeps s) (test_call net b e go_on (moved s w))
  unfolding test_call fail_with
  test_call-Keeps s true e go_on w h = h
  test_call-Keeps s false e go_on w h = (refl, refl, refl)

  connect_socket-Keeps :
      (s : State (Host World)) (fd : ℕ) (address : Address)
      → Returns (Keeps s) (connect_socket net fd address s)
  unfolding connect_socket
  connect_socket-Keeps s fd address =
      call-Returns (Keeps s) (net.connect fd address) s _
        (λ b w e. test_call-Keeps s b NetError.connect_error _ w (refl, refl, refl))

  net_tcp_nodelay-Keeps :
      (s : State (Host World)) (fd : ℕ) → Returns (Keeps s) (net_tcp_nodelay net fd s)
  unfolding net_tcp_nodelay
  net_tcp_nodelay-Keeps s fd =
      call-Returns (Keeps s) (net.no_delay fd) s _
        (λ b w e. test_call-Keeps s b NetError.setsockopt_error _ w (refl, refl, refl))

  Keeps-trans :
      (s s' s'' : State (Host World)) (r r' : NetResult ℕ)
      → Keeps s r s'
      → Keeps s' r' s''
      → Keeps s r' s''
  Keeps-trans s s' s'' r r' a b = (b.0 ∙ a.0, b.1 ∙ a.1, b.2 ∙ a.2)

  then_nodelay-Keeps :
      (s s' : State (Host World)) (r : NetResult ℕ)
      → Keeps s r s'
      → Returns (Keeps s) (then_nodelay net r s')
  unfolding then_nodelay
  then_nodelay-Keeps s s' (net_err e) kept = kept
  then_nodelay-Keeps s s' (net_ok fd) kept =
      Returns-weaken (Keeps s') (Keeps s) _ (net_tcp_nodelay-Keeps s' fd)
        (λ r' s'' kept'. Keeps-trans s s' s'' (net_ok fd) r' kept kept')

  connect_to-Keeps :
      (s : State (Host World)) (addr : Text) (port fd : ℕ) (ip : Option ℕ) (w : World)
      → Returns (Keeps s) (connect_to net addr port fd ip (moved s w))
  unfolding connect_to
  connect_to-Keeps s addr port fd none w = (refl, refl, refl)
  connect_to-Keeps s addr port fd (some ip) w =
      Returns-and_then (Keeps s) (Keeps s) _ _ (connect_socket-Keeps (moved s w) fd _)
        (λ r s' kept. then_nodelay-Keeps s s' r kept)

  look_up-then :
      (s : State (Host World)) (addr : Text) (ip : Option ℕ)
      (k : Option ℕ → Prog (Host World) (NetResult ℕ))
      → ((ip' : Option ℕ) (w : World) → Returns (Keeps s) (k ip' (moved s w)))
      → Returns (Keeps s) (and_then (or_look_up net addr ip s) k)
  unfolding or_look_up
  look_up-then s addr none k next =
      call-Returns (Keeps s) (net.gethostbyname addr) s k (λ ip w e. next ip w)
  look_up-then s addr (some ip) k next = next (some ip) s.world.world

  -- What `emq_client_tcp_connect` and `emq_client_unix_connect` have done to the client and to what
  -- the library holds.
  abbrev pub Connects : State (Host World) → NetResult ℕ → State (Host World) → Type 0
  Connects s (net_ok a) s' =
      (fd : ℕ) × (s'.client ≡ record (s.client) { fd = fd })
      × (s'.world.blocks ≡ s.world.blocks)
      × (s'.world.descriptors ≡ fd ∷ s.world.descriptors)
  Connects s (net_err e) s' =
      (fd : ℕ) × (s'.client ≡ record (s.client) { fd = fd })
      × (s'.world.blocks ≡ s.world.blocks)
      × Settled s.world.descriptors s'.world.descriptors

  or_close-Connects :
      (s s1 s' : State (Host World)) (fd : ℕ) (r : NetResult ℕ)
      → s1.client ≡ record (s.client) { fd = fd }
      → s1.world.blocks ≡ s.world.blocks
      → s1.world.descriptors ≡ fd ∷ s.world.descriptors
      → Keeps s1 r s'
      → Returns (Connects s) (or_close net fd r s')
  unfolding or_close close_socket
  or_close-Connects s s1 s' fd (net_ok a) client blocks descriptors kept =
      (fd, kept.0 ∙ client, kept.1 ∙ blocks, kept.2 ∙ descriptors)
  or_close-Connects s s1 s' fd (net_err e) client blocks descriptors kept = (
    fd,
    kept.0 ∙ client,
    kept.1 ∙ blocks,
    inl (ap (closed fd) (kept.2 ∙ descriptors) ∙ closed_head fd s.world.descriptors),
  )

  with_socket-Connects :
      (s s0 : State (Host World)) (r : NetResult ℕ) (k : ℕ → Prog (Host World) (NetResult ℕ))
      → Created s r s0
      → ((fd : ℕ) (s1 : State (Host World)) → Returns (Keeps s1) (k fd s1))
      → Returns (Connects s) (with_socket net r (λ fd. k fd >>= or_close net fd) s0)
  unfolding with_socket
  with_socket-Connects s s0 (net_err e) k created next = (
    2 ^ 32 - 1,
    ap (λ (c : Client). record c { fd = 2 ^ 32 - 1 }) created.0,
    created.1,
    created.2,
  )
  with_socket-Connects s s0 (net_ok fd) k created next =
      let s1 = record s0 { client = record (s0.client) { fd = fd } } in
      Returns-and_then (Keeps s1) (Connects s) (k fd s1) _ (next fd s1) (λ r s' kept.
        or_close-Connects s s1 s' fd r (ap (λ (c : Client). record c { fd = fd }) created.0)
          created.1 created.2 kept)

  pub client_tcp_connect-Connects :
      (s : State (Host World)) (addr : Text) (port : ℕ)
      → Returns (Connects s) (client_tcp_connect net addr port s)
  unfolding client_tcp_connect resolve
  client_tcp_connect-Connects s addr port =
      Returns-and_then (Created s) (Connects s) _ _ (net_create_socket-Created s Domain.inet)
        (λ r s0 created.
          with_socket-Connects s s0 r (λ fd. resolve net addr >>= connect_to net addr port fd)
            created
            (λ fd s1.
              look_up-then s1 addr (net.inet_aton addr) _
                (λ ip w. connect_to-Keeps s1 addr port fd ip w)))

  pub client_unix_connect-Connects :
      (s : State (Host World)) (path : Text) → Returns (Connects s) (client_unix_connect net path s)
  unfolding client_unix_connect
  client_unix_connect-Connects s path =
      Returns-and_then (Created s) (Connects s) _ _ (net_create_socket-Created s Domain.local)
        (λ r s0 created.
          with_socket-Connects s s0 r
            (λ fd. system_call (λ w. (net.last_of_path w, w)) >>= λ last.
              connect_socket net fd (Address.local_address (strncpy 107 path ++ last ∷ [])))
            created
            (λ fd s1.
              call-Returns (Keeps s1) (λ w. (net.last_of_path w, w)) s1 _
                (λ last w e. connect_socket-Keeps (moved s1 w) fd _)))
