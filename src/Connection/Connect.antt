-- ===== src/Connection/Connect.antt =====
-- src/network.c: `emq_client_tcp_connect`, `emq_client_unix_connect` and `emq_client_disconnect`;
-- src/emq.c: `emq_tcp_connect`, `emq_unix_connect` and `emq_disconnect`.
use libemq.Base.{ℕ, Bool, Option, true, false, none, some, [], ◌∷◌, ◌++◌, ◌^◌, ◌-◌}
use libemq.System.{System}
use libemq.Client.{Prog, ◌>>=◌, ◌>>◌, pure, done, Status, set_status, clear_error}
use libemq.Wire.{Text}
use libemq.Connection.{
  Sockets, Host, NetResult, NetError, net_ok, net_err, Domain, Address, system_call, client_init,
  client_release, htons, strncpy, closed,
}

module _ {World : Type 0} (net : Sockets World) where
  -- `net_set_error(err, "…: %s", strerror(errno)); return EMQ_NET_ERR;`
  unfoldable pub fail_with : {A : Type 0} → (ℕ → NetError) → Prog (Host World) (NetResult A)
  fail_with e s = done (net_err (e (net.errno s.world.world))) s

  unfoldable pub close_socket : ℕ → Prog (Host World) (Unit {0})
  close_socket fd s = done tt (record s {
    world = record (s.world) {
      world = net.close fd s.world.world;
      descriptors = closed fd s.world.descriptors;
    };
  })

  -- The tests of `setsockopt` and of `connect`.
  unfoldable pub test_call :
      Bool → (ℕ → NetError) → Prog (Host World) (NetResult ℕ) → Prog (Host World) (NetResult ℕ)
  unfolding fail_with
  test_call true e go_on = go_on
  test_call false e go_on = fail_with e

  unfoldable pub new_socket : Option ℕ → Prog (Host World) (NetResult ℕ)
  unfolding system_call test_call fail_with
  new_socket none = fail_with NetError.socket_error
  new_socket (some fd) = do
    λ s. done tt (record s { world = record (s.world) { descriptors = fd ∷ s.world.descriptors } })
    ok ← system_call (net.reuse_address fd)
    test_call ok NetError.setsockopt_error (pure (net_ok fd))

  unfoldable pub net_create_socket : Domain → Prog (Host World) (NetResult ℕ)
  unfolding new_socket
  net_create_socket domain = do sock ← system_call (net.socket domain); new_socket sock

  unfoldable pub net_tcp_nodelay : ℕ → Prog (Host World) (NetResult ℕ)
  net_tcp_nodelay fd = do
    ok ← system_call (net.no_delay fd)
    test_call ok NetError.setsockopt_error (pure (net_ok fd))

  -- `client->fd = …`, and `EMQ_NET_ERR` at once if it is -1.
  unfoldable pub with_socket :
      NetResult ℕ → (ℕ → Prog (Host World) (NetResult ℕ)) → Prog (Host World) (NetResult ℕ)
  with_socket (net_err e) k s =
      done (net_err e) (record s { client = record (s.client) { fd = 2 ^ 32 - 1 } })
  with_socket (net_ok fd) k s = k fd (record s { client = record (s.client) { fd = fd } })

  -- `close(client->fd)` where a call after the socket has failed.
  unfoldable pub or_close : ℕ → NetResult ℕ → Prog (Host World) (NetResult ℕ)
  or_close fd (net_ok a) = pure (net_ok a)
  or_close fd (net_err e) = do close_socket fd; pure (net_err e)

  unfoldable pub connect_socket : ℕ → Address → Prog (Host World) (NetResult ℕ)
  connect_socket fd address = do
    ok ← system_call (net.connect fd address)
    test_call ok NetError.connect_error (pure (net_ok fd))

  -- `inet_aton`, and `gethostbyname` if it fails.
  unfoldable pub or_look_up : Text → Option ℕ → Prog (Host World) (Option ℕ)
  or_look_up addr none = system_call (net.gethostbyname addr)
  or_look_up addr (some ip) = pure (some ip)

  unfoldable pub resolve : Text → Prog (Host World) (Option ℕ)
  resolve addr = or_look_up addr (net.inet_aton addr)

  unfoldable pub then_nodelay : NetResult ℕ → Prog (Host World) (NetResult ℕ)
  then_nodelay (net_err e) = pure (net_err e)
  then_nodelay (net_ok fd) = net_tcp_nodelay fd

  unfoldable pub connect_to : Text → (port fd : ℕ) → Option ℕ → Prog (Host World) (NetResult ℕ)
  connect_to addr port fd none = pure (net_err (NetError.cannot_resolve addr))
  connect_to addr port fd (some ip) =
      connect_socket fd (Address.inet_address (htons port) ip) >>= then_nodelay

  unfoldable pub client_tcp_connect : Text → (port : ℕ) → Prog (Host World) (NetResult ℕ)
  client_tcp_connect addr port = do
    sock ← net_create_socket Domain.inet
    with_socket sock (λ fd. (do ip ← resolve addr; connect_to addr port fd ip) >>= or_close fd)

  -- The last byte of the path's array keeps what it was.
  unfoldable pub client_unix_connect : Text → Prog (Host World) (NetResult ℕ)
  client_unix_connect path = do
    sock ← net_create_socket Domain.local
    with_socket sock λ fd.
        (do
          last ← system_call (λ w. (net.last_of_path w, w))
          connect_socket fd (Address.local_address (strncpy 107 path ++ last ∷ [])))
        >>= or_close fd

  unfoldable pub client_disconnect : Prog (Host World) (Unit {0})
  client_disconnect s = close_socket s.client.fd s

  -- `if (client != NULL) { … }` of `emq_disconnect`
  unfoldable pub disconnect : (client : Bool) → Prog (Host World) (Unit {0})
  disconnect false = pure tt
  disconnect true = do client_disconnect; client_release

module _ {World : Type 0} where
  -- The end of `emq_tcp_connect` and `emq_unix_connect`: `false` is `NULL`.
  unfoldable pub after_connect : NetResult ℕ → Prog (Host World) Bool
  after_connect (net_err e) = do client_release; pure false
  after_connect (net_ok fd) = do set_status Status.ok; pure true

  -- What follows `emq_client_init`, whose `NULL` is `false`.
  unfoldable pub connect_with : Prog (Host World) (NetResult ℕ) → Bool → Prog (Host World) Bool
  unfolding after_connect
  connect_with connect false = pure false
  connect_with connect true = do clear_error; r ← connect; after_connect r

module _ {World : Type 0} (sys : System World) where
  unfoldable pub tcp_connect : Sockets World → Text → (port : ℕ) → Prog (Host World) Bool
  unfolding connect_with
  tcp_connect net addr port = client_init sys >>= connect_with (client_tcp_connect net addr port)

  unfoldable pub unix_connect : Sockets World → Text → Prog (Host World) Bool
  unfolding connect_with
  unix_connect net path = client_init sys >>= connect_with (client_unix_connect net path)
