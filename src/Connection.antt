-- ===== src/Connection.antt =====
-- src/emq.c: `emq_client_init`, `emq_client_release`, `emq_tcp_connect`, `emq_unix_connect` and
-- `emq_disconnect`; src/network.c: the functions that make the connection. The calls of the system
-- are parameters. What the library holds is counted: its blocks by their kind, and its descriptors.
pub mod Runs
pub mod Memory
pub mod Connect
pub mod Attempts
pub mod Opening
pub mod Session
use libemq.Base.{
  ℕ, Bool, Option, List, [], ◌∷◌, length, suc, some, false, ◌+◌, if◌then◌else◌, ◌-◌, true, ◌==◌,
}
use libemq.System.{System}
use libemq.Client.{Client, Prog, ◌>>=◌, ◌>>◌, pure, done, fault, Status, Error}
use libemq.Wire.{Text, encode, decode}
use libemq.Packet.{default_request_size}
use libemq.Listing.{list_struct_size}
use mathlib.Core.List.{reverse}
use libemq.Base.{zero, suc, none, some, true, false, [], ◌∷◌}

-- `AF_INET` and `AF_LOCAL`
pub data Domain : Type 0 where
  inet local : Domain

-- `struct sockaddr_in` and `struct sockaddr_un`: `port` and `ip` as the members hold them.
pub data Address : Type 0 where
  inet_address : (port ip : ℕ) → Address
  local_address : (path : List ℕ) → Address

pub record Sockets (World : Type 0) : Type 0 where
  -- the new descriptor, or `none` for -1
  pub socket : Domain → World → Option ℕ × World
  -- setsockopt(2) with SO_REUSEADDR and with TCP_NODELAY; `false` is -1
  pub reuse_address : ℕ → World → Bool × World
  pub no_delay : ℕ → World → Bool × World
  pub connect : ℕ → Address → World → Bool × World
  pub close : ℕ → World → World
  pub inet_aton : Text → Option ℕ
  -- `h_addr` of the entry, or `none` for `NULL`
  pub gethostbyname : Text → World → Option ℕ × World
  pub errno : World → ℕ
  -- what the last byte of an automatic `struct sockaddr_un` happens to be
  pub last_of_path : World → ℕ

-- The blocks that the library has from `malloc` and has not freed.
pub record Blocks : Type 0 where
  pub clients : ℕ
  pub requests : ℕ
  pub lists : ℕ
  pub nodes : ℕ
  pub subscriptions : ℕ
  -- the structs of messages, and the blocks of their data
  pub messages : ℕ
  pub payloads : ℕ

pub record Host (World : Type 0) : Type 0 where
  pub world : World
  pub blocks : Blocks
  -- the descriptors that it has opened and not closed
  pub descriptors : List ℕ

-- The texts of `net_set_error`, which go to a client that the callers release at once.
pub data NetError : Type 0 where
  socket_error setsockopt_error connect_error : (errno : ℕ) → NetError
  cannot_resolve : Text → NetError

-- `EMQ_NET_ERR` with the error, or what the function returns.
pub data NetResult (A : Type 0) : Type 0 where
  net_ok : A → NetResult A
  net_err : NetError → NetResult A

-- `htons` on a little-endian host
abbrev pub htons : ℕ → ℕ
htons port = decode (reverse (encode 2 port))

-- `strncpy(dst, s, n)`: it fills with NUL bytes.
abbrev pub strncpy : ℕ → Text → List ℕ
strncpy zero s = []
strncpy (suc n) [] = 0 ∷ strncpy n []
strncpy (suc n) (c ∷ s) = c ∷ strncpy n s

-- `sizeof(emq_client)` on a 64-bit host
abbrev pub client_size : ℕ
client_size = 312

-- The descriptors without the first `fd`.
abbrev pub closed : ℕ → List ℕ → List ℕ
closed fd [] = []
closed fd (a ∷ as_) = if a == fd then as_ else a ∷ closed fd as_

-- `emq_client` after the assignments of `emq_client_init`; no list has an entry.
abbrev pub new_client : Option (List ℕ) → Client
new_client request = record {
  status = Status.ok;
  error = Error.no_error;
  request = request;
  size = default_request_size;
  pos = 0;
  noack = 0;
  fd = 0;
  queue_subscriptions = [];
  channel_subscriptions = [];
}

module _ {World : Type 0} where
  -- A call of the system.
  unfoldable pub system_call : {A : Type 0} → (World → A × World) → Prog (Host World) A
  system_call f s =
      let (a, w) = f s.world.world in done a (record s { world = record (s.world) { world = w } })

  abbrev pub set_blocks : Blocks → Prog (Host World) (Unit {0})
  set_blocks b s = done tt (record s { world = record (s.world) { blocks = b } })

  -- `free` of a block of one kind, of which there is one.
  abbrev pub free_one : ℕ → Blocks → Prog (Host World) (Unit {0})
  free_one n b s = if n == 0 then fault else set_blocks b s

  unfoldable pub free_client : Prog (Host World) (Unit {0})
  free_client s =
      let b = s.world.blocks in free_one b.clients (record b { clients = b.clients - 1 }) s

  unfoldable pub free_request : Prog (Host World) (Unit {0})
  free_request s =
      let b = s.world.blocks in free_one b.requests (record b { requests = b.requests - 1 }) s

  unfoldable pub free_list : Prog (Host World) (Unit {0})
  free_list s = let b = s.world.blocks in free_one b.lists (record b { lists = b.lists - 1 }) s

  unfoldable pub free_node : Prog (Host World) (Unit {0})
  free_node s = let b = s.world.blocks in free_one b.nodes (record b { nodes = b.nodes - 1 }) s

  -- `emq_queue_subscription_release` and `emq_channel_subscription_release`
  unfoldable pub free_subscription : Prog (Host World) (Unit {0})
  free_subscription s =
      let b = s.world.blocks in
      free_one b.subscriptions (record b { subscriptions = b.subscriptions - 1 }) s

  -- `emq_list_release` of a list of the client, whose `free` method releases a subscription.
  unfoldable pub release_subscriptions : (length : ℕ) → Prog (Host World) (Unit {0})
  release_subscriptions zero = free_list
  release_subscriptions (suc n) = do free_subscription; free_node; release_subscriptions n

  -- `free(client->request)`
  unfoldable pub release_request : Option (List ℕ) → Prog (Host World) (Unit {0})
  release_request none = pure tt
  release_request (some block) = free_request

  -- `emq_client_release`
  unfoldable pub client_release : Prog (Host World) (Unit {0})
  client_release s =
      (do
        release_subscriptions (length s.client.queue_subscriptions)
        release_subscriptions (length s.client.channel_subscriptions)
        release_request s.client.request
        free_client)
        s

  unfoldable pub count_block :
      (Blocks → Blocks) → Option (List ℕ) → Prog (Host World) (Option (List ℕ))
  count_block more none s = done none s
  count_block more (some block) s =
      done (some block) (record s { world = record (s.world) { blocks = more s.world.blocks } })

module _ {World : Type 0} (sys : System World) where
  -- `malloc`; the block is counted by `more`.
  unfoldable pub new_block : ℕ → (Blocks → Blocks) → Prog (Host World) (Option (List ℕ))
  unfolding count_block
  new_block n more = system_call (sys.malloc n) >>= count_block more

  abbrev pub new_list : Prog (Host World) (Option (List ℕ))
  new_list = new_block list_struct_size (λ b. record b { lists = b.lists + 1 })

  -- The tests at the end of `emq_client_init`: without a list the client is freed and used again.
  unfoldable pub check_init : (request queues channels : Option (List ℕ)) → Prog (Host World) Bool
  check_init none queues channels = do free_client; pure false
  check_init (some r) none channels = do free_request; free_client; λ s. fault
  check_init (some r) (some q) none = do free_list; free_request; free_client; λ s. fault
  check_init (some r) (some q) (some c) = pure true

  -- `emq_client_init`: `false` is `NULL`.
  unfoldable pub client_init : Prog (Host World) Bool
  unfolding new_block
  client_init = do
    block ← new_block client_size (λ b. record b { clients = b.clients + 1 })
    elim block [
      | none ↦ pure false
      | some _ ↦ do
        request ← new_block default_request_size (λ b. record b { requests = b.requests + 1 })
        λ s. done tt (record s { client = new_client request })
        queues ← new_list
        channels ← new_list
        check_init request queues channels
    ]
