-- ===== src/Message/Blocks.antt =====
-- Blocks of memory, and blocks that are read from the stream (src/emq.c), when neither the allocator
-- nor the connection fails.
use libemq.Base.{refl, ℕ, true, some, ◌≡◌, List, length, ◌<◌, ◌^◌, ◌++◌, ◌%◌, arith, ltb}
use libemq.System.{System, Posix, Reliable, Ample}
use libemq.Client.{Prog, State, done}
use libemq.Message.{read_bytes, allocate}
use libemq.Network.Takes.{Takes, client_read-Takes}

module _ {World : Type 0} {sys : System World} (posix : Posix sys) where
  -- The step returns, leaves the client alone, and touches no stream.
  abbrev pub Allocates : {A : Type 0} → A → Prog World A → State World → Type 0
  Allocates a m s =
      (w : World) × (m s ≡ done a (record { client = s.client; world = w }))
      × (posix.sent s.client.fd w ≡ posix.sent s.client.fd s.world)
      × (posix.incoming s.client.fd w ≡ posix.incoming s.client.fd s.world)

module _ {World : Type 0} {sys : System World} (posix : Posix sys) (ample : Ample sys) where
  pub allocate-provides :
      (n : ℕ) (s : State World)
      → (block : List ℕ) × (w : World) × (allocate sys n s
          ≡ done (some block) (record { client = s.client; world = w }))
        × (posix.sent s.client.fd w ≡ posix.sent s.client.fd s.world)
        × (posix.incoming s.client.fd w ≡ posix.incoming s.client.fd s.world)
  unfolding allocate
  allocate-provides n s =
      let (block, w, e) = ample.provides n s.world in
      let (kept, out) = posix.malloc_streams s.client.fd n s.world in
      (block, w, rw e refl, rw e at out, rw e at kept)

module _ {World : Type 0} {sys : System World} {posix : Posix sys} (works : Reliable posix) where
  pub read_bytes-Takes :
      (n : ℕ) (bs rest : List ℕ) (s : State World)
      → length bs ≡ n
      → n < 2 ^ 31
      → posix.incoming s.client.fd s.world ≡ bs ++ rest
      → Takes posix (some bs) rest s (read_bytes sys n s)
  unfolding read_bytes
  read_bytes-Takes n bs rest s len small e =
      let same : n % 2 ^ 32 ≡ n = omega arith in
      let test : ltb n (2 ^ 31) ≡ true = ground arith in
      rw (same, test) (client_read-Takes works n bs rest s len e)
