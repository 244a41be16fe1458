-- ===== src/System.antt =====
-- The operating system as src/network.c, src/packet.c and src/emq.c use it: the calls as
-- parameters over an unknown world, and what their manual pages promise as laws.
pub mod Pipe
pub mod Limit
use libemq.Base.{ℕ, ◌≤◌, ◌≡◌, Option, some, List, ◌++◌, length, take, ◌<◌, ◌∷◌, suc, none, ◌^◌}

-- read(2): the bytes that it stored (none at end of file), or -1.
pub data Reading : Type 0 where
  received : List ℕ → Reading
  read_error : Reading

-- write(2) and writev(2): a count, or -1; `interrupted` is -1 with `errno == EINTR`.
pub data Writing : Type 0 where
  written : ℕ → Writing
  interrupted : Writing
  write_error : Writing

pub record System (World : Type 0) : Type 0 where
  -- file descriptor, room in the buffer
  pub read : ℕ → ℕ → World → Reading × World
  pub write : ℕ → List ℕ → World → Writing × World
  -- the vectors one after the other, as the kernel gathers them
  pub writev : ℕ → List ℕ → World → Writing × World
  -- a new block with its unspecified content, or `NULL`
  pub malloc : ℕ → World → Option (List ℕ) × World
  pub realloc : Option (List ℕ) → ℕ → World → Option (List ℕ) × World
  -- how often the model lets `writev` be tried again
  pub patience : ℕ

-- What a stream socket and the allocator promise. `incoming` is what the peer sends and the
-- client has not read, `sent` what the kernel has taken from the client.
pub record Posix {World : Type 0} (sys : System World) : Type 0 where
  pub incoming : ℕ → World → List ℕ
  pub sent : ℕ → World → List ℕ
  pub read_received :
      (fd n : ℕ) (w w' : World) (bs : List ℕ)
      → sys.read fd n w ≡ (received bs, w')
      → (length bs ≤ n) × (incoming fd w ≡ bs ++ incoming fd w') × (sent fd w' ≡ sent fd w)
  pub read_error_streams :
      (fd n : ℕ) (w w' : World)
      → sys.read fd n w ≡ (read_error, w')
      → (sent fd w' ≡ sent fd w) × (length (incoming fd w') ≤ length (incoming fd w))
  pub write_written :
      (fd : ℕ) (bs : List ℕ) (w w' : World) (k : ℕ)
      → sys.write fd bs w ≡ (written k, w')
      → (k ≤ length bs) × (sent fd w' ≡ sent fd w ++ take k bs) × (incoming fd w' ≡ incoming fd w)
  pub write_error_streams :
      (fd : ℕ) (bs : List ℕ) (w w' : World)
      → sys.write fd bs w ≡ (write_error, w')
      → (sent fd w' ≡ sent fd w) × (incoming fd w' ≡ incoming fd w)
  pub write_interrupted :
      (fd : ℕ) (bs : List ℕ) (w w' : World)
      → sys.write fd bs w ≡ (interrupted, w')
      → (sent fd w' ≡ sent fd w) × (incoming fd w' ≡ incoming fd w)
  pub writev_written :
      (fd : ℕ) (bs : List ℕ) (w w' : World) (k : ℕ)
      → sys.writev fd bs w ≡ (written k, w')
      → (k ≤ length bs) × (sent fd w' ≡ sent fd w ++ take k bs) × (incoming fd w' ≡ incoming fd w)
  pub writev_error_streams :
      (fd : ℕ) (bs : List ℕ) (w w' : World)
      → sys.writev fd bs w ≡ (write_error, w')
      → (sent fd w' ≡ sent fd w) × (incoming fd w' ≡ incoming fd w)
  pub writev_interrupted :
      (fd : ℕ) (bs : List ℕ) (w w' : World)
      → sys.writev fd bs w ≡ (interrupted, w')
      → (sent fd w' ≡ sent fd w) × (incoming fd w' ≡ incoming fd w)
  pub malloc_length :
      (n : ℕ) (w w' : World) (block : List ℕ) → sys.malloc n w ≡ (some block, w') → length block ≡ n
  pub malloc_streams :
      (fd n : ℕ) (w : World)
      → (incoming fd (sys.malloc n w).1 ≡ incoming fd w) × (sent fd (sys.malloc n w).1 ≡ sent fd w)
  pub realloc_length :
      (old : Option (List ℕ)) (n : ℕ) (w w' : World) (block : List ℕ)
      → sys.realloc old n w ≡ (some block, w')
      → length block ≡ n

-- A connection that works: while bytes are to come a read gives some, and a write takes some.
pub record Reliable {World : Type 0} {sys : System World} (posix : Posix sys) : Type 0 where
  pub read_some :
      (fd n : ℕ) (w : World)
      → 0 < n
      → 0 < length (posix.incoming fd w)
      → (b : ℕ) × (bs : List ℕ) × (w' : World) × (sys.read fd n w ≡ (received (b ∷ bs), w'))
  pub write_some :
      (fd : ℕ) (bs : List ℕ) (w : World)
      → 0 < length bs
      → (k : ℕ) × (w' : World) × (sys.write fd bs w ≡ (written (suc k), w'))

-- An allocator that never runs out.
pub record Ample {World : Type 0} (sys : System World) : Type 0 where
  pub provides :
      (n : ℕ) (w : World) → (block : List ℕ) × (w' : World) × (sys.malloc n w ≡ (some block, w'))

-- An allocator that gives no block of 2 GiB or more, as under a limit on the address space
-- (setrlimit(2) with RLIMIT_AS).
pub record Limited {World : Type 0} (sys : System World) : Type 0 where
  pub refuses : (n : ℕ) (w : World) → 2 ^ 31 ≤ n → (sys.malloc n w).0 ≡ none

-- A connection that takes all the bytes of its vectors at once.
pub record Gathers {World : Type 0} (sys : System World) : Type 0 where
  pub patient : 0 < sys.patience
  pub whole :
      (fd : ℕ) (bs : List ℕ) (w : World)
      → (w' : World) × (sys.writev fd bs w ≡ (written (length bs), w'))
