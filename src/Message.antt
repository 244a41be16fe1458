-- ===== src/Message.antt =====
-- `emq_msg` of src/emq.h: the functions of src/emq.c that make, copy, read and release messages.
pub mod Blocks
pub mod Copies
use libemq.Base.{
  ℕ, none, some, List, ◌+◌, Option, if◌then◌else◌, ◌^◌, ◌-◌, ltb, ◌%◌, ◌==◌, take, length, ◌∷◌, [],
}
use libemq.System.{System}
use libemq.Client.{Prog, Error, fault, done, ◌>>=◌, pure}
use libemq.Network.{client_read}
use libemq.Wire.{decode}

-- `data` is the block that the pointer leads to; the caller's own block if `zero_copy` is set.
pub record Message : Type 0 where
  pub payload : List ℕ
  pub size : ℕ
  pub tag : ℕ
  pub expire : ℕ
  pub zero_copy : ℕ

-- `sizeof(emq_msg)` on a 64-bit host
abbrev pub message_struct_size : ℕ
message_struct_size = 32

-- `EMQ_ZEROCOPY_OFF`
abbrev zerocopy_off : ℕ
zerocopy_off = 0

abbrev pub new_message : List ℕ → (size zero_copy : ℕ) → Message
new_message payload size zero_copy = record {
  payload = payload;
  size = size;
  tag = 0;
  expire = 0;
  zero_copy = zero_copy;
}

module _ {World : Type 0} (sys : System World) where
  -- `malloc`, as a step of a program: the block with its unspecified content, or `none`.
  unfoldable pub allocate : ℕ → Prog World (Option (List ℕ))
  allocate n s = let (block, w) = sys.malloc n s.world in done block (record s { world = w })

  -- `emq_client_read` with a `size_t` or a `uint32_t` for its `int` count. A count that becomes
  -- negative sends the loop past the buffer.
  unfoldable pub read_bytes : ℕ → Prog World (Option (List ℕ))
  read_bytes n s = if ltb (n % 2 ^ 32) (2 ^ 31) then client_read sys (n % 2 ^ 32) s else fault

  -- The step, or on `none` an error stored and `none` returned.
  abbrev pub or_error :
      {A B : Type 0} → Error → Option A → (A → Prog World (Option B)) → Prog World (Option B)
  or_error e none k s = done none (record s { client = record (s.client) { error = e } })
  or_error e (some a) k s = k a s

  -- `emq_read_message`: `none` is `NULL`.
  unfoldable pub read_message : ℕ → Prog World (Option Message)
  read_message size = do
    msg ← allocate message_struct_size
    or_error Error.alloc msg λ _. do
      block ← allocate size
      or_error Error.alloc block λ _. do
        bytes ← read_bytes size
        or_error Error.read bytes λ payload. pure (
            some (record {
              payload = payload;
              size = size;
              tag = 0;
              expire = 0;
              zero_copy = zerocopy_off;
            }))

  -- `size - sizeof(tag)` on a `size_t`
  abbrev pub less_tag : ℕ → ℕ
  less_tag size = (size + 2 ^ 64 - 8) % 2 ^ 64

  -- `msg->tag = tag`, a fault at `NULL`.
  unfoldable pub set_tag : ℕ → Option Message → Prog World (Option Message)
  set_tag tag none s = fault
  set_tag tag (some msg) s = done (some (record msg { tag = tag })) s

  -- `emq_read_message_tag`. The result of `emq_read_message` is used without a test for `NULL`.
  unfoldable pub read_message_tag : ℕ → Prog World (Option Message)
  read_message_tag size = do
    tag ← client_read sys 8
    elim tag [ none ↦ pure none | some bs ↦ read_message (less_tag size) >>= set_tag (decode bs) ]

  -- `memcpy(msg->data, data, size)` into the block that `malloc` gave; past the caller's data it
  -- is a fault.
  copy_data : List ℕ → (size zero_copy : ℕ) → Option (List ℕ) → Prog World (Option Message)
  copy_data payload size zero_copy none s = done none s
  copy_data payload size zero_copy (some block) s =
      if ltb (length payload) size
      then fault
      else done (some (new_message (take size payload) size zero_copy)) s

  -- `emq_msg_create`: without `zero_copy` the data are copied into a block of their own.
  unfoldable pub msg_create : List ℕ → (size zero_copy : ℕ) → Prog World (Option Message)
  unfolding copy_data
  msg_create payload size zero_copy = do
    msg ← allocate message_struct_size
    elim msg [
      | none ↦ pure none
      | some _ ↦
          if zero_copy == 0
          then (allocate size >>= copy_data payload size zero_copy)
          else pure (some (new_message payload size zero_copy))
    ]

  -- The copy of the data into the block that `malloc` gave.
  copy_block : ℕ → Message → Option (List ℕ) → Prog World (Option Message)
  copy_block left msg none s = done none s
  copy_block left msg (some block) s =
      if ltb (length msg.payload) msg.size
      then fault
      else done (some (record msg { payload = take msg.size msg.payload; zero_copy = left })) s

  -- `emq_msg_copy`. It does not set `zero_copy` in the copy: `left` is what the new block holds there.
  unfoldable msg_copy : (left : ℕ) → Message → Prog World (Option Message)
  unfolding copy_block
  msg_copy left msg = do
    new_msg ← allocate message_struct_size
    elim new_msg [ none ↦ pure none | some _ ↦ allocate msg.size >>= copy_block left msg ]

-- The blocks of a message.
pub data Block : Type 0 where
  data_block struct_block : Block

-- `emq_msg_release`: the blocks that it frees, in order.
abbrev pub msg_release : Message → List Block
msg_release msg = if msg.zero_copy == 0 then data_block ∷ struct_block ∷ [] else struct_block ∷ []

unfoldable pub msg_expire : Message → ℕ → Message
msg_expire msg time = record msg { expire = time }

unfoldable msg_data : Message → List ℕ
msg_data msg = msg.payload

unfoldable msg_size : Message → ℕ
msg_size msg = msg.size

unfoldable msg_tag : Message → ℕ
msg_tag msg = msg.tag
