-- ===== src/Listing.antt =====
-- The lists that the functions of src/emq.c make of a response: the structs of src/emq.h, and the
-- loop that copies one record after the other into a new list.
pub mod Records
pub mod Loop
use libemq.Base.{
  zero, refl, ℕ, suc, true, false, none, some, [], ◌∷◌, if◌then◌else◌, take, List, drop, ltb,
  Option, length, ◌+◌, ◌%◌, ◌^◌,
}
use libemq.System.{System}
use libemq.Protocol.{ResponseHeader}
use libemq.Wire.{decode}
use libemq.Client.{Prog, ◌>>=◌, stuck, and_then, ◌>>◌, pure, fault, done, Error}
use libemq.Message.{allocate, read_bytes}
use libemq.Subscription.{list_node_size}
use libemq.Api.{require_some}

-- `emq_user`; a `char` array keeps all its bytes.
pub record User : Type 0 where
  pub name : List ℕ
  pub password : List ℕ
  pub perm : ℕ

-- `emq_queue`
pub record Queue : Type 0 where
  pub name : List ℕ
  pub max_msg : ℕ
  pub max_msg_size : ℕ
  pub flags : ℕ
  pub size : ℕ
  pub declared_clients : ℕ
  pub subscribed_clients : ℕ

-- `emq_route`
pub record Route : Type 0 where
  pub name : List ℕ
  pub flags : ℕ
  pub keys : ℕ

-- `emq_route_key`
pub record RouteKey : Type 0 where
  pub key : List ℕ
  pub queue : List ℕ

-- `emq_channel`
pub record Channel : Type 0 where
  pub name : List ℕ
  pub flags : ℕ
  pub topics : ℕ
  pub patterns : ℕ

-- `memcpy(&member, buffer + i, n); i += n;` for a member that is a number.
abbrev word_here : ℕ → List ℕ → ℕ
word_here n bs = decode (take n bs)

-- How many bytes a record has in the response and in memory, and the copying of its members.
pub record Layout (A : Type 0) : Type 0 where
  pub wire : ℕ
  pub block : ℕ
  pub copy : List ℕ → A

-- `emq_user_init` and the copies of `emq_user_list`; likewise below.
unfoldable pub user_layout : Layout User
user_layout = record {
  wire = 72;
  block = 72;
  copy = λ bs.
      let after_name = drop 32 bs in
      record {
        name = take 32 bs;
        password = take 32 after_name;
        perm = word_here 8 (drop 32 after_name);
      };
}

unfoldable pub queue_layout : Layout Queue
queue_layout = record {
  wire = 88;
  block = 88;
  copy = λ bs.
      let after_name = drop 64 bs in
      let after_max_msg = drop 4 after_name in
      let after_max_msg_size = drop 4 after_max_msg in
      let after_flags = drop 4 after_max_msg_size in
      let after_size = drop 4 after_flags in
      record {
        name = take 64 bs;
        max_msg = word_here 4 after_name;
        max_msg_size = word_here 4 after_max_msg;
        flags = word_here 4 after_max_msg_size;
        size = word_here 4 after_flags;
        declared_clients = word_here 4 after_size;
        subscribed_clients = word_here 4 (drop 4 after_size);
      };
}

unfoldable pub route_layout : Layout Route
route_layout = record {
  wire = 72;
  block = 72;
  copy = λ bs.
      let after_name = drop 64 bs in
      record {
        name = take 64 bs;
        flags = word_here 4 after_name;
        keys = word_here 4 (drop 4 after_name);
      };
}

unfoldable pub route_key_layout : Layout RouteKey
route_key_layout = record {
  wire = 96;
  block = 96;
  copy = λ bs. record { key = take 32 bs; queue = take 64 (drop 32 bs) };
}

unfoldable pub channel_layout : Layout Channel
channel_layout = record {
  wire = 76;
  block = 76;
  copy = λ bs.
      let after_name = drop 64 bs in
      let after_flags = drop 4 after_name in
      record {
        name = take 64 bs;
        flags = word_here 4 after_name;
        topics = word_here 4 after_flags;
        patterns = word_here 4 (drop 4 after_flags);
      };
}

-- `sizeof(emq_list)` on a 64-bit host
abbrev pub list_struct_size : ℕ
list_struct_size = 32

module _ {World : Type 0} (sys : System World) {A : Type 0} (l : Layout A) where
  -- The copies from `buffer + i`: past the buffer they are a fault.
  unfoldable pub copy_record : List ℕ → ℕ → Prog World A
  copy_record buffer i s =
      if ltb (length buffer) (i + l.wire) then fault else done (l.copy (drop i buffer)) s

  -- `emq_list_add_value`, whose result is not tested: without memory for the node the record is
  -- lost.
  unfoldable pub add_value : A → List A → Prog World (List A)
  add_value x xs = do
    node ← allocate sys list_node_size
    pure (elim node [ none ↦ xs | some _ ↦ x ∷ xs ])

  unfoldable pub add_record : List ℕ → ℕ → List A → Prog World (List A)
  unfolding copy_record add_value
  add_record buffer i xs = do
    block ← allocate sys l.block
    require_some Error.alloc block
    x ← copy_record buffer i
    add_value x xs

  -- `for (i = 0; i < header.bodylen;) { … }` over a `uint32_t`; the list is read from its head. Each
  -- round moves `i` on, so `bodylen + 1` rounds are enough.
  unfoldable pub records_loop :
      ℕ → (bodylen : ℕ) → (buffer : List ℕ) → (i : ℕ) → List A → Prog World (List A)
  unfolding add_record
  records_loop zero bodylen buffer i xs s = stuck
  records_loop (suc k) bodylen buffer i xs s =
      let next =
        and_then (add_record buffer i xs s)
          (records_loop k bodylen buffer ((i + l.wire) % 2 ^ 32)) in
      if ltb i bodylen then next else done xs s

  -- The body of a list response, once its header has been accepted.
  unfoldable pub read_list : ResponseHeader → Prog World (Option (List A))
  read_list h = do
    block ← allocate sys h.bodylen
    require_some Error.alloc block
    bytes ← read_bytes sys h.bodylen
    buffer ← require_some Error.read bytes
    list ← allocate sys list_struct_size
    require_some Error.alloc list
    xs ← records_loop (suc h.bodylen) h.bodylen buffer 0 []
    pure (some xs)
