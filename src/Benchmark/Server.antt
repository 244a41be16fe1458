-- ===== src/Benchmark/Server.antt =====
-- src/benchmark.c: `worker`, `setup_server` and `cleanup_server`, from their connection to its end.
-- The functions of src/emq.c run on the host of Connection, which counts what the library holds.
use libemq.Base.{
  ℕ, Bool, true, false, Option, none, some, List, [], ◌∷◌, suc, ◌==◌, ◌^◌, ◌-◌, if◌then◌else◌,
}
use libemq.Wire.{Text}
use libemq.System.{System}
use libemq.Client.{Run, done, jump, fault, stuck, Prog, Status, ◌>>=◌, ◌>>◌, pure, is_ok}
use libemq.Message.{Block, Message, msg_create, msg_release}
use libemq.Connection.{Host, Sockets, free_one}
use libemq.Connection.Connect.{tcp_connect, unix_connect, disconnect}
use libemq.Api.Session.{auth}
use libemq.Api.Queue.{queue_create, queue_delete, queue_exist, queue_size}
use libemq.Benchmark.{Config, queue_name, greet, expire_message, push_loop, share, size_of_int}

-- A program over the calls of the system, as one on the host: it makes no descriptors, and what it
-- keeps of the blocks that the host counts is counted where it returns.
abbrev pub rehost : {World A : Type 0} → Host World → Run World A → Run (Host World) A
rehost h (done a s) = done a (record { client = s.client; world = record h { world = s.world } })
rehost h (jump s) = jump (record { client = s.client; world = record h { world = s.world } })
rehost h fault = fault
rehost h stuck = stuck

abbrev pub on_host : {World A : Type 0} → Prog World A → Prog (Host World) A
on_host m s = rehost s.world (m (record { client = s.client; world = s.world.world }))

-- The blocks of messages, which the host counts too.
module _ {World : Type 0} where
  -- What `emq_msg_create` has returned: the struct is a new block, and the data are one unless the
  -- message is over the caller's.
  unfoldable pub hold_message : Option Message → Prog (Host World) (Option Message)
  hold_message none s = done none s
  hold_message (some msg) s =
      let b = s.world.blocks in
      let held = record b {
        messages = suc b.messages;
        payloads = if msg.zero_copy == 0 then suc b.payloads else b.payloads;
      } in
      done (some msg) (record s { world = record (s.world) { blocks = held } })

  unfoldable pub free_block : Block → Prog (Host World) (Unit {0})
  free_block Block.struct_block s =
      let b = s.world.blocks in free_one b.messages (record b { messages = b.messages - 1 }) s
  free_block Block.data_block s =
      let b = s.world.blocks in free_one b.payloads (record b { payloads = b.payloads - 1 }) s

  unfoldable pub free_blocks : List Block → Prog (Host World) (Unit {0})
  unfolding free_block
  free_blocks [] = pure tt
  free_blocks (b ∷ bs) = do free_block b; free_blocks bs

-- `EMQ_MAX_MSG` and `EMQ_MAX_MSG_SIZE`
abbrev pub emq_max_msg : ℕ
emq_max_msg = 2 ^ 32 - 1

abbrev pub emq_max_msg_size : ℕ
emq_max_msg_size = 2 ^ 31 - 1

module _ {World : Type 0} (sys : System World) where
  -- `if (status) emq_queue_delete(client, QUEUE_NAME);`
  unfoldable pub delete_if : ℕ → Prog World (Unit {0})
  delete_if there =
      if there == 0 then pure tt else (queue_delete sys queue_name >>= λ status. pure tt)

  unfoldable pub create_anew : Status → Prog World Bool
  unfolding delete_if
  create_anew Status.err = pure false
  create_anew Status.ok = do
    there ← queue_exist sys queue_name
    delete_if there
    status ← queue_create sys queue_name emq_max_msg emq_max_msg_size 0
    pure (is_ok status)

  -- `setup_server` between its connection and `emq_disconnect`: `false` if it is `exit(-1)` that
  -- follows.
  unfoldable pub prepare : Config → Prog World Bool
  unfolding create_anew
  prepare c = auth sys c.user_name c.user_password >>= create_anew

  -- The size is for what it prints.
  unfoldable pub delete_sized : ℕ → Prog World (Unit {0})
  delete_sized there =
      if there == 0
      then pure tt
      else (do queue_size sys queue_name; queue_delete sys queue_name; pure tt)

  -- `cleanup_server`, likewise.
  unfoldable pub clean : Config → Prog World (Unit {0})
  unfolding delete_sized
  clean c = do
    auth sys c.user_name c.user_password
    there ← queue_exist sys queue_name
    delete_sized there

module _ {World : Type 0} (sys : System World) (net : Sockets World) where
  unfoldable pub connect_by : Config → Option Text → Prog (Host World) Bool
  connect_by c none = tcp_connect sys net c.host c.port
  connect_by c (some path) = unix_connect sys net path

  -- The first lines of the three functions: `false` is `NULL`.
  unfoldable pub connect_server : Config → Prog (Host World) Bool
  unfolding connect_by
  connect_server c = connect_by c c.unix_socket

  -- `emq_msg_release` and `emq_disconnect`, unless the worker has returned at a push that failed.
  unfoldable pub end_work : Message → (pushed : Bool) → Prog (Host World) (Unit {0})
  unfolding free_blocks
  end_work msg false = pure tt
  end_work msg true = do free_blocks (msg_release msg); disconnect net true

  unfoldable pub work_if : Config → (message_data : List ℕ) → Bool → Prog (Host World) (Unit {0})
  unfolding hold_message end_work
  work_if c message_data false = pure tt
  work_if c message_data true = do
    on_host (greet sys c)
    created ← on_host (msg_create sys message_data (size_of_int c.msg_size) 1)
    message ← hold_message created
    msg ← on_host (expire_message sys c.expiration message)
    pushed ← on_host (push_loop sys (share c) msg)
    end_work msg pushed

  unfoldable pub worker : Config → (message_data : List ℕ) → Prog (Host World) (Unit {0})
  unfolding connect_server work_if
  worker c message_data = connect_server c >>= work_if c message_data

  unfoldable pub prepare_if : Config → Bool → Prog (Host World) Bool
  prepare_if c false = pure false
  prepare_if c true = do ready ← on_host (prepare sys c); disconnect net true; pure ready

  -- `false` is `exit(-1)`.
  unfoldable pub setup_server : Config → Prog (Host World) Bool
  unfolding connect_server prepare_if
  setup_server c = connect_server c >>= prepare_if c

  unfoldable pub clean_if : Config → Bool → Prog (Host World) Bool
  clean_if c false = pure false
  clean_if c true = do on_host (clean sys c); disconnect net true; pure true

  unfoldable pub cleanup_server : Config → Prog (Host World) Bool
  unfolding connect_server clean_if
  cleanup_server c = connect_server c >>= clean_if c
