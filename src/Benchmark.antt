-- ===== src/Benchmark.antt =====
-- src/benchmark.c: its configuration, its arguments, and what it does with the library. The calls
-- of the C library that it makes besides (`atoi`, `rand`) are parameters; what it prints is left
-- out. An `int` is its 32-bit pattern.
pub mod Arguments
pub mod Server
pub mod Contents
pub mod Answers
pub mod Pushing
pub mod Work
pub mod Visits
pub mod Leaving
pub mod Worker
use libemq.Base.{
  ℕ, zero, suc, Bool, true, false, Option, none, some, List, [], ◌∷◌, ◌++◌, ◌==◌, ◌||◌, ltb, ◌+◌,
  ◌-◌, ◌*◌, ◌/◌, ◌%◌, ◌^◌, if◌then◌else◌,
}
use libemq.Wire.{Text}
use libemq.Subscription.Names.{same}
use libemq.System.{System}
use libemq.Client.{Prog, Status, ◌>>=◌, ◌>>◌, pure, done, fault}
use libemq.Message.{Message, Block, msg_create, msg_expire, msg_release, allocate}
use libemq.Api.{noack_enable}
use libemq.Api.Session.{auth}
use libemq.Api.Queue.{queue_declare}
use libemq.Api.Transfer.{queue_push}

-- `DEFAULT_HOST`, `DEFAULT_USER_NAME` and `DEFAULT_USER_PASSWORD`, and `QUEUE_NAME`
abbrev default_host : Text
default_host = b'l' ∷ b'o' ∷ b'c' ∷ b'a' ∷ b'l' ∷ b'h' ∷ b'o' ∷ b's' ∷ b't' ∷ []

abbrev default_user : Text
default_user = b'e' ∷ b'a' ∷ b'g' ∷ b'l' ∷ b'e' ∷ []

abbrev pub queue_name : Text
queue_name =
    b'.' ∷ b'q' ∷ b'u' ∷ b'e' ∷ b'u' ∷ b'e' ∷ b'-' ∷ b'b' ∷ b'e' ∷ b'n' ∷ b'c' ∷ b'h' ∷ b'm' ∷ b'a'
    ∷ b'r' ∷ b'k' ∷ []

-- `struct config`; `NULL` is `none`.
pub record Config : Type 0 where
  pub host : Text
  pub port : ℕ
  pub unix_socket : Option Text
  pub user_name : Text
  pub user_password : Text
  pub clients : ℕ
  pub messages : ℕ
  pub msg_size : ℕ
  pub expiration : ℕ
  pub noack : ℕ

abbrev pub init_config : Config
init_config = record {
  host = default_host;
  port = 7851;
  unix_socket = none;
  user_name = default_user;
  user_password = default_user;
  clients = 50;
  messages = 100000;
  msg_size = 1000;
  expiration = 0;
  noack = 0;
}

-- The options' texts.
abbrev pub dash : ℕ → Text
dash c = b'-' ∷ c ∷ []

abbrev pub name_option : Text
name_option = b'-' ∷ b'-' ∷ b'n' ∷ b'a' ∷ b'm' ∷ b'e' ∷ []

abbrev pub password_option : Text
password_option = b'-' ∷ b'-' ∷ b'p' ∷ b'a' ∷ b's' ∷ b's' ∷ b'w' ∷ b'o' ∷ b'r' ∷ b'd' ∷ []

abbrev pub noack_option : Text
noack_option = b'-' ∷ b'-' ∷ b'n' ∷ b'o' ∷ b'a' ∷ b'c' ∷ b'k' ∷ []

abbrev pub help_option : Text
help_option = b'-' ∷ b'-' ∷ b'h' ∷ b'e' ∷ b'l' ∷ b'p' ∷ []

module _ (atoi : Text → ℕ) where
  -- The chain of tests from `--noack` on, which an option with a value that is last comes to too.
  read_flag : Text → Config → Option Config
  read_flag a c =
      if same a noack_option
      then some (record c { noack = 1 })
      else if same a (dash b'h') || same a help_option
      then none
      else some c

  -- One round of the loop, at an argument and the one behind it. `none` is `exit(0)` after the
  -- usage.
  read_argument : Text → Option Text → Config → Option Config
  unfolding read_flag
  read_argument a none c = read_flag a c
  read_argument a (some v) c =
      if same a (dash b'h')
      then some (record c { host = v })
      else if same a (dash b'p')
      then some (record c { port = atoi v })
      else if same a (dash b'u')
      then some (record c { unix_socket = some v })
      else if same a name_option
      then some (record c { user_name = v })
      else if same a password_option
      then some (record c { user_password = v })
      else if same a (dash b'c')
      then some (record c { clients = atoi v })
      else if same a (dash b'm')
      then some (record c { messages = atoi v })
      else if same a (dash b's')
      then some (record c { msg_size = atoi v })
      else if same a (dash b'e')
      then some (record c { expiration = atoi v })
      else read_flag a c

  abbrev pub next_argument : List Text → Option Text
  next_argument [] = none
  next_argument (v ∷ args) = some v

  abbrev pub then_read : (Config → Option Config) → Option Config → Option Config
  then_read again none = none
  then_read again (some c) = again c

  -- `parse_args`, over `argv[1]` and what follows. It goes on with the next argument whether that
  -- was an option's value or not.
  unfoldable pub parse_args : List Text → Config → Option Config
  unfolding read_argument
  parse_args [] c = some c
  parse_args (a ∷ args) c = then_read (parse_args args) (read_argument a (next_argument args) c)

-- A letter or a digit, as `generate_string` makes it from a result of `rand`.
random_char : ℕ → ℕ
random_char r =
    let rand_char = r % 62 in
    if ltb rand_char 26
    then b'a' + rand_char
    else if ltb rand_char 52
    then b'A' + rand_char - 26
    else b'0' + rand_char - 26 - 26

-- The results of `rand` after `srand`, in order.
random_text : (rand : ℕ → ℕ) → (i len : ℕ) → Text
unfolding random_char
random_text rand i zero = []
random_text rand i (suc len) = random_char (rand i) ∷ random_text rand (suc i) len

-- `int` to `size_t`
abbrev size_of_int : ℕ → ℕ
size_of_int n = if ltb n (2 ^ 31) then n else n + 2 ^ 64 - 2 ^ 32

-- `config.messages * config.msg_size` of `print_statistics`, as an `int` that wraps
abbrev pub total_bytes : Config → ℕ
total_bytes c = c.messages * c.msg_size % 2 ^ 32

-- How often the loop of `worker` runs. There are threads only if `clients` is positive, so that the
-- quotient is negative or 0 if `messages` is negative.
unfoldable pub share : Config → ℕ
share c = if ltb c.messages (2 ^ 31) then c.messages / c.clients else 0

module _ {World : Type 0} (sys : System World) where
  -- `generate_string` into a block of `len + 1` bytes; `str[len]` is in front of it if `len` is -1.
  generate_string : (rand : ℕ → ℕ) → (len : ℕ) → Prog World (Option (List ℕ))
  generate_string rand len s =
      if ltb len (2 ^ 31) then done (some (random_text rand 0 len ++ 0 ∷ [])) s else fault

  -- `init_message`: `none` is `exit(-1)`.
  pub init_message : (rand : ℕ → ℕ) → Config → Prog World (Option (List ℕ))
  unfolding generate_string
  init_message rand c = do
    block ← allocate sys (size_of_int ((c.msg_size + 1) % 2 ^ 32))
    elim block [ none ↦ pure none | some _ ↦ generate_string rand c.msg_size ]

  -- `emq_msg_expire`, a fault at `NULL`.
  pub expire_message : ℕ → Option Message → Prog World Message
  expire_message time none s = fault
  expire_message time (some msg) s = done (msg_expire msg time) s

  -- The loop of `worker`: `false` is the `return` at a push that failed.
  pub push_loop : ℕ → Message → Prog World Bool
  push_loop zero msg = pure true
  push_loop (suc n) msg = do
    r ← queue_push sys queue_name msg
    elim r [ Status.ok ↦ push_loop n msg | Status.err ↦ pure false ]

  -- `worker` once it is connected, up to its message.
  pub greet : Config → Prog World (Unit {0})
  greet c = do
    λ s. done tt (if c.noack == 0 then s else record s { client = noack_enable s.client })
    auth sys c.user_name c.user_password
    queue_declare sys queue_name
    pure tt

  -- `worker` once it is connected, up to `emq_disconnect`: the blocks that `emq_msg_release` frees,
  -- or `none` if it has returned before. Benchmark/Server has the same steps on a host that counts
  -- blocks.
  pub work : Config → (message_data : List ℕ) → Prog World (Option (List Block))
  unfolding greet expire_message push_loop
  work c message_data = do
    greet c
    message ← msg_create sys message_data (size_of_int c.msg_size) 1
    msg ← expire_message c.expiration message
    pushed ← push_loop (share c) msg
    pure (if pushed then some (msg_release msg) else none)
