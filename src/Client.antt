-- ===== src/Client.antt =====
-- `emq_client` of src/emq.h, its error codes, and the programs that run over a client and the
-- world: the shape of every function of the library.
use Prim.Native.String.{String}
use libemq.Base.{refl, ◌⊎◌, inl, inr, ℕ, Option, Bool, true, false, List, ◌≡◌, ◌⊎◌, inl, inr}

-- `EMQ_STATUS_OK` and `EMQ_STATUS_ERR`
pub data Status : Type 0 where
  ok err : Status

-- `EMQ_ERROR_NONE` to `EMQ_ERROR_NO_DATA`
pub data Error : Type 0 where
  no_error alloc bad_data write read response packet command access memory : Error
  not_declared not_found no_data : Error

-- `emq_error_array`
unfoldable pub error_text : Error → String
error_text Error.no_error = ""
error_text Error.alloc = "Error allocate memory"
error_text Error.bad_data = "Error input data"
error_text Error.write = "Error write request"
error_text Error.read = "Error read request"
error_text Error.response = "Response error"
error_text Error.packet = "Packet error"
error_text Error.command = "Command error"
error_text Error.access = "Access error"
error_text Error.memory = "Memory error"
error_text Error.not_declared = "Value not declared"
error_text Error.not_found = "Value not found"
error_text Error.no_data = "No data"

-- A subscription holds its name in a `char[64]` and its callback as a code address.
pub record QueueSubscription : Type 0 where
  pub name : List ℕ
  pub callback : ℕ

pub record ChannelSubscription : Type 0 where
  pub name : List ℕ
  pub channel : List ℕ
  pub callback : ℕ

-- `error` is the entry of `emq_error_array` whose text the buffer holds; `request` is the block
-- that the pointer leads to, `none` for `NULL`; a list of subscriptions is read from its head.
pub record Client : Type 0 where
  pub status : Status
  pub error : Error
  pub request : Option (List ℕ)
  pub size : ℕ
  pub pos : ℕ
  pub noack : ℕ
  pub fd : ℕ
  pub queue_subscriptions : List QueueSubscription
  pub channel_subscriptions : List ChannelSubscription

pub record State (World : Type 0) : Type 0 where
  pub client : Client
  pub world : World

-- How a run ends: with a value, by `goto error`, outside of what C defines (a null pointer, a
-- read or a write past an object), or still waiting when the model's patience is over.
pub data Run (World A : Type 0) : Type 0 where
  done : A → State World → Run World A
  jump : State World → Run World A
  fault : Run World A
  stuck : Run World A

abbrev pub Prog : Type 0 → Type 0 → Type 0
Prog World A = State World → Run World A

abbrev pub is_ok : Status → Bool
is_ok Status.ok = true
is_ok Status.err = false

pub Status-cases : (v : Status) → (v ≡ Status.ok) ⊎ (v ≡ Status.err)
Status-cases Status.ok = inl refl
Status-cases Status.err = inr refl

module _ {World : Type 0} where
  abbrev pub pure : {A : Type 0} → A → Prog World A
  pure a s = done a s

  abbrev pub and_then : {A B : Type 0} → Run World A → (A → Prog World B) → Run World B
  and_then (done a s) k = k a s
  and_then (jump s) k = jump s
  and_then fault k = fault
  and_then stuck k = stuck

  infixl 5 ◌>>=◌ ◌>>◌
  abbrev pub ◌>>=◌ : {A B : Type 0} → Prog World A → (A → Prog World B) → Prog World B
  ◌>>=◌ m k s = and_then (m s) k

  abbrev pub ◌>>◌ : {A B : Type 0} → Prog World A → Prog World B → Prog World B
  ◌>>◌ m k s = and_then (m s) (λ _. k)

  abbrev pub get_client : Prog World Client
  get_client s = done s.client s

  abbrev pub set_client : Client → Prog World (Unit {0})
  set_client c s = done tt (record s { client = c })

  -- `EMQ_CLEAR_ERROR`, `EMQ_SET_STATUS` and `emq_client_set_error`
  abbrev pub clear_error : Prog World (Unit {0})
  clear_error s = done tt (record s { client = record (s.client) { error = Error.no_error } })

  abbrev pub set_status : Status → Prog World (Unit {0})
  set_status v s = done tt (record s { client = record (s.client) { status = v } })

  abbrev pub client_set_error : Error → Prog World (Unit {0})
  client_set_error e s = done tt (record s { client = record (s.client) { error = e } })

  -- `if (!test) { emq_client_set_error(client, e); goto error; }`
  abbrev pub require : Bool → Error → Prog World (Unit {0})
  require true e s = done tt s
  require false e s = jump (record s { client = record (s.client) { error = e } })

  -- The end of every call: `EMQ_STATUS_OK` on the way out, and at the label `error` the status
  -- `EMQ_STATUS_ERR` with the value that the function returns there.
  abbrev pub returning : {A : Type 0} → A → Run World A → Run World A
  returning e (done a s) = done a (record s { client = record (s.client) { status = Status.ok } })
  returning e (jump s) = done e (record s { client = record (s.client) { status = Status.err } })
  returning e fault = fault
  returning e stuck = stuck
