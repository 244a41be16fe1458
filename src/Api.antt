-- ===== src/Api.antt =====
-- The parts that the functions of src/emq.c share: sending a request, reading the response's
-- header, and the tests that lead to `goto error`. The children hold the functions, part by part.
pub mod Session
pub mod User
pub mod Queue
pub mod Route
pub mod Channel
pub mod Commands
pub mod Subscribe
pub mod Stages
pub mod Verdicts
pub mod Replies
pub mod Confirm
pub mod Exchange
pub mod Unsubscribe
pub mod Joining
pub mod Subscribing
pub mod Queries
pub mod Transfer
pub mod Push
pub mod Fetch
pub mod Ask
pub mod Lists
pub mod Listings
pub mod Stat
pub mod Steps
pub mod Errors
use Prim.Native.String.{String}
use libemq.Base.{
  ℕ, ◌+◌, ◌-◌, ◌%◌, ◌^◌, Bool, true, false, Option, none, some, List, [], ◌∷◌, ◌++◌, ltb, ◌==◌,
  if◌then◌else◌, length, take,
}
use libemq.Wire.{decode}
use libemq.Protocol.{Command, ResponseHeader, response_header, header_size, status_success}
use libemq.System.{System}
use libemq.Client.{
  error_text, Status, Error, Client, State, Run, done, jump, fault, Prog, pure, ◌>>=◌, ◌>>◌,
  get_client, clear_error, require, is_ok, returning, and_then,
}
use libemq.Network.{client_read, client_write}
use libemq.Packet.{check_response_header, check_response_header_mini, check_status, get_error}
use libemq.Packet.Buffer.{contents}

-- -1 as the pattern of an `int`
abbrev pub minus_one : ℕ
minus_one = 2 ^ 32 - 1

-- `emq_noack_enable` and `emq_noack_disable`
unfoldable pub noack_enable : Client → Client
noack_enable c = record c { noack = 1 }

unfoldable pub noack_disable : Client → Client
noack_disable c = record c { noack = 0 }

-- `emq_last_error`
unfoldable last_error : Client → String
unfolding error_text
last_error c = error_text c.error

module _ {World : Type 0} where
  -- The value, or `emq_client_set_error(client, e); goto error;` for -1 and for `NULL`.
  abbrev pub require_some : {A : Type 0} → Error → Option A → Prog World A
  require_some e none s = jump (record s { client = record (s.client) { error = e } })
  require_some e (some a) s = done a s

  -- The bytes at `client->request` up to `client->pos`.
  unfoldable pub request_block : Prog World (List ℕ)
  request_block s =
      if ltb (length (contents s.client.request)) s.client.pos
      then fault
      else done (take s.client.pos (contents s.client.request)) s

  -- The tests of the response's status, once its header has been found to fit.
  unfoldable pub accept : Status → ResponseHeader → Prog World (Unit {0})
  accept header_status h = do
    require (is_ok header_status) Error.response
    require (is_ok (check_status h status_success)) (get_error h)

module _ {World : Type 0} (sys : System World) where
  unfoldable pub submit : Prog World Status → Prog World (Unit {0})
  submit request = do
    require (is_ok (← request)) Error.bad_data
    require_some Error.write (← client_write sys (← request_block))
    pure tt

  unfoldable pub read_header : Prog World ResponseHeader
  read_header = do
    bs ← client_read sys header_size
    bs' ← require_some Error.read bs
    pure (response_header bs')

  unfoldable pub read_response : (ResponseHeader → Status) → Prog World (Unit {0})
  read_response check = do h ← read_header; accept (check h) h

  -- `if (!client->noack) { … }` around the reading of a response without a body.
  unfoldable pub acknowledge : (ResponseHeader → Status) → Prog World (Unit {0})
  acknowledge check s = if s.client.noack == 0 then read_response check s else done tt s

  -- The body of the functions that send a request and wait for a response without a body.
  unfoldable pub run_command : Prog World Status → (ResponseHeader → Status) → Prog World Status
  run_command request check s =
      returning Status.err ((do clear_error; submit request; acknowledge check; pure Status.ok) s)

  -- The body of the functions that wait for a response with a body: the request, the header and its
  -- tests, and then `k`; they return `failed` at the label `error`.
  unfoldable pub ask :
      {A : Type 0}
      → Prog World Status
      → (ResponseHeader → Status)
      → (failed : A) → (ResponseHeader → Prog World A)
      → Prog World A
  ask request check failed k s =
      returning failed
        ((do clear_error; submit request; h ← read_header; accept (check h) h; k h) s)

  unfoldable pub read_number : Prog World ℕ
  read_number = do bs ← client_read sys 4; body ← require_some Error.read bs; pure (decode body)

  -- The functions that wait for a response of one `uint32_t`. An `int` is its 32-bit pattern.
  unfoldable pub run_query : Prog World Status → Command → (failed : ℕ) → Prog World ℕ
  unfolding ask read_number
  run_query request command failed =
      ask request (λ h. check_response_header h command 4) failed (λ h. read_number)
