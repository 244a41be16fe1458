-- ===== src/Packet.antt =====
-- The parts that the functions of src/packet.c share: the request's header, its buffer, and the
-- checks of a response. The children hold the request functions, part by part.
pub mod Session
pub mod User
pub mod Queue
pub mod Route
pub mod Channel
pub mod Calls
pub mod Buffer
pub mod Growth
pub mod RoundTrip
use libemq.Base.{
  ℕ, ◌+◌, ◌%◌, ◌^◌, Bool, true, false, Option, none, some, List, [], ◌∷◌, ◌++◌, not, ◌&&◌, ◌||◌,
  ltb, ◌==◌, if◌then◌else◌, length, drop,
}
use libemq.Wire.{Text, strlenz, Field, struct_bytes, slots, size_of}
use libemq.Protocol.{
  Command, code, RequestHeader, request_header_fields, header_size, ResponseHeader, EventHeader,
  magic_req, magic_res, magic_event, status_error_packet, status_error_command, status_error_access,
  status_error_memory, status_error_not_declared, status_error_not_found, status_error_no_data,
}
use libemq.System.{System}
use libemq.Client.{
  Status, Error, Client, State, Run, done, fault, Prog, pure, ◌>>=◌, ◌>>◌, get_client,
}

-- `EMQ_DEFAULT_REQUEST_SIZE` and `EMQ_MAX_REQUEST_SIZE`
abbrev pub default_request_size : ℕ
default_request_size = 4096

abbrev pub max_request_size : ℕ
max_request_size = 2147483647

-- The parameters are `uint8_t`, `uint8_t` and `uint32_t`.
unfoldable pub set_header_request : ℕ → ℕ → ℕ → RequestHeader
set_header_request cmd noack bodylen = record {
  magic = magic_req;
  cmd = cmd % 2 ^ 8;
  noack = noack % 2 ^ 8;
  bodylen = bodylen % 2 ^ 32;
}

-- `strlenz(text) > n`
abbrev pub too_long : ℕ → Text → Bool
too_long n s = ltb n (strlenz s)

module _ {World : Type 0} where
  -- `memcpy` into a block that is `NULL` or too small is a fault.
  unfoldable pub set_client_request : List ℕ → Prog World (Unit {0})
  set_client_request req s = elim (s.client.request) [
    | none ↦ fault
    | some block ↦
        if ltb (length block) (length req)
        then fault
        else done tt (record s {
          client = record (s.client) {
            request = some (req ++ drop (length req) block);
            pos = length req;
          };
        })
  ]

module _ {World : Type 0} (sys : System World) where
  -- The size is stored before the new pointer is tested, as in the source.
  unfoldable pub check_realloc_client_request : ℕ → Prog World Status
  check_realloc_client_request size s =
      if ltb s.client.size size
      then if ltb max_request_size size
        then done Status.err s
        else (let (block, w) = sys.realloc s.client.request size s.world in
            let s' : State World = record {
              client = record (s.client) { request = block; size = size };
              world = w;
            } in
            elim block [ none ↦ done Status.err s' | some _ ↦ done Status.ok s' ])
      else done Status.ok s

  -- The common end of the request functions: the header over the body's length and the message
  -- that follows, room for the struct, and the copy.
  unfoldable pub make_request : Command → List Field → ℕ → Prog World Status
  make_request command body msg_size = do
    c ← get_client
    let header = set_header_request (code command) c.noack (size_of (slots body) + msg_size)
    let req = request_header_fields header ++ body
    r ← check_realloc_client_request (size_of (slots req))
    elim r [
      | Status.err ↦ pure Status.err
      | Status.ok ↦ set_client_request (struct_bytes req) >> pure Status.ok
    ]

-- `emq_check_response_header`
unfoldable pub check_response_header : ResponseHeader → Command → ℕ → Status
check_response_header h command bodylen =
    if not (h.magic == magic_res) || not (h.cmd == code command) || not (h.bodylen == bodylen)
    then Status.err
    else Status.ok

unfoldable pub check_response_header_mini : ResponseHeader → Command → Status
check_response_header_mini h command =
    if not (h.magic == magic_res) || not (h.cmd == code command) then Status.err else Status.ok

unfoldable pub check_event_header : EventHeader → ℕ → ℕ → Status
check_event_header h type1 type2 =
    if not (h.magic == magic_event) || (not (h.type == type1) && not (h.type == type2))
    then Status.err
    else Status.ok

unfoldable pub check_status : ResponseHeader → ℕ → Status
check_status h status = if h.status == status then Status.ok else Status.err

-- The `switch` of `emq_get_error`, case by case.
unfoldable pub get_error : ResponseHeader → Error
get_error h =
    if h.status == status_error_packet
    then Error.packet
    else if h.status == status_error_command
    then Error.command
    else if h.status == status_error_access
    then Error.access
    else if h.status == status_error_memory
    then Error.memory
    else if h.status == status_error_not_declared
    then Error.not_declared
    else if h.status == status_error_not_found
    then Error.not_found
    else if h.status == status_error_no_data
    then Error.no_data
    else Error.no_error
