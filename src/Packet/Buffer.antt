-- ===== src/Packet/Buffer.antt =====
-- The request buffer of a client: its invariant, and what `make_request` leaves in it.
use libemq.Base.{
  ℕ, ◌+◌, ◌≤◌, ◌≡◌, refl, Option, none, some, List, [], ◌++◌, arith, length, take, drop, All,
  length-append, length-drop, take-append, All-append, le→ltb_false,
}
use libemq.Wire.{Field, Fits, slots, size_of, struct_bytes}
use libemq.Wire.Structs.{length-struct_bytes}
use libemq.Protocol.{Command, code, header_size, request_header_fields}
use libemq.System.{System}
use libemq.Client.{Status, Client, State, done}
use libemq.Packet.{
  default_request_size, set_header_request, set_client_request, check_realloc_client_request,
  make_request,
}

abbrev pub contents : Option (List ℕ) → List ℕ
contents none = []
contents (some block) = block

-- `request` leads to a block of `size` bytes, no smaller than at first, and `pos` is within it.
pub record IsValid (c : Client) : Type 0 where
  pub allocated : length (contents c.request) ≡ c.size
  pub large : default_request_size ≤ c.size
  pub filled : c.pos ≤ c.size

-- The bytes that a client is about to send.
abbrev pub request_bytes : Client → List ℕ
request_bytes c = take c.pos (contents c.request)

-- The bytes of a whole request.
unfoldable pub packet : Command → List Field → ℕ → ℕ → List ℕ
packet command body msg_size noack = struct_bytes (
    request_header_fields
      (set_header_request (code command) noack (size_of (slots body) + msg_size))
    ++ body)

abbrev pub with_request : Client → List ℕ → Client
with_request c req = record c {
  request = some (req ++ drop (length req) (contents c.request));
  pos = length req;
}

pub header_Fits :
    (cmd noack bodylen : ℕ)
    → All Fits (request_header_fields (set_header_request cmd noack bodylen))
unfolding set_header_request
header_Fits cmd noack bodylen = omega arith

pub length-packet :
    (command : Command) (body : List Field) (n noack : ℕ)
    → All Fits body
    → length (packet command body n noack) ≡ header_size + size_of (slots body)
unfolding packet
length-packet command body n noack fits =
    let bodylen = size_of (slots body) + n in
    let header = request_header_fields (set_header_request (code command) noack bodylen) in
    omega (
      arith,
      length-struct_bytes (header ++ body)
          (All-append Fits header body (header_Fits (code command) noack bodylen) fits),
    )

pub request_bytes-with_request :
    (c : Client) (req : List ℕ) → request_bytes (with_request c req) ≡ req
request_bytes-with_request c req = take-append (length req) req _ refl

pub with_request-IsValid :
    (c : Client) (req : List ℕ) → IsValid c → length req ≤ c.size → IsValid (with_request c req)
with_request-IsValid c req v h = omega (
  arith,
  v.allocated,
  v.large,
  length-append req (drop (length req) (contents c.request)),
  length-drop (length req) (contents c.request),
)

module _ {World : Type 0} (sys : System World) where
  pub set_client_request-fits :
      (req : List ℕ) (s : State World)
      → IsValid s.client
      → length req ≤ s.client.size
      → set_client_request req s ≡ done tt (record s { client = with_request s.client req })
  unfolding set_client_request
  set_client_request-fits req s v h = ground arith

  check_realloc-fits :
      (size : ℕ) (s : State World)
      → size ≤ s.client.size
      → check_realloc_client_request sys size s ≡ done Status.ok s
  unfolding check_realloc_client_request
  check_realloc-fits size s h = rw (le→ltb_false s.client.size size h)

  -- With the invariant a request of a few fields never needs a larger buffer: it is filled in.
  pub make_request-Fits :
      (command : Command) (body : List Field) (n : ℕ) (s : State World)
      → IsValid s.client
      → All Fits body
      → header_size + size_of (slots body) ≤ default_request_size
      → make_request sys command body n s
        ≡ done Status.ok
            (record s { client = with_request s.client (packet command body n s.client.noack) })
  unfolding make_request packet
  make_request-Fits command body n s v fits small =
      let room = length-packet command body n s.client.noack fits in
      rw (
        check_realloc-fits (2 + (1 + (1 + (4 + size_of (slots body))))) s (omega (arith, v.large)),
        set_client_request-fits (packet command body n s.client.noack) s v (omega (arith, v.large)),
      )
