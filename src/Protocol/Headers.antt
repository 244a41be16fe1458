-- ===== src/Protocol/Headers.antt =====
-- The headers of responses and of events (src/protocol.h), written and read.
use libemq.Base.{ℕ, ◌<◌, ◌^◌, ◌≡◌, List, ◌∷◌, [], ◌++◌, arith, length}
use libemq.Wire.{Field, word, read_struct, read_field}
use libemq.Wire.Structs.{read_struct-struct_bytes, length-struct_bytes}
use libemq.Protocol.{
  ResponseHeader, response_header, response_header_bytes, header_size, event_header_bytes,
  EventHeader, event_header,
}

-- The members are within their widths.
pub record IsHeader (h : ResponseHeader) : Type 0 where
  pub magic_fits : h.magic < 2 ^ 16
  pub cmd_fits : h.cmd < 2 ^ 8
  pub status_fits : h.status < 2 ^ 8
  pub bodylen_fits : h.bodylen < 2 ^ 32

-- A response header that the server wrote is the one that the client reads.
pub response_header-response_header_bytes :
    (h : ResponseHeader) (rest : List ℕ)
    → IsHeader h
    → response_header (response_header_bytes h ++ rest) ≡ h
unfolding response_header response_header_bytes read_struct read_field
response_header-response_header_bytes h rest fits =
    let fs : List Field = word 2 h.magic ∷ word 1 h.cmd ∷ word 1 h.status ∷ word 4 h.bodylen ∷ [] in
    ground (arith, read_struct-struct_bytes fs rest (omega arith))

pub length-response_header_bytes :
    (h : ResponseHeader) → IsHeader h → length (response_header_bytes h) ≡ header_size
unfolding response_header_bytes
length-response_header_bytes h fits =
    length-struct_bytes (word 2 h.magic ∷ word 1 h.cmd ∷ word 1 h.status ∷ word 4 h.bodylen ∷ [])
      (omega arith)

pub record IsEventHeader (h : EventHeader) : Type 0 where
  pub magic_fits : h.magic < 2 ^ 16
  pub cmd_fits : h.cmd < 2 ^ 8
  pub type_fits : h.type < 2 ^ 8
  pub bodylen_fits : h.bodylen < 2 ^ 32

-- Likewise the header of an event.
pub event_header-event_header_bytes :
    (h : EventHeader) (rest : List ℕ)
    → IsEventHeader h
    → event_header (event_header_bytes h ++ rest) ≡ h
unfolding event_header event_header_bytes read_struct read_field
event_header-event_header_bytes h rest fits =
    let fs : List Field = word 2 h.magic ∷ word 1 h.cmd ∷ word 1 h.type ∷ word 4 h.bodylen ∷ [] in
    ground (arith, read_struct-struct_bytes fs rest (omega arith))

pub length-event_header_bytes :
    (h : EventHeader) → IsEventHeader h → length (event_header_bytes h) ≡ header_size
unfolding event_header_bytes
length-event_header_bytes h fits =
    length-struct_bytes (word 2 h.magic ∷ word 1 h.cmd ∷ word 1 h.type ∷ word 4 h.bodylen ∷ [])
      (omega arith)
