-- ===== src/Protocol.antt =====
-- src/protocol.h: the commands, the packed request structs and the three headers.
pub mod Codes
pub mod Headers
use libemq.Base.{ℕ, List, [], ◌∷◌, ◌++◌, take, drop}
use libemq.Wire.{Field, word, Slot, chars_slot, word_slot, decode, struct_bytes}

-- `protocol_binary_magic`
abbrev pub magic_req : ℕ
magic_req = 0x70

abbrev pub magic_res : ℕ
magic_res = 0x80

abbrev pub magic_event : ℕ
magic_event = 0x90

-- `protocol_command`
pub data Command : Type 0 where
  auth ping stat save flush disconnect : Command
  user_create user_list user_rename user_set_perm user_delete : Command
  queue_create queue_declare queue_exist queue_list queue_rename queue_size queue_push : Command
  queue_get queue_pop queue_confirm queue_subscribe queue_unsubscribe queue_purge : Command
  queue_delete : Command
  route_create route_exist route_list route_keys route_rename route_bind route_unbind : Command
  route_push route_delete : Command
  channel_create channel_exist channel_list channel_rename channel_publish : Command
  channel_subscribe channel_psubscribe channel_unsubscribe channel_punsubscribe : Command
  channel_delete : Command

unfoldable pub code : Command → ℕ
code auth = 0xa
code ping = 0xb
code stat = 0xc
code save = 0xd
code flush = 0xe
code disconnect = 0xf
code user_create = 0x1e
code user_list = 0x1f
code user_rename = 0x20
code user_set_perm = 0x21
code user_delete = 0x22
code queue_create = 0x23
code queue_declare = 0x24
code queue_exist = 0x25
code queue_list = 0x26
code queue_rename = 0x27
code queue_size = 0x28
code queue_push = 0x29
code queue_get = 0x2a
code queue_pop = 0x2b
code queue_confirm = 0x2c
code queue_subscribe = 0x2d
code queue_unsubscribe = 0x2e
code queue_purge = 0x2f
code queue_delete = 0x30
code route_create = 0x31
code route_exist = 0x32
code route_list = 0x33
code route_keys = 0x34
code route_rename = 0x35
code route_bind = 0x36
code route_unbind = 0x37
code route_push = 0x38
code route_delete = 0x39
code channel_create = 0x3a
code channel_exist = 0x3b
code channel_list = 0x3c
code channel_rename = 0x3d
code channel_publish = 0x3e
code channel_subscribe = 0x3f
code channel_psubscribe = 0x40
code channel_unsubscribe = 0x41
code channel_punsubscribe = 0x42
code channel_delete = 0x43

-- `protocol_response_status`
abbrev pub status_success : ℕ
status_success = 0x1

abbrev pub status_error : ℕ
status_error = 0x2

abbrev pub status_error_packet : ℕ
status_error_packet = 0x3

abbrev pub status_error_command : ℕ
status_error_command = 0x4

abbrev pub status_error_access : ℕ
status_error_access = 0x5

abbrev pub status_error_memory : ℕ
status_error_memory = 0x6

abbrev pub status_error_value : ℕ
status_error_value = 0x7

abbrev pub status_error_not_declared : ℕ
status_error_not_declared = 0x8

abbrev pub status_error_not_found : ℕ
status_error_not_found = 0x9

abbrev pub status_error_no_data : ℕ
status_error_no_data = 0xa

-- `protocol_event_type`
abbrev pub event_notify : ℕ
event_notify = 0x1

abbrev pub event_message : ℕ
event_message = 0x2

-- `protocol_request_header`
pub record RequestHeader : Type 0 where
  pub magic : ℕ
  pub cmd : ℕ
  pub noack : ℕ
  pub bodylen : ℕ

abbrev pub request_header_fields : RequestHeader → List Field
request_header_fields h = word 2 h.magic ∷ word 1 h.cmd ∷ word 1 h.noack ∷ word 4 h.bodylen ∷ []

-- `protocol_response_header`, read from the bytes that the socket gave
pub record ResponseHeader : Type 0 where
  pub magic : ℕ
  pub cmd : ℕ
  pub status : ℕ
  pub bodylen : ℕ

abbrev pub header_size : ℕ
header_size = 8

unfoldable pub response_header : List ℕ → ResponseHeader
response_header bs = record {
  magic = decode (take 2 bs);
  cmd = decode (take 1 (drop 2 bs));
  status = decode (take 1 (drop 1 (drop 2 bs)));
  bodylen = decode (take 4 (drop 1 (drop 1 (drop 2 bs))));
}

-- `protocol_event_header`
pub record EventHeader : Type 0 where
  pub magic : ℕ
  pub cmd : ℕ
  pub type : ℕ
  pub bodylen : ℕ

unfoldable pub event_header : List ℕ → EventHeader
event_header bs = record {
  magic = decode (take 2 bs);
  cmd = decode (take 1 (drop 2 bs));
  type = decode (take 1 (drop 1 (drop 2 bs)));
  bodylen = decode (take 4 (drop 1 (drop 1 (drop 2 bs))));
}

-- The bytes of a response header, as the server writes them.
unfoldable pub response_header_bytes : ResponseHeader → List ℕ
response_header_bytes h =
    struct_bytes (word 2 h.magic ∷ word 1 h.cmd ∷ word 1 h.status ∷ word 4 h.bodylen ∷ [])

-- And of an event's header.
unfoldable pub event_header_bytes : EventHeader → List ℕ
event_header_bytes h =
    struct_bytes (word 2 h.magic ∷ word 1 h.cmd ∷ word 1 h.type ∷ word 4 h.bodylen ∷ [])

-- The members of each request's body, in order. (A `disconnect` is a header alone.)
unfoldable pub request_body : Command → List Slot
request_body auth = chars_slot 32 ∷ chars_slot 32 ∷ []
request_body ping = []
request_body stat = []
request_body save = word_slot 1 ∷ []
request_body flush = word_slot 4 ∷ []
request_body disconnect = []
request_body user_create = chars_slot 32 ∷ chars_slot 32 ∷ word_slot 8 ∷ []
request_body user_list = []
request_body user_rename = chars_slot 32 ∷ chars_slot 32 ∷ []
request_body user_set_perm = chars_slot 32 ∷ word_slot 8 ∷ []
request_body user_delete = chars_slot 32 ∷ []
request_body queue_create = chars_slot 64 ∷ word_slot 4 ∷ word_slot 4 ∷ word_slot 4 ∷ []
request_body queue_declare = chars_slot 64 ∷ []
request_body queue_exist = chars_slot 64 ∷ []
request_body queue_list = []
request_body queue_rename = chars_slot 64 ∷ chars_slot 64 ∷ []
request_body queue_size = chars_slot 64 ∷ []
request_body queue_push = chars_slot 64 ∷ []
request_body queue_get = chars_slot 64 ∷ []
request_body queue_pop = chars_slot 64 ∷ word_slot 4 ∷ []
request_body queue_confirm = chars_slot 64 ∷ word_slot 8 ∷ []
request_body queue_subscribe = chars_slot 64 ∷ word_slot 4 ∷ []
request_body queue_unsubscribe = chars_slot 64 ∷ []
request_body queue_purge = chars_slot 64 ∷ []
request_body queue_delete = chars_slot 64 ∷ []
request_body route_create = chars_slot 64 ∷ word_slot 4 ∷ []
request_body route_exist = chars_slot 64 ∷ []
request_body route_list = []
request_body route_keys = chars_slot 64 ∷ []
request_body route_rename = chars_slot 64 ∷ chars_slot 64 ∷ []
request_body route_bind = chars_slot 64 ∷ chars_slot 64 ∷ chars_slot 32 ∷ []
request_body route_unbind = chars_slot 64 ∷ chars_slot 64 ∷ chars_slot 32 ∷ []
request_body route_push = chars_slot 64 ∷ chars_slot 32 ∷ []
request_body route_delete = chars_slot 64 ∷ []
request_body channel_create = chars_slot 64 ∷ word_slot 4 ∷ []
request_body channel_exist = chars_slot 64 ∷ []
request_body channel_list = []
request_body channel_rename = chars_slot 64 ∷ chars_slot 64 ∷ []
request_body channel_publish = chars_slot 64 ∷ chars_slot 32 ∷ []
request_body channel_subscribe = chars_slot 64 ∷ chars_slot 32 ∷ []
request_body channel_psubscribe = chars_slot 64 ∷ chars_slot 32 ∷ []
request_body channel_unsubscribe = chars_slot 64 ∷ chars_slot 32 ∷ []
request_body channel_punsubscribe = chars_slot 64 ∷ chars_slot 32 ∷ []
request_body channel_delete = chars_slot 64 ∷ []
