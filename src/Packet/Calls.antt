-- ===== src/Packet/Calls.antt =====
-- One value for each request function of src/packet.h with its arguments, the function that it
-- stands for, and the server's reading of a request by the structs of src/protocol.h.
use libemq.Base.{ℕ, zero, suc, ◌-◌, Option, none, some, List, [], ◌∷◌, ◌==◌, if◌then◌else◌, drop}
use libemq.Wire.{Text, Field, chars, word, Slot, word_slot, size_of, read_struct}
use libemq.Protocol.{Command, header_size, magic_req, request_body}
use libemq.Protocol.Codes.{command_of}
use libemq.System.{System}
use libemq.Client.{Status, Prog}
use libemq.Packet.{}
use libemq.Packet.Session.{auth_request, ping_request, stat_request, save_request, flush_request}
use libemq.Packet.User.{
  user_create_request, user_list_request, user_rename_request, user_set_perm_request,
  user_delete_request,
}
use libemq.Packet.Queue.{
  queue_create_request, queue_declare_request, queue_exist_request, queue_list_request,
  queue_rename_request, queue_size_request, queue_push_request, queue_get_request,
  queue_pop_request, queue_confirm_request, queue_subscribe_request, queue_unsubscribe_request,
  queue_purge_request, queue_delete_request,
}
use libemq.Packet.Route.{
  route_create_request, route_exist_request, route_list_request, route_keys_request,
  route_rename_request, route_bind_request, route_unbind_request, route_push_request,
  route_delete_request,
}
use libemq.Packet.Channel.{
  channel_create_request, channel_exist_request, channel_list_request, channel_rename_request,
  channel_publish_request, channel_subscribe_request, channel_psubscribe_request,
  channel_unsubscribe_request, channel_punsubscribe_request, channel_delete_request,
}

pub data Call : Type 0 where
  auth : Text → Text → Call
  ping : Call
  stat : Call
  save : ℕ → Call
  flush : ℕ → Call
  user_create : Text → Text → ℕ → Call
  user_list : Call
  user_rename : Text → Text → Call
  user_set_perm : Text → ℕ → Call
  user_delete : Text → Call
  queue_create : Text → ℕ → ℕ → ℕ → Call
  queue_declare : Text → Call
  queue_exist : Text → Call
  queue_list : Call
  queue_rename : Text → Text → Call
  queue_size : Text → Call
  queue_push : Text → ℕ → Call
  queue_get : Text → Call
  queue_pop : Text → ℕ → Call
  queue_confirm : Text → ℕ → Call
  queue_subscribe : Text → ℕ → Call
  queue_unsubscribe : Text → Call
  queue_purge : Text → Call
  queue_delete : Text → Call
  route_create : Text → ℕ → Call
  route_exist : Text → Call
  route_list : Call
  route_keys : Text → Call
  route_rename : Text → Text → Call
  route_bind : Text → Text → Text → Call
  route_unbind : Text → Text → Text → Call
  route_push : Text → Text → ℕ → Call
  route_delete : Text → Call
  channel_create : Text → ℕ → Call
  channel_exist : Text → Call
  channel_list : Call
  channel_rename : Text → Text → Call
  channel_publish : Text → Text → ℕ → Call
  channel_subscribe : Text → Text → Call
  channel_psubscribe : Text → Text → Call
  channel_unsubscribe : Text → Text → Call
  channel_punsubscribe : Text → Text → Call
  channel_delete : Text → Call

-- The request function of a call.
unfoldable pub build : {World : Type 0} → System World → Call → Prog World Status
unfolding auth_request ping_request stat_request save_request flush_request user_create_request
    user_list_request user_rename_request user_set_perm_request user_delete_request
    queue_create_request queue_declare_request queue_exist_request queue_list_request
    queue_rename_request queue_size_request queue_push_request queue_get_request queue_pop_request
    queue_confirm_request queue_subscribe_request queue_unsubscribe_request queue_purge_request
    queue_delete_request route_create_request route_exist_request route_list_request
    route_keys_request route_rename_request route_bind_request route_unbind_request
    route_push_request route_delete_request channel_create_request channel_exist_request
    channel_list_request channel_rename_request channel_publish_request channel_subscribe_request
    channel_psubscribe_request channel_unsubscribe_request channel_punsubscribe_request
    channel_delete_request
build sys (Call.auth name password) = auth_request sys name password
build sys (Call.ping) = ping_request sys
build sys (Call.stat) = stat_request sys
build sys (Call.save async) = save_request sys async
build sys (Call.flush flags) = flush_request sys flags
build sys (Call.user_create name password perm) = user_create_request sys name password perm
build sys (Call.user_list) = user_list_request sys
build sys (Call.user_rename from to) = user_rename_request sys from to
build sys (Call.user_set_perm name perm) = user_set_perm_request sys name perm
build sys (Call.user_delete name) = user_delete_request sys name
build sys (Call.queue_create name max_msg max_msg_size flags) =
    queue_create_request sys name max_msg max_msg_size flags
build sys (Call.queue_declare name) = queue_declare_request sys name
build sys (Call.queue_exist name) = queue_exist_request sys name
build sys (Call.queue_list) = queue_list_request sys
build sys (Call.queue_rename from to) = queue_rename_request sys from to
build sys (Call.queue_size name) = queue_size_request sys name
build sys (Call.queue_push name msg_size) = queue_push_request sys name msg_size
build sys (Call.queue_get name) = queue_get_request sys name
build sys (Call.queue_pop name timeout) = queue_pop_request sys name timeout
build sys (Call.queue_confirm name tag) = queue_confirm_request sys name tag
build sys (Call.queue_subscribe name flags) = queue_subscribe_request sys name flags
build sys (Call.queue_unsubscribe name) = queue_unsubscribe_request sys name
build sys (Call.queue_purge name) = queue_purge_request sys name
build sys (Call.queue_delete name) = queue_delete_request sys name
build sys (Call.route_create name flags) = route_create_request sys name flags
build sys (Call.route_exist name) = route_exist_request sys name
build sys (Call.route_list) = route_list_request sys
build sys (Call.route_keys name) = route_keys_request sys name
build sys (Call.route_rename from to) = route_rename_request sys from to
build sys (Call.route_bind name queue key) = route_bind_request sys name queue key
build sys (Call.route_unbind name queue key) = route_unbind_request sys name queue key
build sys (Call.route_push name key msg_size) = route_push_request sys name key msg_size
build sys (Call.route_delete name) = route_delete_request sys name
build sys (Call.channel_create name flags) = channel_create_request sys name flags
build sys (Call.channel_exist name) = channel_exist_request sys name
build sys (Call.channel_list) = channel_list_request sys
build sys (Call.channel_rename from to) = channel_rename_request sys from to
build sys (Call.channel_publish name topic msg_size) =
    channel_publish_request sys name topic msg_size
build sys (Call.channel_subscribe name topic) = channel_subscribe_request sys name topic
build sys (Call.channel_psubscribe name glob) = channel_psubscribe_request sys name glob
build sys (Call.channel_unsubscribe name topic) = channel_unsubscribe_request sys name topic
build sys (Call.channel_punsubscribe name glob) = channel_punsubscribe_request sys name glob
build sys (Call.channel_delete name) = channel_delete_request sys name

-- What the call puts into the request: its command, the members of the body, and the length of
-- the message that the caller sends behind it.
unfoldable pub command : Call → Command
command (Call.auth _ _) = Command.auth
command (Call.ping) = Command.ping
command (Call.stat) = Command.stat
command (Call.save _) = Command.save
command (Call.flush _) = Command.flush
command (Call.user_create _ _ _) = Command.user_create
command (Call.user_list) = Command.user_list
command (Call.user_rename _ _) = Command.user_rename
command (Call.user_set_perm _ _) = Command.user_set_perm
command (Call.user_delete _) = Command.user_delete
command (Call.queue_create _ _ _ _) = Command.queue_create
command (Call.queue_declare _) = Command.queue_declare
command (Call.queue_exist _) = Command.queue_exist
command (Call.queue_list) = Command.queue_list
command (Call.queue_rename _ _) = Command.queue_rename
command (Call.queue_size _) = Command.queue_size
command (Call.queue_push _ _) = Command.queue_push
command (Call.queue_get _) = Command.queue_get
command (Call.queue_pop _ _) = Command.queue_pop
command (Call.queue_confirm _ _) = Command.queue_confirm
command (Call.queue_subscribe _ _) = Command.queue_subscribe
command (Call.queue_unsubscribe _) = Command.queue_unsubscribe
command (Call.queue_purge _) = Command.queue_purge
command (Call.queue_delete _) = Command.queue_delete
command (Call.route_create _ _) = Command.route_create
command (Call.route_exist _) = Command.route_exist
command (Call.route_list) = Command.route_list
command (Call.route_keys _) = Command.route_keys
command (Call.route_rename _ _) = Command.route_rename
command (Call.route_bind _ _ _) = Command.route_bind
command (Call.route_unbind _ _ _) = Command.route_unbind
command (Call.route_push _ _ _) = Command.route_push
command (Call.route_delete _) = Command.route_delete
command (Call.channel_create _ _) = Command.channel_create
command (Call.channel_exist _) = Command.channel_exist
command (Call.channel_list) = Command.channel_list
command (Call.channel_rename _ _) = Command.channel_rename
command (Call.channel_publish _ _ _) = Command.channel_publish
command (Call.channel_subscribe _ _) = Command.channel_subscribe
command (Call.channel_psubscribe _ _) = Command.channel_psubscribe
command (Call.channel_unsubscribe _ _) = Command.channel_unsubscribe
command (Call.channel_punsubscribe _ _) = Command.channel_punsubscribe
command (Call.channel_delete _) = Command.channel_delete

unfoldable pub body : Call → List Field
body (Call.auth name password) = chars 32 name ∷ chars 32 password ∷ []
body (Call.ping) = []
body (Call.stat) = []
body (Call.save async) = word 1 async ∷ []
body (Call.flush flags) = word 4 flags ∷ []
body (Call.user_create name password perm) = chars 32 name ∷ chars 32 password ∷ word 8 perm ∷ []
body (Call.user_list) = []
body (Call.user_rename from to) = chars 32 from ∷ chars 32 to ∷ []
body (Call.user_set_perm name perm) = chars 32 name ∷ word 8 perm ∷ []
body (Call.user_delete name) = chars 32 name ∷ []
body (Call.queue_create name max_msg max_msg_size flags) =
    chars 64 name ∷ word 4 max_msg ∷ word 4 max_msg_size ∷ word 4 flags ∷ []
body (Call.queue_declare name) = chars 64 name ∷ []
body (Call.queue_exist name) = chars 64 name ∷ []
body (Call.queue_list) = []
body (Call.queue_rename from to) = chars 64 from ∷ chars 64 to ∷ []
body (Call.queue_size name) = chars 64 name ∷ []
body (Call.queue_push name msg_size) = chars 64 name ∷ []
body (Call.queue_get name) = chars 64 name ∷ []
body (Call.queue_pop name timeout) = chars 64 name ∷ word 4 timeout ∷ []
body (Call.queue_confirm name tag) = chars 64 name ∷ word 8 tag ∷ []
body (Call.queue_subscribe name flags) = chars 64 name ∷ word 4 flags ∷ []
body (Call.queue_unsubscribe name) = chars 64 name ∷ []
body (Call.queue_purge name) = chars 64 name ∷ []
body (Call.queue_delete name) = chars 64 name ∷ []
body (Call.route_create name flags) = chars 64 name ∷ word 4 flags ∷ []
body (Call.route_exist name) = chars 64 name ∷ []
body (Call.route_list) = []
body (Call.route_keys name) = chars 64 name ∷ []
body (Call.route_rename from to) = chars 64 from ∷ chars 64 to ∷ []
body (Call.route_bind name queue key) = chars 64 name ∷ chars 64 queue ∷ chars 32 key ∷ []
body (Call.route_unbind name queue key) = chars 64 name ∷ chars 64 queue ∷ chars 32 key ∷ []
body (Call.route_push name key msg_size) = chars 64 name ∷ chars 32 key ∷ []
body (Call.route_delete name) = chars 64 name ∷ []
body (Call.channel_create name flags) = chars 64 name ∷ word 4 flags ∷ []
body (Call.channel_exist name) = chars 64 name ∷ []
body (Call.channel_list) = []
body (Call.channel_rename from to) = chars 64 from ∷ chars 64 to ∷ []
body (Call.channel_publish name topic msg_size) = chars 64 name ∷ chars 32 topic ∷ []
body (Call.channel_subscribe name topic) = chars 64 name ∷ chars 32 topic ∷ []
body (Call.channel_psubscribe name glob) = chars 64 name ∷ chars 32 glob ∷ []
body (Call.channel_unsubscribe name topic) = chars 64 name ∷ chars 32 topic ∷ []
body (Call.channel_punsubscribe name glob) = chars 64 name ∷ chars 32 glob ∷ []
body (Call.channel_delete name) = chars 64 name ∷ []

unfoldable pub message_size : Call → ℕ
message_size (Call.queue_push _ msg_size) = msg_size
message_size (Call.route_push _ _ msg_size) = msg_size
message_size (Call.channel_publish _ _ msg_size) = msg_size
message_size _ = 0

-- The members of a received struct by their positions.
abbrev text_at : ℕ → List Field → Text
text_at i [] = []
text_at zero (chars n s ∷ fs) = s
text_at zero (word k v ∷ fs) = []
text_at (suc i) (f ∷ fs) = text_at i fs

abbrev word_at : ℕ → List Field → ℕ
word_at i [] = 0
word_at zero (chars n s ∷ fs) = 0
word_at zero (word k v ∷ fs) = v
word_at (suc i) (f ∷ fs) = word_at i fs

-- The call that a command, a body and the length of the message behind it stand for. No request
-- function sends `disconnect`.
unfoldable pub call_of : Command → List Field → ℕ → Option Call
call_of Command.auth fs n = some (Call.auth (text_at 0 fs) (text_at 1 fs))
call_of Command.ping fs n = some (Call.ping)
call_of Command.stat fs n = some (Call.stat)
call_of Command.save fs n = some (Call.save (word_at 0 fs))
call_of Command.flush fs n = some (Call.flush (word_at 0 fs))
call_of Command.disconnect fs n = none
call_of Command.user_create fs n =
    some (Call.user_create (text_at 0 fs) (text_at 1 fs) (word_at 2 fs))
call_of Command.user_list fs n = some (Call.user_list)
call_of Command.user_rename fs n = some (Call.user_rename (text_at 0 fs) (text_at 1 fs))
call_of Command.user_set_perm fs n = some (Call.user_set_perm (text_at 0 fs) (word_at 1 fs))
call_of Command.user_delete fs n = some (Call.user_delete (text_at 0 fs))
call_of Command.queue_create fs n =
    some (Call.queue_create (text_at 0 fs) (word_at 1 fs) (word_at 2 fs) (word_at 3 fs))
call_of Command.queue_declare fs n = some (Call.queue_declare (text_at 0 fs))
call_of Command.queue_exist fs n = some (Call.queue_exist (text_at 0 fs))
call_of Command.queue_list fs n = some (Call.queue_list)
call_of Command.queue_rename fs n = some (Call.queue_rename (text_at 0 fs) (text_at 1 fs))
call_of Command.queue_size fs n = some (Call.queue_size (text_at 0 fs))
call_of Command.queue_push fs n = some (Call.queue_push (text_at 0 fs) n)
call_of Command.queue_get fs n = some (Call.queue_get (text_at 0 fs))
call_of Command.queue_pop fs n = some (Call.queue_pop (text_at 0 fs) (word_at 1 fs))
call_of Command.queue_confirm fs n = some (Call.queue_confirm (text_at 0 fs) (word_at 1 fs))
call_of Command.queue_subscribe fs n = some (Call.queue_subscribe (text_at 0 fs) (word_at 1 fs))
call_of Command.queue_unsubscribe fs n = some (Call.queue_unsubscribe (text_at 0 fs))
call_of Command.queue_purge fs n = some (Call.queue_purge (text_at 0 fs))
call_of Command.queue_delete fs n = some (Call.queue_delete (text_at 0 fs))
call_of Command.route_create fs n = some (Call.route_create (text_at 0 fs) (word_at 1 fs))
call_of Command.route_exist fs n = some (Call.route_exist (text_at 0 fs))
call_of Command.route_list fs n = some (Call.route_list)
call_of Command.route_keys fs n = some (Call.route_keys (text_at 0 fs))
call_of Command.route_rename fs n = some (Call.route_rename (text_at 0 fs) (text_at 1 fs))
call_of Command.route_bind fs n =
    some (Call.route_bind (text_at 0 fs) (text_at 1 fs) (text_at 2 fs))
call_of Command.route_unbind fs n =
    some (Call.route_unbind (text_at 0 fs) (text_at 1 fs) (text_at 2 fs))
call_of Command.route_push fs n = some (Call.route_push (text_at 0 fs) (text_at 1 fs) n)
call_of Command.route_delete fs n = some (Call.route_delete (text_at 0 fs))
call_of Command.channel_create fs n = some (Call.channel_create (text_at 0 fs) (word_at 1 fs))
call_of Command.channel_exist fs n = some (Call.channel_exist (text_at 0 fs))
call_of Command.channel_list fs n = some (Call.channel_list)
call_of Command.channel_rename fs n = some (Call.channel_rename (text_at 0 fs) (text_at 1 fs))
call_of Command.channel_publish fs n = some (Call.channel_publish (text_at 0 fs) (text_at 1 fs) n)
call_of Command.channel_subscribe fs n = some (Call.channel_subscribe (text_at 0 fs) (text_at 1 fs))
call_of Command.channel_psubscribe fs n =
    some (Call.channel_psubscribe (text_at 0 fs) (text_at 1 fs))
call_of Command.channel_unsubscribe fs n =
    some (Call.channel_unsubscribe (text_at 0 fs) (text_at 1 fs))
call_of Command.channel_punsubscribe fs n =
    some (Call.channel_punsubscribe (text_at 0 fs) (text_at 1 fs))
call_of Command.channel_delete fs n = some (Call.channel_delete (text_at 0 fs))

abbrev pub request_header_slots : List Slot
request_header_slots = word_slot 2 ∷ word_slot 1 ∷ word_slot 1 ∷ word_slot 4 ∷ []

-- A request read back: the `noack` flag and the call.
tagged : ℕ → Option Call → Option (ℕ × Call)
tagged noack none = none
tagged noack (some call) = some (noack, call)

unfoldable pub parse_body : ℕ → ℕ → Option Command → List ℕ → Option (ℕ × Call)
unfolding tagged
parse_body noack bodylen none bs = none
parse_body noack bodylen (some c) bs =
    tagged noack (call_of c (read_struct (request_body c) bs) (bodylen - size_of (request_body c)))

unfoldable pub parse : List ℕ → Option (ℕ × Call)
parse bs =
    let h = read_struct request_header_slots bs in
    if word_at 0 h == magic_req
    then parse_body (word_at 2 h) (word_at 3 h) (command_of (word_at 1 h)) (drop header_size bs)
    else none
