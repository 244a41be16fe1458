-- ===== src/Api/Commands.antt =====
-- The functions that send a command and wait for a bare response, each with the request that it
-- sends: the theorems speak of all of them at once.
use libemq.Base.{ℕ, ◌≡◌, refl}
use libemq.Wire.{Text}
use libemq.System.{System}
use libemq.Client.{Status, Prog}
use libemq.Packet.{check_response_header}
use libemq.Packet.Calls.{Call, build, command}
use libemq.Api.{run_command}
use libemq.Api.Session.{auth, ping, save, flush}
use libemq.Api.User.{user_create, user_rename, user_set_perm, user_delete}
use libemq.Api.Queue.{queue_create, queue_declare, queue_rename, queue_purge, queue_delete}
use libemq.Api.Route.{route_create, route_rename, route_bind, route_unbind, route_delete}
use libemq.Api.Channel.{channel_create, channel_rename, channel_delete}

module _ {World : Type 0} (sys : System World) where
  pub data Sending : Call → Prog World Status → Type 0 where
    auth_sends :
        (name : Text)
        → (password : Text) → Sending (Call.auth name password) (auth sys name password)
    ping_sends : Sending Call.ping (ping sys)
    save_sends : (async : ℕ) → Sending (Call.save async) (save sys async)
    flush_sends : (flags : ℕ) → Sending (Call.flush flags) (flush sys flags)
    user_create_sends :
        (name : Text)
        → (password : Text) → (perm : ℕ)
        → Sending (Call.user_create name password perm) (user_create sys name password perm)
    user_rename_sends :
        (from : Text) → (to : Text) → Sending (Call.user_rename from to) (user_rename sys from to)
    user_set_perm_sends :
        (name : Text)
        → (perm : ℕ) → Sending (Call.user_set_perm name perm) (user_set_perm sys name perm)
    user_delete_sends : (name : Text) → Sending (Call.user_delete name) (user_delete sys name)
    queue_create_sends :
        (name : Text)
        → (max_msg : ℕ) → (max_msg_size : ℕ) → (flags : ℕ)
        → Sending
            (Call.queue_create name max_msg max_msg_size flags)
            (queue_create sys name max_msg max_msg_size flags)
    queue_declare_sends : (name : Text) → Sending (Call.queue_declare name) (queue_declare sys name)
    queue_rename_sends :
        (from : Text) → (to : Text) → Sending (Call.queue_rename from to) (queue_rename sys from to)
    queue_purge_sends : (name : Text) → Sending (Call.queue_purge name) (queue_purge sys name)
    queue_delete_sends : (name : Text) → Sending (Call.queue_delete name) (queue_delete sys name)
    route_create_sends :
        (name : Text)
        → (flags : ℕ) → Sending (Call.route_create name flags) (route_create sys name flags)
    route_rename_sends :
        (from : Text) → (to : Text) → Sending (Call.route_rename from to) (route_rename sys from to)
    route_bind_sends :
        (name : Text)
        → (queue : Text) → (key : Text)
        → Sending (Call.route_bind name queue key) (route_bind sys name queue key)
    route_unbind_sends :
        (name : Text)
        → (queue : Text) → (key : Text)
        → Sending (Call.route_unbind name queue key) (route_unbind sys name queue key)
    route_delete_sends : (name : Text) → Sending (Call.route_delete name) (route_delete sys name)
    channel_create_sends :
        (name : Text)
        → (flags : ℕ) → Sending (Call.channel_create name flags) (channel_create sys name flags)
    channel_rename_sends :
        (from : Text)
        → (to : Text) → Sending (Call.channel_rename from to) (channel_rename sys from to)
    channel_delete_sends :
        (name : Text) → Sending (Call.channel_delete name) (channel_delete sys name)

  -- Each of them is the shared body over its request, and tests for its own command.
  pub Sending-run_command :
      {call : Call} {run : Prog World Status}
      → Sending call run
      → run ≡ run_command sys (build sys call) (λ h. check_response_header h (command call) 0)
  unfolding build command auth ping save flush user_create user_rename user_set_perm user_delete
      queue_create queue_declare queue_rename queue_purge queue_delete route_create route_rename
      route_bind route_unbind route_delete channel_create channel_rename channel_delete
  Sending-run_command (auth_sends name password) = refl
  Sending-run_command (ping_sends) = refl
  Sending-run_command (save_sends async) = refl
  Sending-run_command (flush_sends flags) = refl
  Sending-run_command (user_create_sends name password perm) = refl
  Sending-run_command (user_rename_sends from to) = refl
  Sending-run_command (user_set_perm_sends name perm) = refl
  Sending-run_command (user_delete_sends name) = refl
  Sending-run_command (queue_create_sends name max_msg max_msg_size flags) = refl
  Sending-run_command (queue_declare_sends name) = refl
  Sending-run_command (queue_rename_sends from to) = refl
  Sending-run_command (queue_purge_sends name) = refl
  Sending-run_command (queue_delete_sends name) = refl
  Sending-run_command (route_create_sends name flags) = refl
  Sending-run_command (route_rename_sends from to) = refl
  Sending-run_command (route_bind_sends name queue key) = refl
  Sending-run_command (route_unbind_sends name queue key) = refl
  Sending-run_command (route_delete_sends name) = refl
  Sending-run_command (channel_create_sends name flags) = refl
  Sending-run_command (channel_rename_sends from to) = refl
  Sending-run_command (channel_delete_sends name) = refl
