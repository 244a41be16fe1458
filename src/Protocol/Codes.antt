-- ===== src/Protocol/Codes.antt =====
-- The numbers of the commands, and the command that a number stands for: the server's lookup.
use libemq.Base.{ℕ, ◌%◌, ◌^◌, ◌≡◌, refl, Option, none, some, ◌==◌, if◌then◌else◌, List, [], ◌∷◌}
use libemq.Protocol.{Command, code}

abbrev all_commands : List Command
all_commands =
    Command.auth ∷ Command.ping ∷ Command.stat ∷ Command.save ∷ Command.flush ∷ Command.disconnect
    ∷ Command.user_create ∷ Command.user_list ∷ Command.user_rename ∷ Command.user_set_perm
    ∷ Command.user_delete ∷ Command.queue_create ∷ Command.queue_declare ∷ Command.queue_exist
    ∷ Command.queue_list ∷ Command.queue_rename ∷ Command.queue_size ∷ Command.queue_push
    ∷ Command.queue_get ∷ Command.queue_pop ∷ Command.queue_confirm ∷ Command.queue_subscribe
    ∷ Command.queue_unsubscribe ∷ Command.queue_purge ∷ Command.queue_delete ∷ Command.route_create
    ∷ Command.route_exist ∷ Command.route_list ∷ Command.route_keys ∷ Command.route_rename
    ∷ Command.route_bind ∷ Command.route_unbind ∷ Command.route_push ∷ Command.route_delete
    ∷ Command.channel_create ∷ Command.channel_exist ∷ Command.channel_list ∷ Command.channel_rename
    ∷ Command.channel_publish ∷ Command.channel_subscribe ∷ Command.channel_psubscribe
    ∷ Command.channel_unsubscribe ∷ Command.channel_punsubscribe ∷ Command.channel_delete ∷ []

find_command : ℕ → List Command → Option Command
find_command n [] = none
find_command n (c ∷ cs) = if code c == n then some c else find_command n cs

unfoldable pub command_of : ℕ → Option Command
unfolding find_command code
command_of n = find_command n all_commands

pub command_of-code : (c : Command) → command_of (code c) ≡ some c
unfolding command_of
command_of-code Command.auth = refl
command_of-code Command.ping = refl
command_of-code Command.stat = refl
command_of-code Command.save = refl
command_of-code Command.flush = refl
command_of-code Command.disconnect = refl
command_of-code Command.user_create = refl
command_of-code Command.user_list = refl
command_of-code Command.user_rename = refl
command_of-code Command.user_set_perm = refl
command_of-code Command.user_delete = refl
command_of-code Command.queue_create = refl
command_of-code Command.queue_declare = refl
command_of-code Command.queue_exist = refl
command_of-code Command.queue_list = refl
command_of-code Command.queue_rename = refl
command_of-code Command.queue_size = refl
command_of-code Command.queue_push = refl
command_of-code Command.queue_get = refl
command_of-code Command.queue_pop = refl
command_of-code Command.queue_confirm = refl
command_of-code Command.queue_subscribe = refl
command_of-code Command.queue_unsubscribe = refl
command_of-code Command.queue_purge = refl
command_of-code Command.queue_delete = refl
command_of-code Command.route_create = refl
command_of-code Command.route_exist = refl
command_of-code Command.route_list = refl
command_of-code Command.route_keys = refl
command_of-code Command.route_rename = refl
command_of-code Command.route_bind = refl
command_of-code Command.route_unbind = refl
command_of-code Command.route_push = refl
command_of-code Command.route_delete = refl
command_of-code Command.channel_create = refl
command_of-code Command.channel_exist = refl
command_of-code Command.channel_list = refl
command_of-code Command.channel_rename = refl
command_of-code Command.channel_publish = refl
command_of-code Command.channel_subscribe = refl
command_of-code Command.channel_psubscribe = refl
command_of-code Command.channel_unsubscribe = refl
command_of-code Command.channel_punsubscribe = refl
command_of-code Command.channel_delete = refl

-- A command is a byte.
pub code-small : (c : Command) → code c % 2 ^ 8 ≡ code c
unfolding code
code-small Command.auth = refl
code-small _ = refl
