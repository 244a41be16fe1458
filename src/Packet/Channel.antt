-- ===== src/Packet/Channel.antt =====
-- src/packet.c: the `emq_channel_` request functions.
use libemq.Base.{ℕ, [], ◌∷◌, ◌||◌, if◌then◌else◌}
use libemq.Wire.{Text, chars, word}
use libemq.Protocol.{Command}
use libemq.System.{System}
use libemq.Client.{Status, Prog, pure}
use libemq.Packet.{too_long, make_request}

module _ {World : Type 0} (sys : System World) where
  unfoldable pub channel_create_request : Text → ℕ → Prog World Status
  channel_create_request name flags =
      if too_long 64 name
      then pure Status.err
      else make_request sys Command.channel_create (chars 64 name ∷ word 4 flags ∷ []) 0

  unfoldable pub channel_exist_request : Text → Prog World Status
  channel_exist_request name =
      if too_long 64 name
      then pure Status.err
      else make_request sys Command.channel_exist (chars 64 name ∷ []) 0

  unfoldable pub channel_list_request : Prog World Status
  channel_list_request = make_request sys Command.channel_list [] 0

  unfoldable pub channel_rename_request : Text → Text → Prog World Status
  channel_rename_request from to =
      if too_long 64 from || too_long 64 to
      then pure Status.err
      else make_request sys Command.channel_rename (chars 64 from ∷ chars 64 to ∷ []) 0

  unfoldable pub channel_publish_request : Text → Text → ℕ → Prog World Status
  channel_publish_request name topic msg_size =
      if too_long 64 name || too_long 32 topic
      then pure Status.err
      else make_request sys Command.channel_publish (chars 64 name ∷ chars 32 topic ∷ []) msg_size

  unfoldable pub channel_subscribe_request : Text → Text → Prog World Status
  channel_subscribe_request name topic =
      if too_long 64 name || too_long 32 topic
      then pure Status.err
      else make_request sys Command.channel_subscribe (chars 64 name ∷ chars 32 topic ∷ []) 0

  unfoldable pub channel_psubscribe_request : Text → Text → Prog World Status
  channel_psubscribe_request name glob =
      if too_long 64 name || too_long 32 glob
      then pure Status.err
      else make_request sys Command.channel_psubscribe (chars 64 name ∷ chars 32 glob ∷ []) 0

  unfoldable pub channel_unsubscribe_request : Text → Text → Prog World Status
  channel_unsubscribe_request name topic =
      if too_long 64 name || too_long 32 topic
      then pure Status.err
      else make_request sys Command.channel_unsubscribe (chars 64 name ∷ chars 32 topic ∷ []) 0

  unfoldable pub channel_punsubscribe_request : Text → Text → Prog World Status
  channel_punsubscribe_request name glob =
      if too_long 64 name || too_long 32 glob
      then pure Status.err
      else make_request sys Command.channel_punsubscribe (chars 64 name ∷ chars 32 glob ∷ []) 0

  unfoldable pub channel_delete_request : Text → Prog World Status
  channel_delete_request name =
      if too_long 64 name
      then pure Status.err
      else make_request sys Command.channel_delete (chars 64 name ∷ []) 0
