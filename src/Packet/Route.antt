-- ===== src/Packet/Route.antt =====
-- src/packet.c: the `emq_route_` request functions.
use libemq.Base.{ℕ, [], ◌∷◌, ◌||◌, if◌then◌else◌}
use libemq.Wire.{Text, chars, word}
use libemq.Protocol.{Command}
use libemq.System.{System}
use libemq.Client.{Status, Prog, pure}
use libemq.Packet.{too_long, make_request}

module _ {World : Type 0} (sys : System World) where
  unfoldable pub route_create_request : Text → ℕ → Prog World Status
  route_create_request name flags =
      if too_long 64 name
      then pure Status.err
      else make_request sys Command.route_create (chars 64 name ∷ word 4 flags ∷ []) 0

  unfoldable pub route_exist_request : Text → Prog World Status
  route_exist_request name =
      if too_long 64 name
      then pure Status.err
      else make_request sys Command.route_exist (chars 64 name ∷ []) 0

  unfoldable pub route_list_request : Prog World Status
  route_list_request = make_request sys Command.route_list [] 0

  unfoldable pub route_keys_request : Text → Prog World Status
  route_keys_request name =
      if too_long 64 name
      then pure Status.err
      else make_request sys Command.route_keys (chars 64 name ∷ []) 0

  unfoldable pub route_rename_request : Text → Text → Prog World Status
  route_rename_request from to =
      if too_long 64 from || too_long 64 to
      then pure Status.err
      else make_request sys Command.route_rename (chars 64 from ∷ chars 64 to ∷ []) 0

  unfoldable pub route_bind_request : Text → Text → Text → Prog World Status
  route_bind_request name queue key =
      if too_long 64 name || too_long 64 queue || too_long 32 key
      then pure Status.err
      else make_request sys Command.route_bind (chars 64 name ∷ chars 64 queue ∷ chars 32 key ∷ [])
          0

  unfoldable pub route_unbind_request : Text → Text → Text → Prog World Status
  route_unbind_request name queue key =
      if too_long 64 name || too_long 64 queue || too_long 32 key
      then pure Status.err
      else make_request sys Command.route_unbind
          (chars 64 name ∷ chars 64 queue ∷ chars 32 key ∷ []) 0

  unfoldable pub route_push_request : Text → Text → ℕ → Prog World Status
  route_push_request name key msg_size =
      if too_long 64 name || too_long 32 key
      then pure Status.err
      else make_request sys Command.route_push (chars 64 name ∷ chars 32 key ∷ []) msg_size

  unfoldable pub route_delete_request : Text → Prog World Status
  route_delete_request name =
      if too_long 64 name
      then pure Status.err
      else make_request sys Command.route_delete (chars 64 name ∷ []) 0
