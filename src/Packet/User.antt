-- ===== src/Packet/User.antt =====
-- src/packet.c: the `emq_user_` request functions.
use libemq.Base.{ℕ, [], ◌∷◌, ◌||◌, if◌then◌else◌}
use libemq.Wire.{Text, chars, word}
use libemq.Protocol.{Command}
use libemq.System.{System}
use libemq.Client.{Status, Prog, pure}
use libemq.Packet.{too_long, make_request}

module _ {World : Type 0} (sys : System World) where
  unfoldable pub user_create_request : Text → Text → ℕ → Prog World Status
  user_create_request name password perm =
      if too_long 32 name || too_long 32 password
      then pure Status.err
      else make_request sys Command.user_create
          (chars 32 name ∷ chars 32 password ∷ word 8 perm ∷ []) 0

  unfoldable pub user_list_request : Prog World Status
  user_list_request = make_request sys Command.user_list [] 0

  unfoldable pub user_rename_request : Text → Text → Prog World Status
  user_rename_request from to =
      if too_long 32 from || too_long 32 to
      then pure Status.err
      else make_request sys Command.user_rename (chars 32 from ∷ chars 32 to ∷ []) 0

  unfoldable pub user_set_perm_request : Text → ℕ → Prog World Status
  user_set_perm_request name perm =
      if too_long 32 name
      then pure Status.err
      else make_request sys Command.user_set_perm (chars 32 name ∷ word 8 perm ∷ []) 0

  unfoldable pub user_delete_request : Text → Prog World Status
  user_delete_request name =
      if too_long 32 name
      then pure Status.err
      else make_request sys Command.user_delete (chars 32 name ∷ []) 0
