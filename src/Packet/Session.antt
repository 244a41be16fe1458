-- ===== src/Packet/Session.antt =====
-- src/packet.c: `emq_auth_request` to `emq_flush_request`.
use libemq.Base.{ℕ, [], ◌∷◌, ◌||◌, if◌then◌else◌}
use libemq.Wire.{Text, chars, word}
use libemq.Protocol.{Command}
use libemq.System.{System}
use libemq.Client.{Status, Prog, pure}
use libemq.Packet.{too_long, make_request}

module _ {World : Type 0} (sys : System World) where
  unfoldable pub auth_request : Text → Text → Prog World Status
  auth_request name password =
      if too_long 32 name || too_long 32 password
      then pure Status.err
      else make_request sys Command.auth (chars 32 name ∷ chars 32 password ∷ []) 0

  unfoldable pub ping_request : Prog World Status
  ping_request = make_request sys Command.ping [] 0

  unfoldable pub stat_request : Prog World Status
  stat_request = make_request sys Command.stat [] 0

  unfoldable pub save_request : ℕ → Prog World Status
  save_request async = make_request sys Command.save (word 1 async ∷ []) 0

  unfoldable pub flush_request : ℕ → Prog World Status
  flush_request flags = make_request sys Command.flush (word 4 flags ∷ []) 0
