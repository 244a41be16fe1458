-- ===== src/Packet/Queue.antt =====
-- src/packet.c: the `emq_queue_` request functions.
use libemq.Base.{ℕ, [], ◌∷◌, ◌||◌, if◌then◌else◌}
use libemq.Wire.{Text, chars, word}
use libemq.Protocol.{Command}
use libemq.System.{System}
use libemq.Client.{Status, Prog, pure}
use libemq.Packet.{too_long, make_request}

module _ {World : Type 0} (sys : System World) where
  unfoldable pub queue_create_request : Text → ℕ → ℕ → ℕ → Prog World Status
  queue_create_request name max_msg max_msg_size flags =
      if too_long 64 name
      then pure Status.err
      else make_request sys Command.queue_create
          (chars 64 name ∷ word 4 max_msg ∷ word 4 max_msg_size ∷ word 4 flags ∷ []) 0

  unfoldable pub queue_declare_request : Text → Prog World Status
  queue_declare_request name =
      if too_long 64 name
      then pure Status.err
      else make_request sys Command.queue_declare (chars 64 name ∷ []) 0

  unfoldable pub queue_exist_request : Text → Prog World Status
  queue_exist_request name =
      if too_long 64 name
      then pure Status.err
      else make_request sys Command.queue_exist (chars 64 name ∷ []) 0

  unfoldable pub queue_list_request : Prog World Status
  queue_list_request = make_request sys Command.queue_list [] 0

  unfoldable pub queue_rename_request : Text → Text → Prog World Status
  queue_rename_request from to =
      if too_long 64 from || too_long 64 to
      then pure Status.err
      else make_request sys Command.queue_rename (chars 64 from ∷ chars 64 to ∷ []) 0

  unfoldable pub queue_size_request : Text → Prog World Status
  queue_size_request name =
      if too_long 64 name
      then pure Status.err
      else make_request sys Command.queue_size (chars 64 name ∷ []) 0

  unfoldable pub queue_push_request : Text → ℕ → Prog World Status
  queue_push_request name msg_size =
      if too_long 64 name
      then pure Status.err
      else make_request sys Command.queue_push (chars 64 name ∷ []) msg_size

  unfoldable pub queue_get_request : Text → Prog World Status
  queue_get_request name =
      if too_long 64 name
      then pure Status.err
      else make_request sys Command.queue_get (chars 64 name ∷ []) 0

  unfoldable pub queue_pop_request : Text → ℕ → Prog World Status
  queue_pop_request name timeout =
      if too_long 64 name
      then pure Status.err
      else make_request sys Command.queue_pop (chars 64 name ∷ word 4 timeout ∷ []) 0

  unfoldable pub queue_confirm_request : Text → ℕ → Prog World Status
  queue_confirm_request name tag =
      if too_long 64 name
      then pure Status.err
      else make_request sys Command.queue_confirm (chars 64 name ∷ word 8 tag ∷ []) 0

  unfoldable pub queue_subscribe_request : Text → ℕ → Prog World Status
  queue_subscribe_request name flags =
      if too_long 64 name
      then pure Status.err
      else make_request sys Command.queue_subscribe (chars 64 name ∷ word 4 flags ∷ []) 0

  unfoldable pub queue_unsubscribe_request : Text → Prog World Status
  queue_unsubscribe_request name =
      if too_long 64 name
      then pure Status.err
      else make_request sys Command.queue_unsubscribe (chars 64 name ∷ []) 0

  unfoldable pub queue_purge_request : Text → Prog World Status
  queue_purge_request name =
      if too_long 64 name
      then pure Status.err
      else make_request sys Command.queue_purge (chars 64 name ∷ []) 0

  unfoldable pub queue_delete_request : Text → Prog World Status
  queue_delete_request name =
      if too_long 64 name
      then pure Status.err
      else make_request sys Command.queue_delete (chars 64 name ∷ []) 0
