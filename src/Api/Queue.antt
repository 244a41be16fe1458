-- ===== src/Api/Queue.antt =====
-- src/emq.c: the `emq_queue_` functions that send a command or a query.
use libemq.Base.{ℕ}
use libemq.Wire.{Text}
use libemq.Protocol.{Command}
use libemq.System.{System}
use libemq.Client.{Status, Prog}
use libemq.Packet.{check_response_header, check_response_header_mini}
use libemq.Api.{run_command, run_query, minus_one}
use libemq.Packet.Queue.{
  queue_create_request, queue_declare_request, queue_exist_request, queue_rename_request,
  queue_size_request, queue_confirm_request, queue_purge_request, queue_delete_request,
}

module _ {World : Type 0} (sys : System World) where
  unfoldable pub queue_create : Text → ℕ → ℕ → ℕ → Prog World Status
  queue_create name max_msg max_msg_size flags =
      run_command sys (queue_create_request sys name max_msg max_msg_size flags)
        (λ h. check_response_header h Command.queue_create 0)

  unfoldable pub queue_declare : Text → Prog World Status
  queue_declare name =
      run_command sys (queue_declare_request sys name)
        (λ h. check_response_header h Command.queue_declare 0)

  unfoldable pub queue_exist : Text → Prog World ℕ
  queue_exist name = run_query sys (queue_exist_request sys name) Command.queue_exist 0

  unfoldable pub queue_rename : Text → Text → Prog World Status
  queue_rename from to =
      run_command sys (queue_rename_request sys from to)
        (λ h. check_response_header h Command.queue_rename 0)

  unfoldable pub queue_size : Text → Prog World ℕ
  queue_size name = run_query sys (queue_size_request sys name) Command.queue_size minus_one

  -- The one command whose response may have a body length.
  unfoldable pub queue_confirm : Text → ℕ → Prog World Status
  queue_confirm name tag =
      run_command sys (queue_confirm_request sys name tag)
        (λ h. check_response_header_mini h Command.queue_confirm)

  unfoldable pub queue_purge : Text → Prog World Status
  queue_purge name =
      run_command sys (queue_purge_request sys name)
        (λ h. check_response_header h Command.queue_purge 0)

  unfoldable pub queue_delete : Text → Prog World Status
  queue_delete name =
      run_command sys (queue_delete_request sys name)
        (λ h. check_response_header h Command.queue_delete 0)
