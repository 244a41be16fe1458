-- ===== src/Api/User.antt =====
-- src/emq.c: the `emq_user_` functions that send a command.
use libemq.Base.{ℕ}
use libemq.Wire.{Text}
use libemq.Protocol.{Command}
use libemq.System.{System}
use libemq.Client.{Status, Prog}
use libemq.Packet.{check_response_header}
use libemq.Api.{run_command}
use libemq.Packet.User.{
  user_create_request, user_rename_request, user_set_perm_request, user_delete_request,
}

module _ {World : Type 0} (sys : System World) where
  unfoldable pub user_create : Text → Text → ℕ → Prog World Status
  user_create name password perm =
      run_command sys (user_create_request sys name password perm)
        (λ h. check_response_header h Command.user_create 0)

  unfoldable pub user_rename : Text → Text → Prog World Status
  user_rename from to =
      run_command sys (user_rename_request sys from to)
        (λ h. check_response_header h Command.user_rename 0)

  unfoldable pub user_set_perm : Text → ℕ → Prog World Status
  user_set_perm name perm =
      run_command sys (user_set_perm_request sys name perm)
        (λ h. check_response_header h Command.user_set_perm 0)

  unfoldable pub user_delete : Text → Prog World Status
  user_delete name =
      run_command sys (user_delete_request sys name)
        (λ h. check_response_header h Command.user_delete 0)
