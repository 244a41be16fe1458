-- ===== src/Api/Session.antt =====
-- src/emq.c: `emq_auth`, `emq_ping`, `emq_save` and `emq_flush`.
use libemq.Base.{ℕ}
use libemq.Wire.{Text}
use libemq.Protocol.{Command}
use libemq.System.{System}
use libemq.Client.{Status, Prog}
use libemq.Packet.{check_response_header}
use libemq.Api.{run_command}
use libemq.Packet.Session.{auth_request, ping_request, save_request, flush_request}

module _ {World : Type 0} (sys : System World) where
  unfoldable pub auth : Text → Text → Prog World Status
  auth name password =
      run_command sys (auth_request sys name password) (λ h. check_response_header h Command.auth 0)

  unfoldable pub ping : Prog World Status
  ping = run_command sys (ping_request sys) (λ h. check_response_header h Command.ping 0)

  unfoldable pub save : ℕ → Prog World Status
  save async =
      run_command sys (save_request sys async) (λ h. check_response_header h Command.save 0)

  unfoldable pub flush : ℕ → Prog World Status
  flush flags =
      run_command sys (flush_request sys flags) (λ h. check_response_header h Command.flush 0)
