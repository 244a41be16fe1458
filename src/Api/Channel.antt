-- ===== src/Api/Channel.antt =====
-- src/emq.c: the `emq_channel_` functions that send a command or a query.
use libemq.Base.{ℕ}
use libemq.Wire.{Text}
use libemq.Protocol.{Command}
use libemq.System.{System}
use libemq.Client.{Status, Prog}
use libemq.Packet.{check_response_header}
use libemq.Api.{run_command, run_query}
use libemq.Packet.Channel.{
  channel_create_request, channel_exist_request, channel_rename_request, channel_delete_request,
}

module _ {World : Type 0} (sys : System World) where
  unfoldable pub channel_create : Text → ℕ → Prog World Status
  channel_create name flags =
      run_command sys (channel_create_request sys name flags)
        (λ h. check_response_header h Command.channel_create 0)

  unfoldable pub channel_exist : Text → Prog World ℕ
  channel_exist name = run_query sys (channel_exist_request sys name) Command.channel_exist 0

  unfoldable pub channel_rename : Text → Text → Prog World Status
  channel_rename from to =
      run_command sys (channel_rename_request sys from to)
        (λ h. check_response_header h Command.channel_rename 0)

  unfoldable pub channel_delete : Text → Prog World Status
  channel_delete name =
      run_command sys (channel_delete_request sys name)
        (λ h. check_response_header h Command.channel_delete 0)
