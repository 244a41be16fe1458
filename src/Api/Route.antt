-- ===== src/Api/Route.antt =====
-- src/emq.c: the `emq_route_` functions that send a command or a query.
use libemq.Base.{ℕ}
use libemq.Wire.{Text}
use libemq.Protocol.{Command}
use libemq.System.{System}
use libemq.Client.{Status, Prog}
use libemq.Packet.{check_response_header}
use libemq.Api.{run_command, run_query}
use libemq.Packet.Route.{
  route_create_request, route_exist_request, route_rename_request, route_bind_request,
  route_unbind_request, route_delete_request,
}

module _ {World : Type 0} (sys : System World) where
  unfoldable pub route_create : Text → ℕ → Prog World Status
  route_create name flags =
      run_command sys (route_create_request sys name flags)
        (λ h. check_response_header h Command.route_create 0)

  unfoldable pub route_exist : Text → Prog World ℕ
  route_exist name = run_query sys (route_exist_request sys name) Command.route_exist 0

  unfoldable pub route_rename : Text → Text → Prog World Status
  route_rename from to =
      run_command sys (route_rename_request sys from to)
        (λ h. check_response_header h Command.route_rename 0)

  unfoldable pub route_bind : Text → Text → Text → Prog World Status
  route_bind name queue key =
      run_command sys (route_bind_request sys name queue key)
        (λ h. check_response_header h Command.route_bind 0)

  unfoldable pub route_unbind : Text → Text → Text → Prog World Status
  route_unbind name queue key =
      run_command sys (route_unbind_request sys name queue key)
        (λ h. check_response_header h Command.route_unbind 0)

  unfoldable pub route_delete : Text → Prog World Status
  route_delete name =
      run_command sys (route_delete_request sys name)
        (λ h. check_response_header h Command.route_delete 0)
