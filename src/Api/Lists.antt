-- ===== src/Api/Lists.antt =====
-- src/emq.c: the functions that return a list. `none` is `NULL`.
use libemq.Base.{none, Option, List}
use libemq.System.{System}
use libemq.Wire.{Text}
use libemq.Listing.{
  Layout, User, Channel, Queue, RouteKey, Route, queue_layout, route_layout, channel_layout,
  route_key_layout, user_layout, read_list,
}
use libemq.Client.{Prog, Status}
use libemq.Protocol.{Command}
use libemq.Api.{ask}
use libemq.Packet.{check_response_header_mini}
use libemq.Packet.Channel.{channel_list_request}
use libemq.Packet.User.{user_list_request}
use libemq.Packet.Route.{route_keys_request, route_list_request}
use libemq.Packet.Queue.{queue_list_request}

module _ {World : Type 0} (sys : System World) where
  -- The body of all of them.
  unfoldable pub list_query :
      {A : Type 0} → Layout A → Prog World Status → Command → Prog World (Option (List A))
  list_query l request command =
      ask sys request (λ h. check_response_header_mini h command) none (read_list sys l)

  unfoldable pub user_list : Prog World (Option (List User))
  user_list = list_query user_layout (user_list_request sys) Command.user_list

  unfoldable pub queue_list : Prog World (Option (List Queue))
  queue_list = list_query queue_layout (queue_list_request sys) Command.queue_list

  unfoldable pub route_list : Prog World (Option (List Route))
  route_list = list_query route_layout (route_list_request sys) Command.route_list

  unfoldable pub route_keys : Text → Prog World (Option (List RouteKey))
  route_keys name = list_query route_key_layout (route_keys_request sys name) Command.route_keys

  unfoldable pub channel_list : Prog World (Option (List Channel))
  channel_list = list_query channel_layout (channel_list_request sys) Command.channel_list
