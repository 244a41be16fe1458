-- ===== src/Tests/Connections.antt =====
-- A connection that is made and closed, over the system of `System.Pipe` with sockets.
use libemq.Base.{true, false, none, some, [], ◌∷◌, if◌then◌else◌, ◌==◌, refl, replicate, arith}
use libemq.Connection.{Sockets, Host, Address}
use libemq.Connection.Runs.{Returns}
use libemq.Connection.Memory.{GivenBack, disconnect-GivenBack}
use libemq.Connection.Opening.{tcp, Connected, connect-Connected}
use libemq.Connection.Session.{Over, connect-disconnect}
use libemq.Connection.Connect.{tcp_connect, disconnect}
use libemq.Client.{State, ◌>>=◌}
use libemq.System.Pipe.{Pipe, pipe, pipe_posix, pipe-Ample}
use libemq.Tests.{fresh, jobs}
use libemq.Tests.Subscriptions.{three}
use libemq.Packet.{default_request_size}

-- Each socket is descriptor 7, every name has an address, and nothing listens at port 0.
abbrev pub sockets : Sockets Pipe
sockets = record {
  socket = λ domain w. (some 7, w);
  reuse_address = λ fd w. (true, w);
  no_delay = λ fd w. (true, w);
  connect = λ fd address w. elim address [
    | Address.inet_address port ip ↦ if port == 0 then (false, w) else (true, w)
    | Address.local_address path ↦ (true, w)
  ];
  close = λ fd w. w;
  inet_aton = λ s. none;
  gethostbyname = λ s w. (some 16777343, w);
  errno = λ w. 111;
  last_of_path = λ w. 0;
}

abbrev pub start : State (Host Pipe)
start = record {
  client = fresh;
  world = record {
    world = record { input = []; output = [] };
    blocks = record {
      clients = 0;
      requests = 0;
      lists = 0;
      nodes = 0;
      subscriptions = 0;
      messages = 0;
      payloads = 0;
    };
    descriptors = [];
  };
}

-- A connection with three subscriptions.
abbrev subscribed : State (Host Pipe)
subscribed = record {
  client = record fresh { queue_subscriptions = three };
  world = record (start.world) {
    blocks = record {
      clients = 1;
      requests = 1;
      lists = 2;
      nodes = 3;
      subscriptions = 3;
      messages = 2;
      payloads = 1;
    };
    descriptors = 5 ∷ [];
  };
}

connect-Connected_example :
    Returns (Connected sockets start) (tcp_connect pipe sockets jobs 7851 start)
connect-Connected_example =
    connect-Connected pipe_posix pipe-Ample sockets (tcp_connect pipe sockets jobs 7851) start
      (tcp jobs 7851)

connect-disconnect_example :
    Returns (Over sockets start) ((tcp_connect pipe sockets jobs 7851 >>= disconnect sockets) start)
connect-disconnect_example =
    connect-disconnect pipe_posix pipe-Ample sockets (tcp_connect pipe sockets jobs 7851) start
      (tcp jobs 7851)

disconnect-GivenBack_example :
    Returns (GivenBack sockets subscribed) (disconnect sockets true subscribed)
disconnect-GivenBack_example = disconnect-GivenBack sockets subscribed (record {
  block = replicate default_request_size 0;
  request = refl;
  clients = omega arith;
  requests = omega arith;
  lists = omega arith;
  nodes = omega arith;
  subscriptions = omega arith;
})
