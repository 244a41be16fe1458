-- ===== src/Tests.antt =====
-- A client as `emq_client_init` leaves it, on the connection of `System.Pipe`, and arguments that
-- can be sent: the inputs at which the theorems are applied.
pub mod Requests
pub mod Transfers
pub mod Commands
pub mod Subscriptions
pub mod Processes
pub mod Benchmarks
pub mod Subscribers
pub mod Messages
pub mod Listings
pub mod Nodes
pub mod Connections
pub mod Errors
use libemq.Base.{zero, refl, ℕ, length-replicate, ◌∷◌, List, [], some, arith, replicate}
use libemq.Protocol.{ResponseHeader}
use libemq.Packet.Calls.{Call, body, message_size}
use libemq.Client.{Client, Status, Error, State}
use libemq.Packet.Buffer.{IsValid}
use libemq.Wire.{Text}
use libemq.Packet.{default_request_size}
use libemq.Packet.RoundTrip.{IsSendable}
use libemq.System.Pipe.{Pipe}

abbrev pub fresh : Client
fresh = record {
  status = Status.ok;
  error = Error.no_error;
  request = some (replicate default_request_size 0);
  size = default_request_size;
  pos = 0;
  noack = 0;
  fd = 5;
  queue_subscriptions = [];
  channel_subscriptions = [];
}

pub fresh-IsValid : IsValid fresh
fresh-IsValid = record {
  allocated = length-replicate {A = ℕ} default_request_size 0;
  large = omega arith;
  filled = omega arith;
}

-- The same without acknowledgements.
abbrev pub silent : Client
silent = record fresh { noack = 1 }

pub silent-IsValid : IsValid silent
silent-IsValid = record {
  allocated = length-replicate {A = ℕ} default_request_size 0;
  large = omega arith;
  filled = omega arith;
}

-- "jobs" and "x1"
abbrev pub jobs : Text
jobs = b'j' ∷ b'o' ∷ b'b' ∷ b's' ∷ []

abbrev pub x1 : Text
x1 = b'x' ∷ b'1' ∷ []

abbrev pub at_pipe : Client → List ℕ → State Pipe
at_pipe c input = record { client = c; world = record { input = input; output = [] } }

abbrev pub declare_jobs : Call
declare_jobs = Call.queue_declare jobs

pub declare_jobs-IsSendable : IsSendable declare_jobs
unfolding body message_size
declare_jobs-IsSendable = omega arith

-- The server's answer to it.
abbrev pub declared : ResponseHeader
declared = record { magic = 0x80; cmd = 0x24; status = 1; bodylen = 0 }

abbrev pub denied : ResponseHeader
denied = record declared { status = 5 }
