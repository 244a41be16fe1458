-- ===== src/Tests/Listings.antt =====
-- The functions that return a list, and `emq_stat`, at concrete replies.
use libemq.Base.{refl, ℕ, none, some, [], ◌∷◌, List, All, ◌++◌, arith, ◌≡◌}
use libemq.Api.Listings.{route_lists, list-Answers, list-fault}
use libemq.Listing.{Route, route_layout}
use libemq.Protocol.{ResponseHeader, code, Command, response_header_bytes}
use libemq.Packet.Calls.{body, message_size, command, Call}
use libemq.Api.Stat.{ServerStatus, stat}
use libemq.Api.Stat.Bytes.{status_bytes}
use libemq.Api.Stat.Replies.{status_verdict, stat-Answers}
use libemq.Wire.{fill_chars, encode}
use libemq.Tests.{x1, jobs, at_pipe, fresh, fresh-IsValid}
use libemq.Api.Ask.{Answers, unread, answer}
use libemq.Listing.Records.{route_printer, route_bytes}
use libemq.System.Pipe.{pipe-Reliable, pipe, pipe-Ample}
use libemq.Listing.Loop.{print_all}
use libemq.Packet.{check_response_header_mini, check_status, get_error}
use libemq.Api.Fetch.{message_verdict}
use libemq.Packet.RoundTrip.{request_of}
use libemq.Api.Replies.{outcome}
use libemq.Api.Lists.{route_list}
use libemq.Client.{fault}

abbrev first_route : Route
first_route = record { name = fill_chars 64 jobs; flags = 4; keys = 2 }

abbrev second_route : Route
second_route = record { name = fill_chars 64 x1; flags = 0; keys = 0 }

routes-IsRecord : All (λ a. route_printer.IsRecord a) (first_route ∷ second_route ∷ [])
unfolding fill_chars
routes-IsRecord = omega arith

abbrev routes_reply : ResponseHeader
routes_reply = record { magic = 0x80; cmd = code Command.route_list; status = 1; bodylen = 144 }

abbrev routes_bytes : List ℕ
routes_bytes =
    response_header_bytes routes_reply
    ++ (print_all route_printer (first_route ∷ second_route ∷ []) ++ 9 ∷ [])

list-Answers_example :
    let v = message_verdict (command Call.route_list) routes_reply in
    Answers pipe-Reliable
      (request_of Call.route_list 0)
      (unread (print_all route_printer (first_route ∷ second_route ∷ [])) (9 ∷ []) v)
      (answer (some (second_route ∷ first_route ∷ [])) none v)
      v
      (at_pipe fresh routes_bytes)
      (route_list pipe (at_pipe fresh routes_bytes))
unfolding body message_size code command print_all route_bytes fill_chars encode
list-Answers_example =
    list-Answers pipe-Reliable pipe-Ample routes_reply (first_route ∷ second_route ∷ []) (9 ∷ [])
      (at_pipe fresh routes_bytes) route_lists fresh-IsValid (omega arith) (omega arith)
      routes-IsRecord (omega arith) (omega arith) refl

-- One record, and one byte of another.
abbrev cut_reply : ResponseHeader
cut_reply = record routes_reply { bodylen = 73 }

abbrev cut_bytes : List ℕ
cut_bytes =
    response_header_bytes cut_reply
    ++ ((print_all route_printer (first_route ∷ []) ++ b'x' ∷ []) ++ [])

list-fault_example : route_list pipe (at_pipe fresh cut_bytes) ≡ fault
unfolding body message_size code command print_all check_response_header_mini check_status get_error
    route_layout route_bytes fill_chars encode
list-fault_example =
    list-fault pipe-Reliable pipe-Ample cut_reply (first_route ∷ []) (b'x' ∷ []) []
      (at_pipe fresh cut_bytes) route_lists fresh-IsValid (omega arith) (omega arith)
      (routes-IsRecord.0, tt) refl (omega arith) (omega arith) (omega arith) (omega arith) refl

abbrev server : ServerStatus
server = record {
  major = 1;
  minor = 2;
  patch = 3;
  uptime = 1000;
  used_cpu_sys = 0;
  used_cpu_user = 0;
  used_memory = 4096;
  used_memory_rss = 8192;
  fragmentation_ratio = 0x3f800000;
  clients = 1;
  users = 2;
  queues = 3;
  routes = 4;
  channels = 5;
  resv3 = 0;
  resv4 = 0;
}

abbrev stat_reply : ResponseHeader
stat_reply = record { magic = 0x80; cmd = code Command.stat; status = 1; bodylen = 55 }

abbrev stat_bytes : List ℕ
stat_bytes = response_header_bytes stat_reply ++ (status_bytes server ++ [])

stat-Answers_example :
    let v = status_verdict stat_reply in
    let old : ServerStatus = record server { uptime = 0 } in
    Answers pipe-Reliable
      (request_of Call.stat 0)
      []
      (outcome v, answer server old v)
      v
      (at_pipe fresh stat_bytes)
      (stat pipe old (at_pipe fresh stat_bytes))
unfolding code
stat-Answers_example =
    stat-Answers pipe-Reliable stat_reply server (record server { uptime = 0 }) []
      (at_pipe fresh stat_bytes) fresh-IsValid (omega arith) (omega arith) refl
