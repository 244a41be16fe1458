-- ===== src/Api/Stat.antt =====
-- `emq_stat` of src/emq.c and its `emq_status` of src/emq.h.
pub mod Bytes
pub mod Replies
use libemq.Api.Verdicts.{Verdict, judge}
use libemq.Api.Replies.{outcome, settled, cleared-IsValid}
use libemq.Base.{
  refl, ℕ, [], inl, inr, List, length, ◌≡◌, drop, arith, length-append, ◌++◌, take, append-nil, ◌+◌,
  ◌∙◌, sym, append_assoc, drop-append, take-append,
}
use libemq.Protocol.{
  ResponseHeader, header_size, Command, status_success, response_header_bytes, response_header,
}
use libemq.System.{System, Posix, Reliable}
use libemq.Client.{
  Prog, ◌>>=◌, Status, returning, Client, ◌>>◌, clear_error, State, Error, and_then, pure, done,
  Status-cases,
}
use libemq.Wire.{decode, Field, word, chars, Fits, slots, struct_bytes, read_struct, read_field}
use libemq.Wire.Structs.{length-struct_bytes, read_struct-struct_bytes}
use libemq.Base.{zero, suc, All, ◌∷◌, ap}
use libemq.Packet.{check_response_header, check_status, get_error}
use libemq.Network.{client_read}
use libemq.Api.{accept, require_some, submit}
use libemq.Packet.Calls.{build, body, message_size, Call}
use libemq.Protocol.Headers.{
  IsHeader, length-response_header_bytes, response_header-response_header_bytes,
}
use libemq.Packet.Buffer.{IsValid, with_request}
use libemq.Packet.Session.{stat_request}
use libemq.Api.Ask.{Answers, answer}
use libemq.Packet.RoundTrip.{request_of}
use libemq.Api.Stages.{submit-Submits}
use libemq.Network.Takes.{client_read-Takes}

-- `emq_status`; a `float` is its 32-bit pattern.
pub record ServerStatus : Type 0 where
  pub major : ℕ
  pub minor : ℕ
  pub patch : ℕ
  pub uptime : ℕ
  pub used_cpu_sys : ℕ
  pub used_cpu_user : ℕ
  pub used_memory : ℕ
  pub used_memory_rss : ℕ
  pub fragmentation_ratio : ℕ
  pub clients : ℕ
  pub users : ℕ
  pub queues : ℕ
  pub routes : ℕ
  pub channels : ℕ
  pub resv3 : ℕ
  pub resv4 : ℕ

-- `sizeof(*status)`, of a packed struct
abbrev pub status_size : ℕ
status_size = 55

-- `memcpy(status, &response.body, sizeof(*status))`
unfoldable pub copy_status : List ℕ → ServerStatus
copy_status bs =
    let after_major = drop 1 bs in
    let after_minor = drop 1 after_major in
    let after_patch = drop 1 after_minor in
    let after_uptime = drop 4 after_patch in
    let after_used_cpu_sys = drop 4 after_uptime in
    let after_used_cpu_user = drop 4 after_used_cpu_sys in
    let after_used_memory = drop 4 after_used_cpu_user in
    let after_used_memory_rss = drop 4 after_used_memory in
    let after_fragmentation_ratio = drop 4 after_used_memory_rss in
    let after_clients = drop 4 after_fragmentation_ratio in
    let after_users = drop 4 after_clients in
    let after_queues = drop 4 after_users in
    let after_routes = drop 4 after_queues in
    let after_channels = drop 4 after_routes in
    let after_resv3 = drop 4 after_channels in
    record {
      major = decode (take 1 bs);
      minor = decode (take 1 after_major);
      patch = decode (take 1 after_minor);
      uptime = decode (take 4 after_patch);
      used_cpu_sys = decode (take 4 after_uptime);
      used_cpu_user = decode (take 4 after_used_cpu_sys);
      used_memory = decode (take 4 after_used_cpu_user);
      used_memory_rss = decode (take 4 after_used_memory);
      fragmentation_ratio = decode (take 4 after_used_memory_rss);
      clients = decode (take 4 after_fragmentation_ratio);
      users = decode (take 4 after_clients);
      queues = decode (take 4 after_users);
      routes = decode (take 4 after_queues);
      channels = decode (take 4 after_routes);
      resv3 = decode (take 4 after_channels);
      resv4 = decode (take 4 after_resv3);
    }

module _ {World : Type 0} (sys : System World) where
  -- The header is tested after the whole response has been read.
  unfoldable read_status : Prog World ServerStatus
  read_status = do
    bytes ← client_read sys (header_size + status_size)
    bs ← require_some Error.read bytes
    accept (check_response_header (response_header bs) Command.stat status_size)
        (response_header bs)
    pure (copy_status (take status_size (drop header_size bs)))

  -- `emq_stat`: what it returns, and the caller's struct, which an error leaves as it was.
  unfoldable pub stat : ServerStatus → Prog World (Status × ServerStatus)
  unfolding read_status
  stat status s =
      returning (Status.err, status)
        ((do clear_error; submit sys (stat_request sys); x ← read_status; pure (Status.ok, x)) s)
