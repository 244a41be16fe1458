-- ===== src/Api/Confirm.antt =====
-- `emq_queue_confirm` of src/emq.c on a connection that works: among the functions that read a bare
-- response it is the one that does not test the length of the body.
use libemq.Base.{ℕ, List, ◌≡◌, ◌++◌}
use libemq.Wire.{Text}
use libemq.System.{System, Posix, Reliable}
use libemq.Client.{State}
use libemq.Protocol.{Command, ResponseHeader, response_header_bytes}
use libemq.Protocol.Headers.{IsHeader}
use libemq.Packet.{check_response_header_mini}
use libemq.Packet.Buffer.{IsValid}
use libemq.Packet.Calls.{Call, build}
use libemq.Packet.RoundTrip.{IsSendable, request_of}
use libemq.Api.Queue.{queue_confirm}
use libemq.Api.Verdicts.{Verdict, reading, is_response, judge-reading_mini}
use libemq.Api.Replies.{Concludes, run_command-Concludes}

-- A response to the command, whatever body it counts.
abbrev pub confirmation : ResponseHeader → Verdict
confirmation h = reading (is_response Command.queue_confirm h) h

module _ {World : Type 0} {sys : System World} {posix : Posix sys} (works : Reliable posix) where
  -- `emq_queue_confirm`, with acknowledgements on, a name and a tag that can be sent, and a
  -- connection that works on which some response header and more come next: it sends exactly its
  -- request and reads exactly the header, whatever body this counts. It returns and stores
  -- `EMQ_STATUS_OK` with no error if the header is a response to the command with the status for
  -- success, whatever body it counts; `EMQ_STATUS_ERR` with the error of its status, or none where
  -- the status has no error of its own, if only the status is another; and `EMQ_STATUS_ERR` with
  -- `EMQ_ERROR_RESPONSE` for any other header.
  pub queue_confirm-Concludes :
      (name : Text) (tag : ℕ) (h : ResponseHeader) (rest : List ℕ) (s : State World)
      → IsValid s.client
      → IsSendable (Call.queue_confirm name tag)
      → IsHeader h
      → s.client.noack ≡ 0
      → posix.incoming s.client.fd s.world ≡ response_header_bytes h ++ rest
      → Concludes works
          (request_of (Call.queue_confirm name tag) s.client.noack)
          rest
          (confirmation h)
          s
          (queue_confirm sys name tag s)
  unfolding queue_confirm build
  queue_confirm-Concludes name tag h rest s valid ok fits ack e =
      run_command-Concludes works (Call.queue_confirm name tag)
        (λ k. check_response_header_mini k Command.queue_confirm) h rest s (confirmation h)
        (judge-reading_mini Command.queue_confirm h) valid ok fits ack e
