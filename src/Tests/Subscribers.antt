-- ===== src/Tests/Subscribers.antt =====
-- Subscribing and unsubscribing at concrete replies.
use libemq.Base.{refl, ℕ, [], arith, append-nil}
use libemq.Api.Exchange.{by_header, by_silence}
use libemq.Protocol.{ResponseHeader, code, response_header_bytes, Command}
use libemq.Packet.Buffer.{IsValid}
use libemq.Packet.Calls.{body, message_size, Call}
use libemq.Client.{Client}
use libemq.Tests.{fresh, fresh-IsValid, at_pipe, jobs, x1, silent, silent-IsValid}
use libemq.Packet.RoundTrip.{request_of}
use libemq.Tests.Subscriptions.{three, three-Named}
use libemq.Api.Unsubscribe.{
  Settles, queue_left, channel_left, queue_unsubscribe-Settles, channel_punsubscribe-Settles,
  channel_unsubscribe-Settles,
}
use libemq.Api.Verdicts.{verdict, accepted}
use libemq.System.Pipe.{pipe-Reliable, pipe, pipe-Ample}
use libemq.Api.Joining.{channel_joined, queue_joined, channel_entry, queue_entry}
use libemq.Api.Subscribe.{
  queue_unsubscribe, channel_punsubscribe, channel_unsubscribe, queue_subscribe, channel_psubscribe,
  channel_subscribe,
}
use libemq.Api.Subscribing.{
  channel_subscribe-Settles, channel_psubscribe-Settles, queue_subscribe-Settles,
}

-- A client with the subscriptions of `Subscriptions.three`.
abbrev subscribed : Client
subscribed = record fresh { queue_subscriptions = three }

subscribed-IsValid : IsValid subscribed
subscribed-IsValid = record {
  allocated = fresh-IsValid.allocated;
  large = fresh-IsValid.large;
  filled = fresh-IsValid.filled;
}

-- The bare response to the command with this code.
abbrev success : ℕ → ResponseHeader
success c = record { magic = 0x80; cmd = c; status = 1; bodylen = 0 }

queue_unsubscribe-Settles_example :
    let s = at_pipe subscribed (response_header_bytes (success (code Command.queue_unsubscribe))) in
    let p = request_of (Call.queue_unsubscribe jobs) 0 in
    let v = verdict Command.queue_unsubscribe (success (code Command.queue_unsubscribe)) in
    Settles pipe-Reliable p [] v (queue_left subscribed p jobs v) s (queue_unsubscribe pipe jobs s)
unfolding body message_size code
queue_unsubscribe-Settles_example =
    queue_unsubscribe-Settles pipe-Reliable jobs
      (at_pipe subscribed (response_header_bytes (success (code Command.queue_unsubscribe))))
      subscribed-IsValid (omega arith) (three-Named, tt)
      (by_header (success (code Command.queue_unsubscribe)) [] (omega arith) refl
        (rw append-nil refl))

channel_unsubscribe-Settles_example :
    let p = request_of (Call.channel_unsubscribe jobs x1) 1 in
    Settles pipe-Reliable p [] accepted
      (channel_left silent p jobs accepted)
      (at_pipe silent [])
      (channel_unsubscribe pipe jobs x1 (at_pipe silent []))
unfolding body message_size
channel_unsubscribe-Settles_example =
    channel_unsubscribe-Settles pipe-Reliable jobs x1 (at_pipe silent []) silent-IsValid
      (omega arith) (tt, tt) (by_silence refl)

channel_punsubscribe-Settles_example :
    let p = request_of (Call.channel_punsubscribe jobs x1) 1 in
    Settles pipe-Reliable p [] accepted
      (channel_left silent p jobs accepted)
      (at_pipe silent [])
      (channel_punsubscribe pipe jobs x1 (at_pipe silent []))
unfolding body message_size
channel_punsubscribe-Settles_example =
    channel_punsubscribe-Settles pipe-Reliable jobs x1 (at_pipe silent []) silent-IsValid
      (omega arith) (tt, tt) (by_silence refl)

queue_subscribe-Settles_example :
    let p = request_of (Call.queue_subscribe jobs 0) 1 in
    Settles pipe-Reliable p [] accepted
      (queue_joined silent p (queue_entry jobs 7) accepted)
      (at_pipe silent [])
      (queue_subscribe pipe jobs 0 7 (at_pipe silent []))
unfolding body message_size
queue_subscribe-Settles_example =
    queue_subscribe-Settles pipe-Reliable pipe-Ample jobs 0 7 (at_pipe silent []) silent-IsValid
      (omega arith) refl (tt, tt) (by_silence refl)

channel_subscribe-Settles_example :
    let p = request_of (Call.channel_subscribe jobs x1) 1 in
    Settles pipe-Reliable p [] accepted
      (channel_joined silent p (channel_entry jobs x1 7) accepted)
      (at_pipe silent [])
      (channel_subscribe pipe jobs x1 7 (at_pipe silent []))
unfolding body message_size
channel_subscribe-Settles_example =
    channel_subscribe-Settles pipe-Reliable pipe-Ample jobs x1 7 (at_pipe silent []) silent-IsValid
      (omega arith) refl (tt, tt) (by_silence refl)

channel_psubscribe-Settles_example :
    let p = request_of (Call.channel_psubscribe jobs x1) 1 in
    Settles pipe-Reliable p [] accepted
      (channel_joined silent p (channel_entry jobs x1 7) accepted)
      (at_pipe silent [])
      (channel_psubscribe pipe jobs x1 7 (at_pipe silent []))
unfolding body message_size
channel_psubscribe-Settles_example =
    channel_psubscribe-Settles pipe-Reliable pipe-Ample jobs x1 7 (at_pipe silent []) silent-IsValid
      (omega arith) refl (tt, tt) (by_silence refl)
