-- ===== src/Api/Unsubscribe.antt =====
-- The runs of the functions of src/emq.c that unsubscribe, on a connection that works.
use libemq.Base.{refl, ℕ, List, ◌≡◌, ◌++◌}
use libemq.System.{System, Posix, Reliable}
use libemq.Client.{
  Client, ChannelSubscription, QueueSubscription, State, Run, Status, returning, and_then, done,
  ◌>>◌, pure,
}
use libemq.Wire.{Text, IsText}
use libemq.Subscription.{delete_channel_subscriptions, delete_queue_subscriptions}
use libemq.Api.Subscribe.{queue_unsubscribe, channel_punsubscribe, channel_unsubscribe}
use libemq.Api.Verdicts.{accepted, Verdict, refused}
use libemq.Api.Replies.{settled, outcome}
use libemq.Packet.Calls.{build, body, Call}
use libemq.Subscription.Names.{others, Named, delete_named-others, others-Named}
use libemq.Packet.Buffer.{IsValid}
use libemq.Packet.RoundTrip.{IsSendable, request_of}
use libemq.Api.Exchange.{exchanged, Answered, exchange-Exchanges}
use libemq.Protocol.{Command}

abbrev pub queue_name : QueueSubscription → List ℕ
queue_name x = x.name

abbrev pub channel_name : ChannelSubscription → List ℕ
channel_name x = x.name

-- The client at the end: settled by the verdict, and without the subscriptions to `name` if the
-- server has accepted.
abbrev pub queue_left : Client → List ℕ → Text → Verdict → Client
queue_left c p name accepted = record (settled c p accepted) {
  queue_subscriptions = others queue_name name c.queue_subscriptions;
}
queue_left c p name (refused e) = settled c p (refused e)

abbrev pub channel_left : Client → List ℕ → Text → Verdict → Client
channel_left c p name accepted = record (settled c p accepted) {
  channel_subscriptions = others channel_name name c.channel_subscriptions;
}
channel_left c p name (refused e) = settled c p (refused e)

-- The names of all subscriptions have their NUL.
abbrev pub IsNamed : Client → Type 0
IsNamed c = Named queue_name c.queue_subscriptions × Named channel_name c.channel_subscriptions

module _ {World : Type 0} {sys : System World} {posix : Posix sys} (works : Reliable posix) where
  -- A run that has sent `p`, left `rest` to be read, and returned by the verdict with the client `c`.
  abbrev pub Settles : List ℕ → List ℕ → Verdict → Client → State World → Run World Status → Type 0
  Settles p rest v c s r =
      (w : World) × (r ≡ done (outcome v) (record { client = c; world = w }))
      × (posix.sent s.client.fd w ≡ posix.sent s.client.fd s.world ++ p)
      × (posix.incoming s.client.fd w ≡ rest)
      × IsNamed c

  queue_left-IsNamed :
      (c : Client) (p : List ℕ) (name : Text) (v : Verdict)
      → IsNamed c
      → IsNamed (queue_left c p name v)
  queue_left-IsNamed c p name accepted named =
      (others-Named queue_name name c.queue_subscriptions named.0, named.1)
  queue_left-IsNamed c p name (refused e) named = named

  queue_removal :
      (c : Client) (p : List ℕ) (name : Text) (v : Verdict) (w : World)
      → IsText name
      → Named queue_name c.queue_subscriptions
      → returning Status.err (
          and_then (exchanged c p v w) (λ _. delete_queue_subscriptions sys name >> pure Status.ok))
        ≡ done (outcome v) (record { client = queue_left c p name v; world = w })
  unfolding delete_queue_subscriptions
  queue_removal c p name accepted w h named =
      rw (returning, delete_named-others queue_name name c.queue_subscriptions h named) refl
  queue_removal c p name (refused e) w h named = refl

  channel_left-IsNamed :
      (c : Client) (p : List ℕ) (name : Text) (v : Verdict)
      → IsNamed c
      → IsNamed (channel_left c p name v)
  channel_left-IsNamed c p name accepted named =
      (named.0, others-Named channel_name name c.channel_subscriptions named.1)
  channel_left-IsNamed c p name (refused e) named = named

  channel_removal :
      (c : Client) (p : List ℕ) (name : Text) (v : Verdict) (w : World)
      → IsText name
      → Named channel_name c.channel_subscriptions
      → returning Status.err (
          and_then
            (exchanged c p v w)
            (λ _. delete_channel_subscriptions sys name >> pure Status.ok))
        ≡ done (outcome v) (record { client = channel_left c p name v; world = w })
  unfolding delete_channel_subscriptions
  channel_removal c p name accepted w h named =
      rw (returning, delete_named-others channel_name name c.channel_subscriptions h named) refl
  channel_removal c p name (refused e) w h named = refl

  -- `emq_queue_unsubscribe` on a connection that works, with a name
  -- that fits its array and a NUL in the name of every subscription: it sends exactly its request
  -- and reads exactly the response's header, or nothing with acknowledgements off. If the response
  -- is accepted, or none is asked for, it returns `EMQ_STATUS_OK` and has removed the subscriptions
  -- to the name, all others kept in their order; if not, it returns and stores what the response
  -- calls for and keeps the list. The names keep their NUL.
  pub queue_unsubscribe-Settles :
      (name : Text) (s : State World) {rest : List ℕ} {v : Verdict}
      → IsValid s.client
      → IsSendable (Call.queue_unsubscribe name)
      → IsNamed s.client
      → Answered posix Command.queue_unsubscribe s rest v
      → let p = request_of (Call.queue_unsubscribe name) s.client.noack in
        Settles p rest v (queue_left s.client p name v) s (queue_unsubscribe sys name s)
  unfolding queue_unsubscribe build body
  queue_unsubscribe-Settles name s {v = v} valid ok named answer =
      let call = Call.queue_unsubscribe name in
      let p = request_of call s.client.noack in
      let (w, e, out, left) =
        exchange-Exchanges works call Command.queue_unsubscribe s valid ok answer in
      (
        w,
        rw e (queue_removal s.client p name v w ok.fits.0.0 named.0),
        out,
        left,
        queue_left-IsNamed s.client p name v named,
      )

  -- `emq_channel_unsubscribe` on a connection that works, with a name
  -- and a topic that fit their arrays and a NUL in the name of every subscription: it sends exactly its request
  -- and reads exactly the response's header, or nothing with acknowledgements off. If the response
  -- is accepted, or none is asked for, it returns `EMQ_STATUS_OK` and has removed the subscriptions
  -- to the name, whatever their topic, all others kept in their order; if not, it returns and stores what the response
  -- calls for and keeps the list. The names keep their NUL.
  pub channel_unsubscribe-Settles :
      (name topic : Text) (s : State World) {rest : List ℕ} {v : Verdict}
      → IsValid s.client
      → IsSendable (Call.channel_unsubscribe name topic)
      → IsNamed s.client
      → Answered posix Command.channel_unsubscribe s rest v
      → let p = request_of (Call.channel_unsubscribe name topic) s.client.noack in
        Settles p rest v (channel_left s.client p name v) s (channel_unsubscribe sys name topic s)
  unfolding channel_unsubscribe build body
  channel_unsubscribe-Settles name topic s {v = v} valid ok named answer =
      let call = Call.channel_unsubscribe name topic in
      let p = request_of call s.client.noack in
      let (w, e, out, left) =
        exchange-Exchanges works call Command.channel_unsubscribe s valid ok answer in
      (
        w,
        rw e (channel_removal s.client p name v w ok.fits.0.0 named.1),
        out,
        left,
        channel_left-IsNamed s.client p name v named,
      )

  -- The same of `emq_channel_punsubscribe`, whose response is accepted when it is one to
  -- `EMQ_PROTOCOL_CMD_CHANNEL_UNSUBSCRIBE`.
  pub channel_punsubscribe-Settles :
      (name glob : Text) (s : State World) {rest : List ℕ} {v : Verdict}
      → IsValid s.client
      → IsSendable (Call.channel_punsubscribe name glob)
      → IsNamed s.client
      → Answered posix Command.channel_unsubscribe s rest v
      → let p = request_of (Call.channel_punsubscribe name glob) s.client.noack in
        Settles p rest v (channel_left s.client p name v) s (channel_punsubscribe sys name glob s)
  unfolding channel_punsubscribe build body
  channel_punsubscribe-Settles name glob s {v = v} valid ok named answer =
      let call = Call.channel_punsubscribe name glob in
      let p = request_of call s.client.noack in
      let (w, e, out, left) =
        exchange-Exchanges works call Command.channel_unsubscribe s valid ok answer in
      (
        w,
        rw e (channel_removal s.client p name v w ok.fits.0.0 named.1),
        out,
        left,
        channel_left-IsNamed s.client p name v named,
      )
