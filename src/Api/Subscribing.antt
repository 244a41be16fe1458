-- ===== src/Api/Subscribing.antt =====
-- `emq_queue_subscribe`, `emq_channel_subscribe` and `emq_channel_psubscribe` of src/emq.c.
use libemq.Api.Verdicts.{accepted, refused, Verdict}
use libemq.Base.{ℕ, false, List, ◌==◌, ◌≡◌, le→ltb_false, arith, ◌∙◌}
use libemq.System.{System, Posix, Reliable, Ample}
use libemq.Client.{Client, State}
use libemq.Wire.{Text, Fits, chars, strlenz}
use libemq.Api.Subscribe.{channel_subscribe, queue_subscribe, channel_psubscribe}
use libemq.Packet.Calls.{build, body, Call}
use libemq.Api.Unsubscribe.{IsNamed, Settles}
use libemq.Api.Joining.{
  queue_joined, channel_joined, queue_entry, channel_entry, queue_join, channel_join,
}
use libemq.Packet.Buffer.{IsValid}
use libemq.Packet.RoundTrip.{IsSendable, request_of}
use libemq.Subscription.Names.{fill_chars-Terminated}
use libemq.Api.Exchange.{Answered, exchange-Exchanges}
use libemq.Protocol.{Command}

queue_joined-IsNamed :
    (c : Client) (p : List ℕ) (name : Text) (callback : ℕ) (v : Verdict)
    → Fits (chars 64 name)
    → IsNamed c
    → IsNamed (queue_joined c p (queue_entry name callback) v)
queue_joined-IsNamed c p name callback accepted fits named =
    ((fill_chars-Terminated 64 name fits.0 fits.1, named.0), named.1)
queue_joined-IsNamed c p name callback (refused e) fits named = named

channel_joined-IsNamed :
    (c : Client) (p : List ℕ) (name topic : Text) (callback : ℕ) (v : Verdict)
    → Fits (chars 64 name)
    → IsNamed c
    → IsNamed (channel_joined c p (channel_entry name topic callback) v)
channel_joined-IsNamed c p name topic callback accepted fits named =
    (named.0, (fill_chars-Terminated 64 name fits.0 fits.1, named.1))
channel_joined-IsNamed c p name topic callback (refused e) fits named = named

module _ {World : Type 0} {sys : System World} {posix : Posix sys} (works : Reliable posix)
    (ample : Ample sys) where
  -- `emq_queue_subscribe`, on a connection that works and with an allocator that does
  -- not run out, for a callback that is no `NULL` and arguments that can be sent: it sends exactly its
  -- request and reads exactly the response's header, or nothing with acknowledgements off. If the
  -- response is accepted, or none is asked for, it returns `EMQ_STATUS_OK` and has put one
  -- subscription with this name and callback in front of the others; if not, it returns and stores
  -- what the response calls for and keeps the list. Names that had their NUL before still have it,
  -- and so has the new one.
  pub queue_subscribe-Settles :
      (name : Text) (flags callback : ℕ) (s : State World) {rest : List ℕ} {v : Verdict}
      → IsValid s.client
      → IsSendable (Call.queue_subscribe name flags)
      → (callback == 0) ≡ false
      → IsNamed s.client
      → Answered posix Command.queue_subscribe s rest v
      → let p = request_of (Call.queue_subscribe name flags) s.client.noack in
        Settles works p rest v
          (queue_joined s.client p (queue_entry name callback) v)
          s
          (queue_subscribe sys name flags callback s)
  unfolding queue_subscribe build body
  queue_subscribe-Settles name flags callback s {v = v} valid ok given named answer =
      let p = request_of (Call.queue_subscribe name flags) s.client.noack in
      let (w, e, out, left) =
        exchange-Exchanges works (Call.queue_subscribe name flags) Command.queue_subscribe s valid
          ok answer in
      let (w', e', out', left') =
        queue_join posix ample s.client p name callback v w
          (le→ltb_false 64 (strlenz name) (omega (arith, ok.fits.0.1))) in
      (
        w',
        rw (given, e) e',
        out' ∙ out,
        left' ∙ left,
        queue_joined-IsNamed s.client p name callback v ok.fits.0 named,
      )

  -- `emq_channel_subscribe`, on a connection that works and with an allocator that does
  -- not run out, for a callback that is no `NULL` and arguments that can be sent: it sends exactly its
  -- request and reads exactly the response's header, or nothing with acknowledgements off. If the
  -- response is accepted, or none is asked for, it returns `EMQ_STATUS_OK` and has put one
  -- subscription with this name and callback in front of the others; if not, it returns and stores
  -- what the response calls for and keeps the list. Names that had their NUL before still have it,
  -- and so has the new one.
  pub channel_subscribe-Settles :
      (name topic : Text) (callback : ℕ) (s : State World) {rest : List ℕ} {v : Verdict}
      → IsValid s.client
      → IsSendable (Call.channel_subscribe name topic)
      → (callback == 0) ≡ false
      → IsNamed s.client
      → Answered posix Command.channel_subscribe s rest v
      → let p = request_of (Call.channel_subscribe name topic) s.client.noack in
        Settles works p rest v
          (channel_joined s.client p (channel_entry name topic callback) v)
          s
          (channel_subscribe sys name topic callback s)
  unfolding channel_subscribe build body
  channel_subscribe-Settles name topic callback s {v = v} valid ok given named answer =
      let p = request_of (Call.channel_subscribe name topic) s.client.noack in
      let (w, e, out, left) =
        exchange-Exchanges works (Call.channel_subscribe name topic) Command.channel_subscribe s
          valid ok answer in
      let (w', e', out', left') =
        channel_join posix ample s.client p name topic callback v w
          (le→ltb_false 64 (strlenz name) (omega (arith, ok.fits.0.1)))
          (le→ltb_false 32 (strlenz topic) (omega (arith, ok.fits.1.0.1))) in
      (
        w',
        rw (given, e) e',
        out' ∙ out,
        left' ∙ left,
        channel_joined-IsNamed s.client p name topic callback v ok.fits.0 named,
      )

  -- `emq_channel_psubscribe`, on a connection that works and with an allocator that does
  -- not run out, for a callback that is no `NULL` and arguments that can be sent: it sends exactly its
  -- request and reads exactly the response's header, or nothing with acknowledgements off. If the
  -- response is accepted, or none is asked for, it returns `EMQ_STATUS_OK` and has put one
  -- subscription with this name and callback in front of the others; if not, it returns and stores
  -- what the response calls for and keeps the list. Names that had their NUL before still have it,
  -- and so has the new one.
  pub channel_psubscribe-Settles :
      (name glob : Text) (callback : ℕ) (s : State World) {rest : List ℕ} {v : Verdict}
      → IsValid s.client
      → IsSendable (Call.channel_psubscribe name glob)
      → (callback == 0) ≡ false
      → IsNamed s.client
      → Answered posix Command.channel_psubscribe s rest v
      → let p = request_of (Call.channel_psubscribe name glob) s.client.noack in
        Settles works p rest v
          (channel_joined s.client p (channel_entry name glob callback) v)
          s
          (channel_psubscribe sys name glob callback s)
  unfolding channel_psubscribe build body
  channel_psubscribe-Settles name glob callback s {v = v} valid ok given named answer =
      let p = request_of (Call.channel_psubscribe name glob) s.client.noack in
      let (w, e, out, left) =
        exchange-Exchanges works (Call.channel_psubscribe name glob) Command.channel_psubscribe s
          valid ok answer in
      let (w', e', out', left') =
        channel_join posix ample s.client p name glob callback v w
          (le→ltb_false 64 (strlenz name) (omega (arith, ok.fits.0.1)))
          (le→ltb_false 32 (strlenz glob) (omega (arith, ok.fits.1.0.1))) in
      (
        w',
        rw (given, e) e',
        out' ∙ out,
        left' ∙ left,
        channel_joined-IsNamed s.client p name glob callback v ok.fits.0 named,
      )
