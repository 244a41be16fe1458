-- ===== src/Api/Fetch.antt =====
-- The runs of the functions of src/emq.c that fetch a message, on a connection that works.
use libemq.Api.Verdicts.{Verdict, reading, is_response, judge-reading_mini}
use libemq.Base.{
  refl, ℕ, none, some, List, length, Option, ◌++◌, ◌≡◌, ◌<◌, ◌^◌, ◌+◌, arith, ◌∙◌, append_assoc,
}
use libemq.Protocol.{Command, ResponseHeader, response_header_bytes}
use libemq.Message.{Message, read_message, read_message_tag, set_tag, message_struct_size, less_tag}
use libemq.System.{System, Posix, Reliable, Ample}
use libemq.Api.Transfer.{queue_get, queue_pop, fetch, present, read_tagged}
use libemq.Packet.Calls.{Call, build, command}
use libemq.Client.{Prog, State}
use libemq.Packet.{check_response_header_mini}
use libemq.Wire.{Text, encode}
use libemq.Message.Blocks.{allocate-provides, read_bytes-Takes}
use libemq.Wire.Words.{length-encode, decode-encode}
use libemq.Packet.Buffer.{IsValid}
use libemq.Packet.RoundTrip.{IsSendable, request_of}
use libemq.Protocol.Headers.{IsHeader}
use libemq.Network.Takes.{Takes, client_read-Takes}
use libemq.Api.Ask.{Answers, unread, answer, ask-Answers}

-- The functions with their request.
pub data Fetching {World : Type 0} (sys : System World)
    : Call → Prog World (Option Message) → Type 0 where
  queue_gets : (name : Text) → Fetching sys (Call.queue_get name) (queue_get sys name)
  queue_pops :
      (name : Text) (timeout : ℕ)
      → Fetching sys (Call.queue_pop name timeout) (queue_pop sys name timeout)

Fetching-fetch :
    {World : Type 0} (sys : System World) {call : Call} {run : Prog World (Option Message)}
    → Fetching sys call run
    → run ≡ fetch sys (build sys call) (command call)
unfolding queue_get queue_pop build command
Fetching-fetch sys (queue_gets name) = refl
Fetching-fetch sys (queue_pops name timeout) = refl

-- The response may have a body of any length.
abbrev pub message_verdict : Command → ResponseHeader → Verdict
message_verdict c h = reading (is_response c h) h

-- The message with this tag and data.
abbrev pub tagged : ℕ → List ℕ → Message
tagged tag bytes = record {
  payload = bytes;
  size = length bytes;
  tag = tag;
  expire = 0;
  zero_copy = 0;
}

module _ {World : Type 0} {sys : System World} {posix : Posix sys} (works : Reliable posix)
    (ample : Ample sys) where
  pub read_message-Takes :
      (bs rest : List ℕ) (s : State World)
      → length bs < 2 ^ 31
      → posix.incoming s.client.fd s.world ≡ bs ++ rest
      → Takes posix (some (tagged 0 bs)) rest s (read_message sys (length bs) s)
  unfolding read_message
  read_message-Takes bs rest s small e =
      let (b, w, r, out, left) = allocate-provides posix ample message_struct_size s in
      let (b', w', r', out', left') =
        allocate-provides posix ample (length bs) (record { client = s.client; world = w }) in
      let (w'', r'', out'', left'') =
        read_bytes-Takes works (length bs) bs rest (record { client = s.client; world = w' }) refl
          small (left' ∙ (left ∙ e)) in
      (w'', rw (r, r', r'') refl, out'' ∙ (out' ∙ out), left'')

  read_message_tag-Takes :
      (tag : ℕ) (bs rest : List ℕ) (n : ℕ) (s : State World)
      → tag < 2 ^ 64
      → length bs < 2 ^ 31
      → n ≡ 8 + length bs
      → posix.incoming s.client.fd s.world ≡ encode 8 tag ++ (bs ++ rest)
      → Takes posix (some (tagged tag bs)) rest s (read_message_tag sys n s)
  unfolding read_message_tag set_tag
  read_message_tag-Takes tag bs rest n s fits small len e =
      let (w, r, out, left) =
        client_read-Takes works 8 (encode 8 tag) (bs ++ rest) s (length-encode 8 tag) e in
      let (w', r', out', left') =
        read_message-Takes bs rest (record { client = s.client; world = w }) small left in
      let size : less_tag sys n ≡ length bs = omega arith in
      (w', rw (r, size, r', decode-encode 8 tag fits) refl, out' ∙ out, left')

  fetch-Answers :
      (call : Call) (h : ResponseHeader) (tag : ℕ) (bs rest : List ℕ) (s : State World)
      → IsValid s.client
      → IsSendable call
      → IsHeader h
      → h.bodylen ≡ 8 + length bs
      → tag < 2 ^ 64
      → length bs < 2 ^ 31
      → posix.incoming s.client.fd s.world
        ≡ response_header_bytes h ++ ((encode 8 tag ++ bs) ++ rest)
      → let v = message_verdict (command call) h in
        Answers works
          (request_of call s.client.noack)
          (unread (encode 8 tag ++ bs) rest v)
          (answer (some (tagged tag bs)) none v)
          v
          s
          (fetch sys (build sys call) (command call) s)
  unfolding fetch read_tagged present
  fetch-Answers call h tag bs rest s valid ok fits len tagged_fits small e =
      ask-Answers works call (λ h'. check_response_header_mini h' (command call)) none
        (some (tagged tag bs)) (read_tagged sys) h (encode 8 tag ++ bs) rest s
        (message_verdict (command call) h) (judge-reading_mini (command call) h) valid ok fits e
        λ c w same left.
          let (w', r, out, left') =
            read_message_tag-Takes tag bs rest h.bodylen (record { client = c; world = w })
              tagged_fits small len (left ∙ append_assoc (encode 8 tag) bs rest) in
          (w', rw r refl, out, left')

  -- `emq_queue_get` and `emq_queue_pop`, on a connection that works on which a header that counts
  -- them, a tag, less than 2^31 bytes of data and more come next, and with an allocator that does
  -- not run out: the function sends exactly its request, whatever the acknowledgements. If the
  -- header is the success of the command it reads all three and returns the message with this tag
  -- and these data; if not, it reads the header alone, and returns `NULL` with the error that the
  -- header calls for.
  pub message-Answers :
      {call : Call} {run : Prog World (Option Message)} (h : ResponseHeader) (tag : ℕ)
      (bs rest : List ℕ) (s : State World)
      → Fetching sys call run
      → IsValid s.client
      → IsSendable call
      → IsHeader h
      → h.bodylen ≡ 8 + length bs
      → tag < 2 ^ 64
      → length bs < 2 ^ 31
      → posix.incoming s.client.fd s.world
        ≡ response_header_bytes h ++ ((encode 8 tag ++ bs) ++ rest)
      → let v = message_verdict (command call) h in
        Answers works
          (request_of call s.client.noack)
          (unread (encode 8 tag ++ bs) rest v)
          (answer (some (tagged tag bs)) none v)
          v
          s
          (run s)
  message-Answers {call} h tag bs rest s fetching valid ok fits len tagged_fits small e =
      rw (Fetching-fetch sys fetching)
        (fetch-Answers call h tag bs rest s valid ok fits len tagged_fits small e)
