-- ===== src/Packet/RoundTrip.antt =====
-- The request functions of src/packet.c, all at once, against a server that reads by the structs
-- of src/protocol.h.
use libemq.Base.{
  ℕ, ◌+◌, ◌-◌, ◌%◌, ◌^◌, ◌≤◌, ◌<◌, ◌≡◌, refl, none, some, Bool, false, ◌||◌, List, [], ◌∷◌, ◌++◌,
  arith, All, append_assoc, sym, append-nil, drop-append, if◌then◌else◌, ◌==◌, true, length,
}
use libemq.Wire.{Field, chars, word, Fits, slots, size_of, struct_bytes, read_struct}
use libemq.Wire.Structs.{length-struct_bytes, read_struct-struct_bytes}
use libemq.Protocol.{
  RequestHeader, Command, code, header_size, magic_req, request_header_fields, request_body,
}
use libemq.Protocol.Codes.{command_of, command_of-code, code-small}
use libemq.System.{System}
use libemq.Client.{Client, Status, State, Run, done}
use libemq.Packet.{default_request_size, too_long, make_request, set_header_request}
use libemq.Packet.Buffer.{
  packet, header_Fits, IsValid, request_bytes, length-packet, with_request, make_request-Fits,
  with_request-IsValid, request_bytes-with_request,
}
use libemq.Packet.Calls.{Call, build, command, body, message_size, call_of, parse_body, parse}

-- Some text of the body does not fit its array.
abbrev text_too_long : List Field → Bool
text_too_long [] = false
text_too_long (chars n s ∷ fs) = too_long n s || text_too_long fs
text_too_long (word k v ∷ fs) = text_too_long fs

-- A request function refuses, and touches nothing, exactly when one of its texts is too long for
-- its array; otherwise it makes the request of its command, its members and its message.
build-make_request :
    {World : Type 0} (sys : System World) (call : Call) (s : State World)
    → build sys call s ≡ (
        if text_too_long (body call)
        then done Status.err s
        else make_request sys (command call) (body call) (message_size call) s)
unfolding build command body message_size
build-make_request sys Call.ping s = refl
build-make_request sys call s = ground arith

-- The server's layout of the request is the one that the function fills.
slots-body : (call : Call) → slots (body call) ≡ request_body (command call)
unfolding body command request_body
slots-body (Call.ping) = refl
slots-body _ = refl

call_of-body : (call : Call) → call_of (command call) (body call) (message_size call) ≡ some call
unfolding body command message_size call_of
call_of-body (Call.ping) = refl
call_of-body _ = refl

body_small : (call : Call) → header_size + size_of (slots (body call)) ≤ default_request_size
unfolding body
body_small (Call.ping) = omega arith
body_small _ = omega arith

struct_bytes-append :
    (fs gs : List Field) → struct_bytes (fs ++ gs) ≡ struct_bytes fs ++ struct_bytes gs
unfolding struct_bytes
struct_bytes-append [] gs = refl
struct_bytes-append (f ∷ fs) gs = rw (struct_bytes-append fs gs, append_assoc)

parse-header :
    (h : RequestHeader) (rest : List ℕ)
    → All Fits (request_header_fields h)
    → parse (struct_bytes (request_header_fields h) ++ rest) ≡ (
        if h.magic == magic_req then parse_body h.noack h.bodylen (command_of h.cmd) rest else none)
unfolding parse
parse-header h rest fits = rw (
  read_struct-struct_bytes (request_header_fields h) rest fits,
  drop-append header_size (struct_bytes (request_header_fields h)) rest
      (sym (length-struct_bytes (request_header_fields h) fits)),
)

command_of-cmd : (c : Command) → command_of (code c % 2 ^ 8) ≡ some c
command_of-cmd c = rw (code-small c) (command_of-code c)

parse_body-struct_bytes :
    (c : Command) (fs : List Field) (n noack bodylen : ℕ) (call : Call)
    → slots fs ≡ request_body c
    → All Fits fs
    → bodylen ≡ size_of (slots fs) + n
    → call_of c fs n ≡ some call
    → parse_body noack bodylen (some c) (struct_bytes fs) ≡ some (noack, call)
unfolding parse_body
parse_body-struct_bytes c fs n noack bodylen call layout fits len e =
    let whole : read_struct (slots fs) (struct_bytes fs) ≡ fs =
      rw append-nil at (read_struct-struct_bytes fs [] fits) in
    let rest : bodylen - size_of (slots fs) ≡ n = omega arith in rw (← layout, whole, rest, e)

-- The server's reading of a packet with a known layout.
parse-packet :
    (c : Command) (fs : List Field) (n noack : ℕ) (call : Call)
    → slots fs ≡ request_body c
    → All Fits fs
    → noack < 2 ^ 8
    → size_of (slots fs) + n < 2 ^ 32
    → call_of c fs n ≡ some call
    → parse (packet c fs n noack) ≡ some (noack, call)
unfolding packet
parse-packet c fs n noack call layout fits flag small e =
    let bodylen = size_of (slots fs) + n in
    let flag' : noack % 2 ^ 8 ≡ noack = omega arith in
    let h = set_header_request (code c) noack bodylen in
    rw
      (
        struct_bytes-append (request_header_fields h) fs,
        parse-header h (struct_bytes fs) (header_Fits (code c) noack bodylen),
      )
      (unfold set_header_request in
        rw (command_of-cmd c, flag')
          (parse_body-struct_bytes c fs n noack (bodylen % 2 ^ 32) call layout fits (omega arith)
            e))

-- The arguments of a call that its request can carry: texts that fit their arrays with their NUL,
-- numbers that fit their words, and a message whose length the header can count.
pub record IsSendable (call : Call) : Type 0 where
  pub fits : All Fits (body call)
  pub counted : size_of (slots (body call)) + message_size call < 2 ^ 32

text_too_long-Fits : (fs : List Field) → All Fits fs → text_too_long fs ≡ false
text_too_long-Fits [] h = refl
text_too_long-Fits (chars n s ∷ fs) h = ground (arith, text_too_long-Fits fs h.1)
text_too_long-Fits (word k v ∷ fs) h = text_too_long-Fits fs h.1

-- The bytes of the call's request, for the value of `noack`.
unfoldable pub request_of : Call → ℕ → List ℕ
request_of call noack = packet (command call) (body call) (message_size call) noack

-- With such arguments a request function fills the buffer with the request.
pub build-fits :
    {World : Type 0} (sys : System World) (call : Call) (s : State World)
    → IsValid s.client
    → IsSendable call
    → build sys call s
      ≡ done Status.ok
          (record s { client = with_request s.client (request_of call s.client.noack) })
unfolding request_of
build-fits sys call s v h =
    rw (build-make_request sys call s, text_too_long-Fits (body call) h.fits)
      (make_request-Fits sys (command call) (body call) (message_size call) s v h.fits
        (body_small call))

pub length-request_of :
    (call : Call) (noack : ℕ)
    → IsSendable call
    → length (request_of call noack) ≡ header_size + size_of (slots (body call))
unfolding request_of
length-request_of call noack h =
    length-packet (command call) (body call) (message_size call) noack h.fits

-- Every request fits into the first buffer.
pub request_of-le :
    (call : Call) (noack : ℕ)
    → IsSendable call
    → length (request_of call noack) ≤ default_request_size
request_of-le call noack h = omega (arith, length-request_of call noack h, body_small call)

-- A server that reads a request by the structs of src/protocol.h recovers the call that made it.
parse-request_of :
    (call : Call) (noack : ℕ)
    → noack < 2 ^ 8
    → IsSendable call
    → parse (request_of call noack) ≡ some (noack, call)
unfolding request_of
parse-request_of call noack flag h =
    parse-packet (command call) (body call) (message_size call) noack call (slots-body call) h.fits
      flag h.counted (call_of-body call)

-- What a request function has done by its end, when its arguments can be sent.
abbrev pub Sends : {World : Type 0} → Call → State World → Run World Status → Type 0
Sends call s r =
    (c : Client) × (r ≡ done Status.ok (record s { client = c }))
    × IsValid c
    × (parse (request_bytes c) ≡ some (s.client.noack, call))
    × (c.pos ≡ header_size + size_of (slots (body call)))

-- For all 43 request functions: on a valid client whose `noack` is a byte, with arguments that fit
-- their fields, the function returns `EMQ_STATUS_OK`, keeps the buffer valid, and leaves in it a
-- request from which a server that reads by the structs of src/protocol.h recovers the same call,
-- its arguments and the `noack` flag.
pub build-parse :
    {World : Type 0} (sys : System World) (call : Call) (s : State World)
    → IsValid s.client
    → s.client.noack < 2 ^ 8
    → IsSendable call
    → Sends call s (build sys call s)
build-parse sys call s v flag h =
    let p = request_of call s.client.noack in
    (
      with_request s.client p,
      build-fits sys call s v h,
      with_request-IsValid s.client p v
          (omega (arith, v.large, request_of-le call s.client.noack h)),
      rw (request_bytes-with_request s.client p) (parse-request_of call s.client.noack flag h),
      length-request_of call s.client.noack h,
    )

-- A text that is too long for its array makes the function return `EMQ_STATUS_ERR` at once, with
-- the client and the world as they were.
pub build_refuses :
    {World : Type 0} (sys : System World) (call : Call) (s : State World)
    → text_too_long (body call) ≡ true
    → build sys call s ≡ done Status.err s
build_refuses sys call s h = rw (build-make_request sys call s, h)
