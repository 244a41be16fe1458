-- ===== src/Api/Stages.antt =====
-- The stages of a call, one lemma each: the request goes out, the response's header comes in.
use libemq.Base.{
  ℕ, List, ◌≡◌, le→ltb_false, length, ◌++◌, drop, length-append, arith, ap, take-append, sym,
  append-nil, [], ◌∙◌, drop-append,
}
use libemq.System.{System, Posix, Reliable}
use libemq.Api.{read_header, request_block, submit}
use libemq.Protocol.{ResponseHeader, response_header_bytes, header_size}
use libemq.Client.{Client, State, Run, done}
use libemq.Packet.Calls.{Call, build}
use libemq.Packet.Buffer.{IsValid, with_request, contents, request_bytes-with_request}
use libemq.Protocol.Headers.{
  IsHeader, length-response_header_bytes, response_header-response_header_bytes,
}
use libemq.Packet.RoundTrip.{IsSendable, request_of, build-fits}
use libemq.Network.Reliable.{client_write-WritesAll, client_read-ReadsAll}

module _ {World : Type 0} where
  pub request_block-with_request :
      (c : Client) (p : List ℕ) (w : World)
      → request_block (record { client = with_request c p; world = w })
        ≡ done p (record { client = with_request c p; world = w })
  unfolding request_block
  request_block-with_request c p w = rw (
    le→ltb_false (length (p ++ drop (length p) (contents c.request))) (length p)
        (omega (arith, length-append p (drop (length p) (contents c.request)))),
    request_bytes-with_request c p,
  )

module _ {World : Type 0} {sys : System World} {posix : Posix sys} (works : Reliable posix) where
  -- What sending `p` from `s` does on a connection that works.
  abbrev pub Submits : List ℕ → State World → Run World (Unit {0}) → Type 0
  Submits p s r =
      (w : World) × (r ≡ done tt (record { client = with_request s.client p; world = w }))
      × (posix.sent s.client.fd w ≡ posix.sent s.client.fd s.world ++ p)
      × (posix.incoming s.client.fd w ≡ posix.incoming s.client.fd s.world)

  pub submit-Submits :
      (call : Call) (s : State World)
      → IsValid s.client
      → IsSendable call
      → Submits (request_of call s.client.noack) s (submit sys (build sys call) s)
  unfolding submit
  submit-Submits call s v h =
      let p = request_of call s.client.noack in
      let (w, e, out, kept) =
        client_write-WritesAll works p
          (record { client = with_request s.client p; world = s.world }) in
      (
        w,
        rw (build-fits sys call s v h, request_block-with_request s.client p s.world, e),
        out,
        kept,
      )

  -- The header that the peer sends next.
  pub read_header-arrived :
      (h : ResponseHeader) (rest : List ℕ) (s : State World)
      → IsHeader h
      → posix.incoming s.client.fd s.world ≡ response_header_bytes h ++ rest
      → (w : World) × (read_header sys s ≡ done h (record { client = s.client; world = w }))
        × (posix.incoming s.client.fd w ≡ rest)
        × (posix.sent s.client.fd w ≡ posix.sent s.client.fd s.world)
  unfolding read_header
  read_header-arrived h rest s ok e =
      let len = length-response_header_bytes h ok in
      let whole = length-append (response_header_bytes h) rest in
      let size = ap length e in
      let (w, r, after, kept) = client_read-ReadsAll works header_size s (omega arith) in
      (
        w,
        rw (r, e, take-append header_size (response_header_bytes h) rest (sym len))
            (ap (λ (k : ResponseHeader). done k (record { client = s.client; world = w }))
              (rw append-nil at (response_header-response_header_bytes h [] ok))),
        after ∙ rw (e, drop-append header_size (response_header_bytes h) rest (sym len)),
        kept,
      )
