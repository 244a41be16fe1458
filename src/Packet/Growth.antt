-- ===== src/Packet/Growth.antt =====
-- `emq_check_realloc_client_request` of src/packet.c under the request functions: the request
-- buffer with bodies of any size, whatever the allocator answers.
use libemq.Base.{
  ℕ, ◌+◌, ◌≤◌, ◌<◌, ◌≡◌, refl, Option, none, some, List, arith, length, All, ◌⊎◌, inl, inr,
  lt-or-le, lt→ltb, le→ltb_false,
}
use libemq.Wire.{Field, Fits, slots, size_of}
use libemq.Protocol.{Command}
use libemq.System.{System, Posix}
use libemq.Client.{Status, State, Run, done, jump, fault, stuck, and_then, pure, ◌>>◌}
use libemq.Packet.{max_request_size, set_client_request, check_realloc_client_request, make_request}
use libemq.Packet.Buffer.{
  IsValid, packet, length-packet, request_bytes, set_client_request-fits, with_request-IsValid,
  request_bytes-with_request,
}

module _ {World : Type 0} where
  -- A request `req` is in the buffer, or there is no room for it.
  abbrev pub Placed : List ℕ → State World → Run World Status → Type 0
  Placed req s (done Status.ok s') =
      IsValid s'.client
      × (request_bytes s'.client ≡ req)
      × (s.client.size ≤ s'.client.size)
      × ((s'.client.size ≡ s.client.size) ⊎ (s'.client.size ≤ max_request_size))
  Placed req s (done Status.err s') =
      (s.client.size < length req)
      × (((max_request_size < length req) × (s' ≡ s))
          ⊎ ((length req ≤ max_request_size)
              × (s'.client ≡ record (s.client) { request = none; size = length req })))
  Placed req s (jump s') = ⊥
  Placed req s fault = ⊥
  Placed req s stuck = ⊥

module _ {World : Type 0} {sys : System World} (posix : Posix sys) where
  -- What the test of the room leaves of a client with its invariant.
  abbrev Roomy : ℕ → State World → Run World Status → Type 0
  Roomy size s (done Status.ok s') =
      IsValid s'.client
      × (size ≤ s'.client.size)
      × (s.client.size ≤ s'.client.size)
      × ((s'.client.size ≡ s.client.size) ⊎ (s'.client.size ≤ max_request_size))
  Roomy size s (done Status.err s') =
      (s.client.size < size)
      × (((max_request_size < size) × (s' ≡ s))
          ⊎ ((size ≤ max_request_size)
              × (s'.client ≡ record (s.client) { request = none; size = size })))
  Roomy size s (jump s') = ⊥
  Roomy size s fault = ⊥
  Roomy size s stuck = ⊥

  realloc-Roomy :
      (size : ℕ) (s : State World) (answer : Option (List ℕ)) (w : World)
      → IsValid s.client
      → s.client.size < size
      → size ≤ max_request_size
      → sys.realloc s.client.request size s.world ≡ (answer, w)
      → let s' : State World = record {
        client = record (s.client) { request = answer; size = size };
        world = w;
      } in
        Roomy size s (elim answer [ none ↦ done Status.err s' | some _ ↦ done Status.ok s' ])
  realloc-Roomy size s none w v more fits e = (more, inr (fits, refl))
  realloc-Roomy size s (some block) w v more fits e = (
    record {
      allocated = posix.realloc_length s.client.request size s.world w block e;
      large = omega (arith, v.large);
      filled = omega (arith, v.filled);
    },
    omega arith,
    omega arith,
    inr fits,
  )

  check_realloc-Roomy :
      (size : ℕ) (s : State World)
      → IsValid s.client
      → Roomy size s (check_realloc_client_request sys size s)
  unfolding check_realloc_client_request
  check_realloc-Roomy size s v = elim (lt-or-le s.client.size size) [
    | inl more ↦ elim (lt-or-le max_request_size size) [
      | inl huge ↦
          rw (lt→ltb s.client.size size more, lt→ltb max_request_size size huge)
            (more, inl (huge, refl))
      | inr fits ↦
          rw (lt→ltb s.client.size size more, le→ltb_false max_request_size size fits)
            (realloc-Roomy size s _ _ v more fits refl)
    ]
    | inr enough ↦ rw (le→ltb_false s.client.size size enough) (v, enough, omega arith, inl refl)
  ]

  -- The rest of a request function.
  fill-Placed :
      (req : List ℕ) (s : State World) (r : Run World Status)
      → Roomy (length req) s r
      → Placed req s (
          and_then r (elim [
            | Status.err ↦ pure Status.err
            | Status.ok ↦ set_client_request req >> pure Status.ok
          ]))
  fill-Placed req s (done Status.ok s') (v, room, grown, bound) =
      rw (set_client_request-fits sys req s' v room) (
        with_request-IsValid s'.client req v room,
        request_bytes-with_request s'.client req,
        grown,
        bound,
      )
  fill-Placed req s (done Status.err s') h = h
  fill-Placed req s (jump s') h = h
  fill-Placed req s fault h = h
  fill-Placed req s stuck h = h

  -- A request function, with a body of members within their widths, of whatever size, on a client
  -- with its invariant, whatever the allocator answers, returns, and never writes outside the
  -- buffer. If it succeeds, the buffer holds the whole request, the invariant is kept, and the
  -- buffer has its old size or at most `EMQ_MAX_REQUEST_SIZE` bytes. It fails only if the request
  -- is larger than the buffer: either it is larger than this bound too, and nothing has changed, or
  -- the client is left without a buffer, but with the size of the one that it did not get.
  pub make_request-Placed :
      (command : Command) (body : List Field) (n : ℕ) (s : State World)
      → IsValid s.client
      → All Fits body
      → Placed (packet command body n s.client.noack) s (make_request sys command body n s)
  unfolding make_request packet
  make_request-Placed command body n s v fits =
      let req = packet command body n s.client.noack in
      let size : 2 + (1 + (1 + (4 + size_of (slots body)))) ≡ length req =
        omega (arith, length-packet command body n s.client.noack fits) in
      rw size (
        fill-Placed req s (check_realloc_client_request sys (length req) s)
          (check_realloc-Roomy (length req) s v))
