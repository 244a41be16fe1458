-- ===== src/Api/Steps.antt =====
-- The stages of a call of src/emq.c on any connection, which may close, fail, or send what it likes.
use libemq.Base.{
  refl, ℕ, List, Bool, true, false, Option, none, some, inl, inr, ◌++◌, ◌≡◌, ◌≤◌, ◌∙◌, take, length,
  ap, sym, subst, arith, ◌==◌, Bool-cases, length-append,
}
use libemq.Client.{
  Client, State, Run, Prog, Status, Error, done, jump, fault, stuck, and_then, require, is_ok,
  ◌>>=◌, ◌>>◌, pure,
}
use libemq.System.{System, Posix}
use libemq.Protocol.{ResponseHeader, header_size, response_header, status_success}
use libemq.Wire.{decode}
use libemq.Packet.{check_status, get_error}
use libemq.Packet.Buffer.{with_request}
use libemq.Network.{client_read}
use libemq.Network.Read.{Reads, client_read-Reads}
use libemq.Network.Write.{Writes, Took}
use libemq.Api.{require_some, read_header, read_response, accept, acknowledge, read_number}

module _ {World : Type 0} {sys : System World} (posix : Posix sys) (p : List ℕ)
    (s : State World) where
  -- From `s` on the request `p` has been put in the buffer and some first bytes of it have been sent;
  -- of the client's other members only the status and the error have changed.
  pub record Kept (s' : State World) : Type 0 where
    pub frame :
        s'.client
        ≡ record (with_request s.client p) { status = s'.client.status; error = s'.client.error }
    pub count : ℕ
    pub sent : posix.sent s.client.fd s'.world ≡ posix.sent s.client.fd s.world ++ take count p
    pub fewer :
        length (posix.incoming s.client.fd s'.world) ≤ length (posix.incoming s.client.fd s.world)

  abbrev pub Tame : {A : Type 0} → Run World A → Type 0
  Tame (done a s') = Kept s'
  Tame (jump s') = Kept s'
  Tame fault = ⊥
  Tame stuck = ⊥

  pub Tame-and_then :
      {A B : Type 0} (r : Run World A) (k : A → Prog World B)
      → Tame r
      → ((a : A) (s' : State World) → Kept s' → Tame (k a s'))
      → Tame (and_then r k)
  Tame-and_then (done a s') k h next = next a s' h
  Tame-and_then (jump s') k h next = h
  Tame-and_then fault k h next = h
  Tame-and_then stuck k h next = h

  Kept-error :
      (s' : State World) (e : Error)
      → Kept s'
      → Kept (record s' { client = record (s'.client) { error = e } })
  Kept-error s' e h = record {
    frame = ap (λ (c : Client). record c { error = e }) h.frame;
    count = h.count;
    sent = h.sent;
    fewer = h.fewer;
  }

  -- A step that leaves the client and what has been sent, and lets no bytes come.
  Kept-step :
      (s1 s2 : State World)
      → Kept s1
      → s2.client ≡ s1.client
      → posix.sent s1.client.fd s2.world ≡ posix.sent s1.client.fd s1.world
      → length (posix.incoming s1.client.fd s2.world)
        ≤ length (posix.incoming s1.client.fd s1.world)
      → Kept s2
  Kept-step s1 s2 h same out left =
      let fd : s1.client.fd ≡ s.client.fd = ap (λ (c : Client). c.fd) h.frame in
      record {
        frame =
            subst
              (λ (c : Client).
                c ≡ record (with_request s.client p) { status = c.status; error = c.error })
              (sym same) h.frame;
        count = h.count;
        sent = subst (λ (a : ℕ). posix.sent a s2.world ≡ posix.sent a s1.world) fd out ∙ h.sent;
        fewer = omega (
          arith,
          subst (λ (a : ℕ). length (posix.incoming a s2.world) ≤ length (posix.incoming a s1.world))
              fd left,
          h.fewer,
        );
      }

  require-Tame : (b : Bool) (e : Error) (s1 : State World) → Kept s1 → Tame (require b e s1)
  require-Tame true e s1 h = h
  require-Tame false e s1 h = Kept-error s1 e h

  read-Tame :
      {A : Type 0} (n : ℕ) (f : List ℕ → A) (s1 : State World) (r : Run World (Option (List ℕ)))
      → Kept s1
      → Reads posix n s1 r
      → Tame (and_then r (λ bs. require_some Error.read bs >>= λ bs'. pure (f bs')))
  read-Tame n f s1 (done (some bs) s2) h (len, stream, out, same) =
      Kept-step s1 s2 h same out
        (omega (arith, ap length stream, length-append bs (posix.incoming s1.client.fd s2.world)))
  read-Tame n f s1 (done none s2) h (out, left, same) =
      Kept-error s2 Error.read (Kept-step s1 s2 h same out left)
  read-Tame n f s1 (jump s2) h reads = absurd reads
  read-Tame n f s1 fault h reads = absurd reads
  read-Tame n f s1 stuck h reads = absurd reads

  pub read_header-Tame : (s1 : State World) → Kept s1 → Tame (read_header sys s1)
  unfolding read_header
  read_header-Tame s1 h =
      read-Tame header_size response_header s1 (client_read sys header_size s1) h
        (client_read-Reads posix header_size s1)

  pub read_number-Tame : (s1 : State World) → Kept s1 → Tame (read_number sys s1)
  unfolding read_number
  read_number-Tame s1 h =
      read-Tame 4 decode s1 (client_read sys 4 s1) h (client_read-Reads posix 4 s1)

  pub accept-Tame :
      (v : Status) (header : ResponseHeader) (s1 : State World)
      → Kept s1
      → Tame (accept v header s1)
  unfolding accept
  accept-Tame v header s1 h =
      Tame-and_then (require (is_ok v) Error.response s1) _
        (require-Tame (is_ok v) Error.response s1 h)
        (λ _ s2 h2.
          require-Tame (is_ok (check_status header status_success)) (get_error header) s2 h2)

  read_response-Tame :
      (check : ResponseHeader → Status) (s1 : State World)
      → Kept s1
      → Tame (read_response sys check s1)
  unfolding read_response
  read_response-Tame check s1 h =
      Tame-and_then (read_header sys s1) _ (read_header-Tame s1 h)
        (λ header s2 h2. accept-Tame (check header) header s2 h2)

  pub acknowledge-Tame :
      (check : ResponseHeader → Status) (s1 : State World)
      → Kept s1
      → Tame (acknowledge sys check s1)
  unfolding acknowledge
  acknowledge-Tame check s1 h = elim (Bool-cases (s1.client.noack == 0)) [
    | inl e ↦ rw e (read_response-Tame check s1 h)
    | inr e ↦ rw e h
  ]

  -- The write of the request, which is in the buffer.
  abbrev pub requested : Error → State World
  requested e = record { client = record (with_request s.client p) { error = e }; world = s.world }

  Took-Kept :
      (e : Error) (s2 : State World) (n : ℕ)
      → Took posix s.client.fd n p s.world s2.world
      → s2.client ≡ (requested e).client
      → Kept s2
  Took-Kept e s2 n took same = record {
    frame =
        subst
          (λ (c : Client).
            c ≡ record (with_request s.client p) { status = c.status; error = c.error })
          (sym same) refl;
    count = n;
    sent = took.taken;
    fewer = omega (arith, ap length took.kept);
  }

  pub write-Tame :
      (e : Error) (r : Run World (Option ℕ))
      → Writes posix p (requested e) r
      → Tame (and_then r (λ n. require_some Error.write n >> pure tt))
  write-Tame e (done (some n) s2) (took, same) = Took-Kept e s2 n took same
  write-Tame e (done none s2) (n, took, same) =
      Kept-error s2 Error.write (Took-Kept e s2 n took same)
  write-Tame e (jump s2) writes = absurd writes
  write-Tame e fault writes = absurd writes
  write-Tame e stuck writes = absurd writes
