-- ===== src/Api/Ask.antt =====
-- The runs of the functions of src/emq.c that wait for a response with a body, on a connection
-- that works.
use libemq.Api.Verdicts.{accepted, refused, Verdict, judge}
use libemq.Api.Replies.{settled, cleared-IsValid}
use libemq.Base.{subst, refl, ℕ, inl, inr, List, ◌++◌, ◌≡◌, ◌∙◌}
use libemq.System.{System, Posix, Reliable}
use libemq.Packet.Calls.{Call, build}
use libemq.Client.{State, Run, Status, done, Prog, Client, Error, Status-cases, fault}
use libemq.Protocol.{ResponseHeader, response_header_bytes, status_success}
use libemq.Api.{ask, accept}
use libemq.Packet.Buffer.{IsValid, with_request}
use libemq.Packet.RoundTrip.{IsSendable, request_of}
use libemq.Protocol.Headers.{IsHeader}
use libemq.Network.Takes.{Takes}
use libemq.Packet.{check_status, get_error}
use libemq.Api.Stages.{submit-Submits, read_header-arrived}

-- What such a function returns, and what is left of the stream, when the response's body `bs`, which
-- stands for `a`, and `rest` follow the header.
abbrev pub answer : {A : Type 0} → (a failed : A) → Verdict → A
answer a failed accepted = a
answer a failed (refused e) = failed

abbrev pub unread : List ℕ → List ℕ → Verdict → List ℕ
unread bs rest accepted = rest
unread bs rest (refused e) = bs ++ rest

module _ {World : Type 0} {sys : System World} {posix : Posix sys} (works : Reliable posix) where
  -- A run that has sent `p`, left `rest` to be read, and returned `a` by the verdict.
  abbrev pub Answers :
      {A : Type 0} → List ℕ → List ℕ → A → Verdict → State World → Run World A → Type 0
  Answers p rest a v s r =
      (w : World) × (r ≡ done a (record { client = settled s.client p v; world = w }))
      × (posix.sent s.client.fd w ≡ posix.sent s.client.fd s.world ++ p)
      × (posix.incoming s.client.fd w ≡ rest)

  module _ {A : Type 0} (call : Call) (check : ResponseHeader → Status) (failed a : A)
      (k : ResponseHeader → Prog World A) (h : ResponseHeader) (bs rest : List ℕ)
      (s : State World) where
    -- The run by the checks of the header, one after the other.
    ask-judged :
        IsValid s.client
        → IsSendable call
        → IsHeader h
        → posix.incoming s.client.fd s.world ≡ response_header_bytes h ++ (bs ++ rest)
        → ((c : Client) (w : World)
            → c.fd ≡ s.client.fd
            → posix.incoming c.fd w ≡ bs ++ rest
            → Takes posix a rest
                (record { client = c; world = w })
                (k h (record { client = c; world = w })))
        → let v = judge (check h) (check_status h status_success) (get_error h) in
          Answers
            (request_of call s.client.noack)
            (unread bs rest v)
            (answer a failed v)
            v
            s
            (ask sys (build sys call) check failed k s)
    unfolding ask accept
    ask-judged valid ok fits e reads =
        let cleared : Client = record (s.client) { error = Error.no_error } in
        let (w, submitted, out, kept) =
          submit-Submits works call (record { client = cleared; world = s.world })
            (cleared-IsValid s.client valid) ok in
        let p = request_of call s.client.noack in
        let (w', arrived, left, out') =
          read_header-arrived works h (bs ++ rest)
            (record { client = with_request cleared p; world = w }) fits (kept ∙ e) in
        let (w'', body, out'', left') = reads (with_request cleared p) w' refl left in
        elim (Status-cases (check h)) [
          | inr bad ↦ (w', rw (submitted, arrived, bad) refl, out' ∙ out, rw bad left)
          | inl fit ↦ elim (Status-cases (check_status h status_success)) [
            | inr bad ↦ (w', rw (submitted, arrived, fit, bad) refl, out' ∙ out, rw (fit, bad) left)
            | inl good ↦ (
              w'',
              rw (submitted, arrived, fit, good, body) refl,
              out'' ∙ (out' ∙ out),
              rw (fit, good) left',
            )
          ]
        ]

    -- When `k` reads the body as `a`, the function reads the whole response if it is accepted, and
    -- the header alone if not; `v` is what the checks come to.
    pub ask-Answers :
        (v : Verdict)
        → judge (check h) (check_status h status_success) (get_error h) ≡ v
        → IsValid s.client
        → IsSendable call
        → IsHeader h
        → posix.incoming s.client.fd s.world ≡ response_header_bytes h ++ (bs ++ rest)
        → ((c : Client) (w : World)
            → c.fd ≡ s.client.fd
            → posix.incoming c.fd w ≡ bs ++ rest
            → Takes posix a rest
                (record { client = c; world = w })
                (k h (record { client = c; world = w })))
        → Answers
            (request_of call s.client.noack)
            (unread bs rest v)
            (answer a failed v)
            v
            s
            (ask sys (build sys call) check failed k s)
    ask-Answers v agrees valid ok fits e reads =
        subst
          (λ (u : Verdict).
            Answers (request_of call s.client.noack) (unread bs rest u) (answer a failed u) u s
              (ask sys (build sys call) check failed k s))
          agrees (ask-judged valid ok fits e reads)

    -- When `k` faults on the body of a response that is accepted, so does the function.
    pub ask-fault :
        IsValid s.client
        → IsSendable call
        → IsHeader h
        → posix.incoming s.client.fd s.world ≡ response_header_bytes h ++ (bs ++ rest)
        → check h ≡ Status.ok
        → check_status h status_success ≡ Status.ok
        → ((c : Client) (w : World)
            → c.fd ≡ s.client.fd
            → posix.incoming c.fd w ≡ bs ++ rest
            → k h (record { client = c; world = w }) ≡ fault)
        → ask sys (build sys call) check failed k s ≡ fault
    unfolding ask accept
    ask-fault valid ok fits e fit good faults =
        let cleared : Client = record (s.client) { error = Error.no_error } in
        let (w, submitted, out, kept) =
          submit-Submits works call (record { client = cleared; world = s.world })
            (cleared-IsValid s.client valid) ok in
        let p = request_of call s.client.noack in
        let (w', arrived, left, out') =
          read_header-arrived works h (bs ++ rest)
            (record { client = with_request cleared p; world = w }) fits (kept ∙ e) in
        rw (submitted, arrived, fit, good, faults (with_request cleared p) w' refl left) refl
