-- ===== src/Api/Stat/Replies.antt =====
-- The runs of `emq_stat` of src/emq.c, on a connection that works.
use libemq.Api.Stat.{ServerStatus, status_size, read_status, stat}
use libemq.Api.Stat.Bytes.{IsStatus, status_bytes, length-status_bytes, copy_status-status_bytes}
use libemq.Api.Verdicts.{Verdict, judge, reading, is_response, judge-reading}
use libemq.Api.Replies.{outcome, settled, cleared-IsValid}
use libemq.Base.{
  ◌&&◌, ◌==◌, ap, refl, ℕ, [], inl, inr, List, ◌≡◌, arith, length-append, ◌++◌, take, append-nil,
  ◌+◌, ◌∙◌, sym, append_assoc, drop-append, take-append,
}
use libemq.Protocol.{ResponseHeader, header_size, Command, status_success, response_header_bytes}
use libemq.System.{System, Posix, Reliable}
use libemq.Client.{Status, returning, Client, State, Error, and_then, pure, done, Status-cases}
use libemq.Packet.{check_response_header, check_status, get_error}
use libemq.Api.{accept}
use libemq.Packet.Calls.{build, body, message_size, Call}
use libemq.Protocol.Headers.{
  IsHeader, length-response_header_bytes, response_header-response_header_bytes,
}
use libemq.Packet.Buffer.{IsValid, with_request}
use libemq.Api.Ask.{Answers, answer}
use libemq.Packet.RoundTrip.{request_of}
use libemq.Api.Stages.{submit-Submits}
use libemq.Network.Takes.{client_read-Takes}

abbrev pub status_verdict : ResponseHeader → Verdict
status_verdict h = reading (is_response Command.stat h && h.bodylen == status_size) h

module _ {World : Type 0} {sys : System World} {posix : Posix sys} (works : Reliable posix) where
  read_status-judged :
      (h : ResponseHeader) (x : ServerStatus) (rest : List ℕ) (c : Client) (p : List ℕ) (w : World)
      (old : ServerStatus)
      → IsHeader h
      → IsStatus x
      → posix.incoming c.fd w ≡ response_header_bytes h ++ (status_bytes x ++ rest)
      → let cleared : Client = record c { error = Error.no_error } in
        let v =
          judge
            (check_response_header h Command.stat status_size)
            (check_status h status_success)
            (get_error h) in
        (w' : World) × (returning {A = Status × ServerStatus}
            (Status.err, old)
            (and_then
              (read_status sys (record { client = with_request cleared p; world = w }))
              (λ x'. pure (Status.ok, x')))
          ≡ done (outcome v, answer x old v) (record { client = settled c p v; world = w' }))
        × (posix.sent c.fd w' ≡ posix.sent c.fd w)
        × (posix.incoming c.fd w' ≡ rest)
  unfolding read_status accept
  read_status-judged h x rest c p w old fits values e =
      let cleared : Client = record c { error = Error.no_error } in
      let head = response_header_bytes h in
      let len = length-response_header_bytes h fits in
      let (w', r, out, left) =
        client_read-Takes works (header_size + status_size) (head ++ status_bytes x) rest
          (record { client = with_request cleared p; world = w })
          (omega (arith, length-append head (status_bytes x), len, length-status_bytes x values))
          (e ∙ sym (append_assoc head (status_bytes x) rest)) in
      let header = response_header-response_header_bytes h (status_bytes x) fits in
      let body = drop-append header_size head (status_bytes x) (sym len) in
      let whole : take status_size (status_bytes x) ≡ status_bytes x =
        rw append-nil at
          (take-append status_size (status_bytes x) [] (sym (length-status_bytes x values))) in
      elim (Status-cases (check_response_header h Command.stat status_size)) [
        | inr bad ↦ (w', rw (r, header, bad) refl, out, left)
        | inl fit ↦ elim (Status-cases (check_status h status_success)) [
          | inr bad ↦ (w', rw (r, header, fit, bad) refl, out, left)
          | inl good ↦ (
            w',
            rw (r, header, fit, good, body, whole, copy_status-status_bytes x values) refl,
            out,
            left,
          )
        ]
      ]

  read_status-arrived :
      (h : ResponseHeader) (x : ServerStatus) (rest : List ℕ) (c : Client) (p : List ℕ) (w : World)
      (old : ServerStatus)
      → IsHeader h
      → IsStatus x
      → posix.incoming c.fd w ≡ response_header_bytes h ++ (status_bytes x ++ rest)
      → let cleared : Client = record c { error = Error.no_error } in
        (w' : World) × (returning {A = Status × ServerStatus}
            (Status.err, old)
            (and_then
              (read_status sys (record { client = with_request cleared p; world = w }))
              (λ x'. pure (Status.ok, x')))
          ≡ done
              (outcome (status_verdict h), answer x old (status_verdict h))
              (record { client = settled c p (status_verdict h); world = w' }))
        × (posix.sent c.fd w' ≡ posix.sent c.fd w)
        × (posix.incoming c.fd w' ≡ rest)
  read_status-arrived h x rest c p w old fits values e =
      let (w', run, out, left) = read_status-judged h x rest c p w old fits values e in
      (
        w',
        run
            ∙ ap
                (λ (v : Verdict).
                  done (outcome v, answer x old v) (record { client = settled c p v; world = w' }))
                (judge-reading Command.stat status_size h),
        out,
        left,
      )

  -- `emq_stat`, on a connection that works on which some header, a status as the server writes it
  -- and more come next: it sends exactly its request and reads header and status, whatever the
  -- header is. If the header is the success of the command with a body of this size, it returns
  -- `EMQ_STATUS_OK` and fills the caller's struct with the status; if not, it returns and stores
  -- what the header calls for, and leaves the struct as it was.
  pub stat-Answers :
      (h : ResponseHeader) (x old : ServerStatus) (rest : List ℕ) (s : State World)
      → IsValid s.client
      → IsHeader h
      → IsStatus x
      → posix.incoming s.client.fd s.world ≡ response_header_bytes h ++ (status_bytes x ++ rest)
      → let v = status_verdict h in
        Answers works
          (request_of Call.stat s.client.noack)
          rest
          (outcome v, answer x old v)
          v
          s
          (stat sys old s)
  unfolding stat build body message_size
  stat-Answers h x old rest s valid fits values e =
      let cleared : Client = record (s.client) { error = Error.no_error } in
      let (w, submitted, out, kept) =
        submit-Submits works Call.stat (record { client = cleared; world = s.world })
          (cleared-IsValid s.client valid) (omega arith) in
      let p = request_of Call.stat s.client.noack in
      let (w', r, out', left) =
        read_status-arrived h x rest s.client p w old fits values (kept ∙ e) in
      (w', rw submitted r, out' ∙ out, left)
