-- ===== src/Process/Refinement.antt =====
-- The loop of `emq_process` of src/emq.c does to a sequence of events what Process/Replay says.
use libemq.Base.{
  append-nil, append_assoc, ap, ℕ, zero, suc, none, some, [], ◌∷◌, refl, true, false, List, ◌≡◌,
  Bool-cases, inl, inr, ◌∙◌, All, length, ◌<◌, arith, ◌++◌, Option,
}
use libemq.Process.{Callbacks, Delivery, process_round, process_loop, next_round, process, give_up}
use libemq.Client.{Client, State, Run, done, Error, Status, returning, jump, and_then, pure}
use libemq.Process.Events.{idle, Event, target, Listens, stream, IsEvent, event_round-Delivers}
use libemq.System.{System, Posix, Reliable, Ample}
use libemq.Process.Rounds.{Delivers}
use libemq.Process.Unclaimed.{unread_part, event_round-unread_part}
use libemq.Process.Replay.{
  after, answered, replay-idle, replay-nil, replay-cons, serve-none, serve-some, answered-ends,
  answered-again, over-cases, replay, ends, ended, unclaimed, Outcome, Reactions, Local,
}

module _ {World : Type 0} {sys : System World} (posix : Posix sys) where
  -- `emq_process` has come to this outcome, from `s`.
  abbrev pub Finishes : List ℕ → Outcome → State World → Run World Status → Type 0
  Finishes rest (ended es c out) s r =
      (w : World) × (r
        ≡ done Status.ok (record { client = record c { status = Status.ok }; world = w }))
      × (posix.incoming c.fd w ≡ stream es rest)
      × (posix.sent c.fd w ≡ posix.sent s.client.fd s.world ++ out)
  Finishes rest (unclaimed e es c out) s r =
      (w : World) × (r
        ≡ done Status.err (record { client = record c { status = Status.err }; world = w }))
      × (posix.incoming c.fd w ≡ unread_part e ++ stream es rest)
      × (posix.sent c.fd w ≡ posix.sent s.client.fd s.world ++ out)

module _ {World : Type 0} {sys : System World} {posix : Posix sys} (works : Reliable posix)
    (ample : Ample sys) (callbacks : Callbacks World) (answer : Reactions) {Holds : Client → Type 0}
    (local : Local posix callbacks answer Holds) where
  -- The loop has come to this outcome, in front of its events and then `rest`.
  abbrev Reaches : List ℕ → Outcome → State World → Run World (Unit {0}) → Type 0
  Reaches rest (ended es c out) s r =
      (w : World) × (r ≡ done tt (record { client = c; world = w }))
      × (posix.incoming c.fd w ≡ stream es rest)
      × (posix.sent c.fd w ≡ posix.sent s.client.fd s.world ++ out)
  Reaches rest (unclaimed e es c out) s r =
      (w : World) × (r ≡ jump (record { client = c; world = w }))
      × (posix.incoming c.fd w ≡ unread_part e ++ stream es rest)
      × (posix.sent c.fd w ≡ posix.sent s.client.fd s.world ++ out)

  Reaches-after :
      (rest bs : List ℕ) (o : Outcome) (s s' : State World) (r : Run World (Unit {0}))
      → posix.sent s'.client.fd s'.world ≡ posix.sent s.client.fd s.world ++ bs
      → Reaches rest o s' r
      → Reaches rest (after bs o) s r
  Reaches-after rest bs (ended es c out) s s' r sent (w, run, here, out_to) = (
    w,
    run,
    here,
    out_to
        ∙ (ap (λ (xs : List ℕ). xs ++ out) sent
            ∙ append_assoc (posix.sent s.client.fd s.world) bs out),
  )
  Reaches-after rest bs (unclaimed e es c out) s s' r sent (w, run, here, out_to) = (
    w,
    run,
    here,
    out_to
        ∙ (ap (λ (xs : List ℕ). xs ++ out) sent
            ∙ append_assoc (posix.sent s.client.fd s.world) bs out),
  )

  process_loop-idle :
      (k : ℕ) (s : State World)
      → idle s.client ≡ true
      → process_loop sys callbacks (suc k) s ≡ done tt s
  unfolding process_loop process_round next_round
  process_loop-idle k s e = rw e refl

  process_loop-give_up :
      (k : ℕ) (s s' : State World)
      → process_round sys callbacks s ≡ done give_up s'
      → process_loop sys callbacks (suc k) s ≡ jump s'
  unfolding process_loop next_round
  process_loop-give_up k s s' e = rw e refl

  -- Nothing is left to wait for.
  process_loop-ended :
      (es : List Event) (rest : List ℕ) (n : ℕ) (s : State World) (out : Outcome)
      → posix.incoming s.client.fd s.world ≡ stream es rest
      → idle s.client ≡ true
      → ended es s.client [] ≡ out
      → Reaches rest out s (process_loop sys callbacks (suc n) s)
  process_loop-ended es rest n s out left i same =
      rw (← same) (s.world, process_loop-idle n s i, left, rw append-nil refl)

  process_loop-unclaimed :
      (x : Event) (es : List Event) (rest : List ℕ) (n : ℕ) (s : State World) (out : Outcome)
      → posix.incoming s.client.fd s.world ≡ stream (x ∷ es) rest
      → IsEvent x
      → Listens s.client
      → idle s.client ≡ false
      → target x s.client ≡ none
      → unclaimed x es s.client [] ≡ out
      → Reaches rest out s (process_loop sys callbacks (suc n) s)
  process_loop-unclaimed x es rest n s out left fit listens i nobody same =
      let (w, here, sent, run) =
        event_round-unread_part works callbacks x (stream es rest) s left fit listens i nobody in
      rw (← same) (
        w,
        process_loop-give_up n s (record { client = s.client; world = w }) run,
        here,
        rw append-nil sent,
      )

  -- After a round that has called the callback.
  process_loop-Delivers :
      (es : List Event) (rest : List ℕ) (n : ℕ) (k : ℕ) (d : Delivery) (s : State World)
      (out : Outcome) (again : Client → Option Outcome)
      → Delivers posix callbacks k d (stream es rest) s (process_round sys callbacks s)
      → Holds s.client
      → answered answer again es (answer k d s.client) ≡ some out
      → ((s' : State World) (o : Outcome)
          → s'.client ≡ (answer k d s.client).1
          → again (answer k d s.client).1 ≡ some o
          → posix.incoming s'.client.fd s'.world ≡ stream es rest
          → Reaches rest o s' (process_loop sys callbacks n s'))
      → Reaches rest out s (process_loop sys callbacks (suc n) s)
  unfolding process_loop next_round
  process_loop-Delivers es rest n k d s out again (w, here, sent, run) holds result next =
      let (w', call, same, sent') =
        local.acts k d (record { client = s.client; world = w }) holds in
      let r = answer k d s.client in
      let s' : State World = record { client = r.1; world = w' } in
      let sent_to = sent' ∙ ap (λ (xs : List ℕ). xs ++ r.2) sent in
      elim (Bool-cases (ends r)) [
        | inl e ↦
            rw (← answered-ends answer again es r out result e)
              (w', rw (run, call, e) refl, same ∙ here, sent_to)
        | inr e ↦
            let (o, more, is_out) = answered-again answer again es r out result e in
            rw (← is_out, run, call, e)
              (Reaches-after rest r.2 o s s' (process_loop sys callbacks n s') sent_to
                (next s' o refl more (same ∙ here)))
      ]

  process_loop-replay :
      (es : List Event) (rest : List ℕ) (n : ℕ) (s : State World) (out : Outcome)
      → posix.incoming s.client.fd s.world ≡ stream es rest
      → All IsEvent es
      → Holds s.client
      → replay answer es s.client ≡ some out
      → length es < n
      → Reaches rest out s (process_loop sys callbacks n s)
  process_loop-replay es rest zero s out left fits holds e l = absurd (omega arith)
  process_loop-replay [] rest (suc n) s out left fits holds e l =
      let i = replay-nil answer s.client out e in
      process_loop-ended [] rest n s out left i (replay-idle answer [] s.client out i e)
  process_loop-replay (x ∷ es) rest (suc n) s out left (fit, fits) holds e l =
      elim (Bool-cases (idle s.client)) [
        | inl i ↦
            process_loop-ended (x ∷ es) rest n s out left i
              (replay-idle answer (x ∷ es) s.client out i e)
        | inr i ↦
            let served = replay-cons answer x es s.client out i e in
            elim (over-cases (target x s.client)) [
              | inl nobody ↦
                  process_loop-unclaimed x es rest n s out left fit (local.listens s.client holds) i
                    nobody (serve-none answer (replay answer es) x es s.client _ out served nobody)
              | inr (k, d, there) ↦
                  process_loop-Delivers es rest n k d s out (replay answer es)
                    (event_round-Delivers works ample callbacks x (stream es rest) k d s left fit
                      (local.listens s.client holds) there)
                    holds
                    (serve-some answer (replay answer es) x es s.client _ out k d served there)
                    (λ s' o same more here.
                      process_loop-replay es rest n s' o here fits
                        (rw same (local.keeps k d s.client holds)) (rw same more) (omega arith))
            ]
      ]

  returning-Finishes :
      (rest : List ℕ) (out : Outcome) (s : State World) (r : Run World (Unit {0}))
      → Reaches rest out (record s { client = record (s.client) { error = Error.no_error } }) r
      → Finishes posix rest out s (returning Status.err (and_then r (λ _. pure Status.ok)))
  returning-Finishes rest (ended es c out) s r (w, run, here, sent) = (w, rw run refl, here, sent)
  returning-Finishes rest (unclaimed e es c out) s r (w, run, here, sent) =
      (w, rw run refl, here, sent)

  -- `emq_process` does to the events what `replay` does: with these events next on a connection
  -- that works, each with a message that the client can read, an allocator that does not run out,
  -- and callbacks that read nothing from the connection and keep a NUL in the name of every
  -- subscription, it calls for each event the callback of the first subscription with its name, in
  -- the order of the events, and sends nothing itself. If `replay` on the client without its error
  -- comes to an outcome, then so does `emq_process`, in more rounds than there are events. If the
  -- callbacks have ended the loop, it returns `EMQ_STATUS_OK` with the client of `replay`, and the
  -- events that are left, and what follows them, are all still to be read. At an event that has no
  -- subscription it returns `EMQ_STATUS_ERR`, stores no error, and leaves the event's message in
  -- front of the next event. In both cases what has been sent is what the callbacks have sent.
  pub process-replay :
      (es : List Event) (rest : List ℕ) (rounds : ℕ) (s : State World) (out : Outcome)
      → posix.incoming s.client.fd s.world ≡ stream es rest
      → All IsEvent es
      → Holds (record (s.client) { error = Error.no_error })
      → replay answer es (record (s.client) { error = Error.no_error }) ≡ some out
      → length es < rounds
      → Finishes posix rest out s (process sys callbacks rounds s)
  unfolding process
  process-replay es rest rounds s out left fits holds e l =
      let cleared : State World = record s {
        client = record (s.client) { error = Error.no_error };
      } in
      returning-Finishes rest out s (process_loop sys callbacks rounds cleared)
        (process_loop-replay es rest rounds cleared out left fits holds e l)
