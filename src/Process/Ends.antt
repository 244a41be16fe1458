-- ===== src/Process/Ends.antt =====
-- `emq_process` of src/emq.c comes to an end: each round reads a header from the stream.
use libemq.Client.{done, jump, fault, stuck, returning, pure, Status}
use libemq.Base.{
  zero, ℕ, suc, none, some, inl, inr, arith, Bool-cases, Option, length, ap, List, length-append,
  ◌<◌, ◌&&◌, ◌≤◌, ◌≡◌, refl,
}
use libemq.System.{System, Posix, Limited}
use libemq.Client.{State, Run, Error, Prog, and_then, ◌>>=◌}
use libemq.Network.{client_read}
use libemq.Network.Read.{client_read-Reads, Reads}
use libemq.Process.{
  go_on, stop, give_up, Callbacks, handle_event, Step, process_round, process_loop, is_nil,
  next_round, process,
}
use libemq.Protocol.{header_size, event_header}
use libemq.Api.{require_some}
use libemq.Process.Events.{Listens}
use libemq.Process.Stream.{Quiet, Shortens, remaining, handle_event-Keeps}

module _ {World : Type 0} {sys : System World} (posix : Posix sys) where
  -- `emq_process` has returned the status that it has stored, with a stream that is no longer than
  -- `n`; it has met nothing that C leaves undefined, and is not left waiting.
  abbrev pub Ends : ℕ → Run World Status → Type 0
  Ends n (done v s) = (v ≡ s.client.status) × (remaining posix s ≤ n) × Listens s.client
  Ends n (jump s) = ⊥
  Ends n fault = ⊥
  Ends n stuck = ⊥

  returning-Ends :
      (n : ℕ) (r : Run World (Unit {0}))
      → Shortens posix n r
      → Ends n (returning Status.err (and_then r (λ _. pure Status.ok)))
  returning-Ends n (done a s) (h, named) = (refl, h, named)
  returning-Ends n (jump s) (h, named) = (refl, h, named)
  returning-Ends n fault h = h
  returning-Ends n stuck h = h

  -- A round that goes on has shortened the stream.
  abbrev Progress : ℕ → Run World Step → Type 0
  Progress n (done go_on s) = (remaining posix s < n) × Listens s.client
  Progress n (done stop s) = (remaining posix s ≤ n) × Listens s.client
  Progress n (done give_up s) = (remaining posix s ≤ n) × Listens s.client
  Progress n (jump s) = (remaining posix s ≤ n) × Listens s.client
  Progress n fault = ⊥
  Progress n stuck = ⊥

  Shortens-Progress : (m n : ℕ) (r : Run World Step) → m < n → Shortens posix m r → Progress n r
  Shortens-Progress m n (done go_on s) h (k, named) = (omega arith, named)
  Shortens-Progress m n (done stop s) h (k, named) = (omega arith, named)
  Shortens-Progress m n (done give_up s) h (k, named) = (omega arith, named)
  Shortens-Progress m n (jump s) h (k, named) = (omega arith, named)
  Shortens-Progress m n fault h k = k
  Shortens-Progress m n stuck h k = k

  Shortens-weaken :
      (m n : ℕ) (r : Run World (Unit {0})) → m ≤ n → Shortens posix m r → Shortens posix n r
  Shortens-weaken m n (done a s) h (k, named) = (omega arith, named)
  Shortens-weaken m n (jump s) h (k, named) = (omega arith, named)
  Shortens-weaken m n fault h k = k
  Shortens-weaken m n stuck h k = k

module _ {World : Type 0} {sys : System World} (posix : Posix sys) (limited : Limited sys)
    (callbacks : Callbacks World) (quiet : Quiet posix callbacks) where
  header-Progress :
      (s : State World) (r : Run World (Option (List ℕ)))
      → Listens s.client
      → Reads posix header_size s r
      → Progress posix (remaining posix s) (
          and_then r (λ bytes.
            require_some Error.read bytes >>= λ bs. handle_event sys callbacks (event_header bs)))
  header-Progress s (done (some buf) s') named (len, stream, kept, same) =
      let less : remaining posix s' < remaining posix s = rw same (
        omega (arith, ap length stream, length-append buf (posix.incoming s.client.fd s'.world))) in
      Shortens-Progress posix _ _ _ less
        (handle_event-Keeps posix limited callbacks quiet (event_header buf) s' (rw same named))
  header-Progress s (done none s') named (kept, fewer, same) = (rw same fewer, rw same named)
  header-Progress s (jump s') named h = absurd h
  header-Progress s fault named h = h
  header-Progress s stuck named h = h

  process_round-Progress :
      (s : State World)
      → Listens s.client
      → Progress posix (remaining posix s) (process_round sys callbacks s)
  unfolding process_round
  process_round-Progress s named =
      elim (Bool-cases
        (is_nil s.client.queue_subscriptions && is_nil s.client.channel_subscriptions)) [
          | inl e ↦ rw e (omega arith, named)
          | inr e ↦ rw e (
              header-Progress s (client_read sys header_size s) named
                (client_read-Reads posix header_size s))
        ]

  next_round-Shortens :
      (again : Prog World (Unit {0})) (n : ℕ) (r : Run World Step)
      → Progress posix n r
      → ((s : State World)
          → remaining posix s < n
          → Listens s.client
          → Shortens posix (remaining posix s) (again s))
      → Shortens posix n (and_then r (next_round sys callbacks again))
  unfolding next_round
  next_round-Shortens again n (done go_on s) (h, named) rest =
      Shortens-weaken posix (remaining posix s) n (again s) (omega arith) (rest s h named)
  next_round-Shortens again n (done stop s) h rest = h
  next_round-Shortens again n (done give_up s) h rest = h
  next_round-Shortens again n (jump s) h rest = h
  next_round-Shortens again n fault h rest = h
  next_round-Shortens again n stuck h rest = h

  process_loop-Shortens :
      (rounds : ℕ) (s : State World)
      → Listens s.client
      → remaining posix s < rounds
      → Shortens posix (remaining posix s) (process_loop sys callbacks rounds s)
  unfolding process_loop
  process_loop-Shortens zero s named h = absurd (omega arith)
  process_loop-Shortens (suc k) s named h =
      next_round-Shortens (process_loop sys callbacks k) (remaining posix s)
        (process_round sys callbacks s) (process_round-Progress s named)
        (λ s' l named'. process_loop-Shortens k s' named' (omega arith))

  -- `emq_process` returns, and returns the status that it stores: with a NUL in the name of every
  -- subscription, callbacks that keep it and leave no more to be read than they found, and an
  -- allocator that gives no block of 2 GiB or more, whatever bytes come and however they arrive,
  -- and whatever errors reading and allocation meet. No read and no comparison of names leaves its
  -- buffer, more rounds than there are bytes to come are never used up, no more is left to be read
  -- than there was, and the names keep their NUL.
  pub process-Ends :
      (rounds : ℕ) (s : State World)
      → Listens s.client
      → remaining posix s < rounds
      → Ends posix (remaining posix s) (process sys callbacks rounds s)
  unfolding process
  process-Ends rounds s named h =
      let cleared : State World = record s {
        client = record (s.client) { error = Error.no_error };
      } in
      returning-Ends posix (remaining posix s) (process_loop sys callbacks rounds cleared)
        (process_loop-Shortens rounds cleared named h)
