-- ===== src/Network/Write.antt =====
-- The loop of `emq_client_write` (src/network.c) over the stream to the peer.
use libemq.Base.{
  ℕ, zero, suc, ◌+◌, ◌≤◌, ◌<◌, ◌≡◌, refl, Option, none, some, List, ◌++◌, ◌==◌, arith, length,
  Bool-cases, inl, inr, append_assoc, append-nil, take, drop, take-add, length-drop, ◌∙◌,
}
use libemq.System.{System, Posix, Writing, written, interrupted, write_error}
use libemq.Client.{State, Run, done}
use libemq.Network.{
  Transfer, complete, failed, overrun, write_loop, write_next, write_result, client_write,
}

module _ {World : Type 0} {sys : System World} (posix : Posix sys) (fd : ℕ) where
  -- The kernel has taken the first `n` bytes of `buf` between `w` and `w'`.
  pub record Took (n : ℕ) (buf : List ℕ) (w w' : World) : Type 0 where
    pub within : n ≤ length buf
    pub taken : posix.sent fd w' ≡ posix.sent fd w ++ take n buf
    pub kept : posix.incoming fd w' ≡ posix.incoming fd w

  -- What a loop that began with `buf` left, after `totlen` bytes, has done.
  abbrev Wrote : (totlen : ℕ) (buf : List ℕ) (w : World) → Transfer × World → Type 0
  Wrote totlen buf w (complete n left, w') = (k : ℕ) × (n ≡ totlen + k) × Took k buf w w'
  Wrote totlen buf w (failed, w') = (k : ℕ) × Took k buf w w'
  Wrote totlen buf w (overrun, w') = ⊥

  Took-none : (buf : List ℕ) (w : World) → Took 0 buf w w
  Took-none buf w = record { within = omega arith; taken = rw append-nil; kept = refl }

  Took-add :
      (m n : ℕ) (buf : List ℕ) {w w' w'' : World}
      → Took m buf w w'
      → Took n (drop m buf) w' w''
      → Took (m + n) buf w w''
  Took-add m n buf a b = record {
    within = omega (arith, a.within, b.within, length-drop m buf);
    taken = rw (take-add, ← append_assoc, ← a.taken) (b.taken);
    kept = b.kept ∙ a.kept;
  }

  Wrote-after :
      (totlen m : ℕ) (buf : List ℕ) {w w' : World} (r : Transfer × World)
      → Took m buf w w'
      → Wrote (totlen + m) (drop m buf) w' r
      → Wrote totlen buf w r
  Wrote-after totlen m buf (complete n left, v) a (k, e, b) =
      (m + k, omega arith, Took-add m k buf a b)
  Wrote-after totlen m buf (failed, v) a (k, b) = (m + k, Took-add m k buf a b)
  Wrote-after totlen m buf (overrun, v) a h = elim h [ ]

  write_next-Wrote :
      (go : ℕ → List ℕ → World → Transfer × World) (totlen : ℕ) (buf : List ℕ) (w : World)
      → ((k : ℕ) (w' : World)
          → suc k ≤ length buf
          → Wrote
              (totlen + suc k)
              (drop (suc k) buf)
              w'
              (go (totlen + suc k) (drop (suc k) buf) w'))
      → (r : Writing × World) → sys.write fd buf w ≡ r
      → Wrote totlen buf w (write_next go totlen buf r)
  unfolding write_next
  write_next-Wrote go totlen buf w rest (write_error, w') e =
      let (s, i) = posix.write_error_streams fd buf w w' e in
      (0, record { within = omega arith; taken = rw append-nil s; kept = i })
  write_next-Wrote go totlen buf w rest (interrupted, w') e =
      let (s, i) = posix.write_interrupted fd buf w w' e in
      (0, record { within = omega arith; taken = rw append-nil s; kept = i })
  write_next-Wrote go totlen buf w rest (written zero, w') e =
      let (l, s, i) = posix.write_written fd buf w w' 0 e in
      (0, omega arith, record { within = l; taken = s; kept = i })
  write_next-Wrote go totlen buf w rest (written (suc k), w') e =
      let (l, s, i) = posix.write_written fd buf w w' (suc k) e in
      Wrote-after totlen (suc k) buf (go (totlen + suc k) (drop (suc k) buf) w')
        (record { within = l; taken = s; kept = i }) (rest k w' l)

  write_loop-Wrote :
      (f count totlen : ℕ) (buf : List ℕ) (w : World)
      → totlen + length buf ≡ count
      → length buf < f
      → Wrote totlen buf w (write_loop sys f fd count totlen buf w)
  unfolding write_loop
  write_loop-Wrote zero count totlen buf w l fuel = absurd (omega arith)
  write_loop-Wrote (suc f) count totlen buf w l fuel = elim (Bool-cases (totlen == count)) [
    | inl e ↦ rw e (0, omega arith, Took-none buf w)
    | inr e ↦ rw e (
        write_next-Wrote (write_loop sys f fd count) totlen buf w
          (λ k w' h.
            write_loop-Wrote f count (totlen + suc k) (drop (suc k) buf) w'
              (omega (arith, length-drop (suc k) buf)) (omega (arith, length-drop (suc k) buf)))
          (sys.write fd buf w) refl)
  ]

module _ {World : Type 0} {sys : System World} (posix : Posix sys) where
  -- What a run of `emq_client_write` over `buf` has done, when it began at `s`.
  abbrev pub Writes : List ℕ → State World → Run World (Option ℕ) → Type 0
  Writes buf s (done (some n) s') =
      Took posix s.client.fd n buf s.world s'.world × (s'.client ≡ s.client)
  Writes buf s (done none s') =
      (k : ℕ) × Took posix s.client.fd k buf s.world s'.world × (s'.client ≡ s.client)
  Writes buf s (Run.jump s') = ⊥
  Writes buf s Run.fault = ⊥
  Writes buf s Run.stuck = ⊥

  write_result-Writes :
      (buf : List ℕ) (s : State World) (r : Transfer × World)
      → Wrote posix s.client.fd 0 buf s.world r
      → Writes buf s (write_result s.client r)
  unfolding write_result
  write_result-Writes buf s (complete n left, w) (k, e, t) =
      let same : n ≡ k = omega arith in rw same (t, refl)
  write_result-Writes buf s (failed, w) (k, t) = (k, t, refl)
  write_result-Writes buf s (overrun, w) h = elim h [ ]

  -- `emq_client_write` ends: it returns how many bytes the kernel has taken, always the first ones
  -- in order, or -1 after some first bytes; it reads nothing and leaves the client alone.
  pub client_write-Writes : (buf : List ℕ) (s : State World) → Writes buf s (client_write sys buf s)
  unfolding client_write
  client_write-Writes buf s = write_result-Writes buf s _ (
      write_loop-Wrote posix s.client.fd (suc (length buf)) (length buf) 0 buf s.world (omega arith)
        (omega arith))
