-- ===== src/Network/Read.antt =====
-- The loop of `emq_client_read` (src/network.c) over the stream of the peer.
use libemq.Base.{
  ℕ, zero, suc, ◌+◌, ◌-◌, ◌≤◌, ◌<◌, ◌≡◌, refl, Option, none, some, List, [], ◌∷◌, ◌++◌, ◌==◌, arith,
  length, Bool-cases, inl, inr, append_assoc, length-append, ==→eq, ◌∙◌, ap,
}
use libemq.System.{System, Posix, received, read_error, Reading}
use libemq.Client.{State, Run, done}
use libemq.Network.{
  Transfer, complete, failed, overrun, read_loop, client_read, read_next, read_result,
}

module _ {World : Type 0} {sys : System World} (posix : Posix sys) (fd : ℕ) where
  -- What a read that began at `w` has done at `w'`.
  abbrev Received : (count : ℕ) (buf : List ℕ) (w : World) → Transfer × World → Type 0
  Received count buf w (complete totlen out, w') =
      (totlen ≡ count)
      × (length out ≡ count)
      × (buf ++ posix.incoming fd w ≡ out ++ posix.incoming fd w')
      × (posix.sent fd w' ≡ posix.sent fd w)
  Received count buf w (failed, w') =
      (posix.sent fd w' ≡ posix.sent fd w)
      × (length (posix.incoming fd w') ≤ length (posix.incoming fd w))
  Received count buf w (overrun, w') = ⊥

  -- The stream may be told from the bytes in the buffer and those to come, at any point.
  Received-from :
      (count : ℕ) (buf more : List ℕ) {w w' : World} (r : Transfer × World)
      → buf ++ posix.incoming fd w ≡ more ++ posix.incoming fd w'
      → length (posix.incoming fd w') ≤ length (posix.incoming fd w)
      → posix.sent fd w' ≡ posix.sent fd w
      → Received count more w' r
      → Received count buf w r
  Received-from count buf more (complete totlen out, v) e fewer kept (t, l, s, k) =
      (t, l, e ∙ s, k ∙ kept)
  Received-from count buf more (failed, v) e fewer kept (k, l) = (k ∙ kept, omega arith)
  Received-from count buf more (overrun, v) e fewer kept k = elim k [ ]

  -- One round: what the rest of the loop does from any state, the whole does from here.
  read_next-Received :
      (go : ℕ → List ℕ → World → Transfer × World) (count totlen : ℕ) (buf : List ℕ) (w : World)
      → ((n : ℕ) (more : List ℕ) (w' : World)
          → length more ≡ n
          → totlen < n
          → n ≤ count
          → Received count more w' (go n more w'))
      → length buf ≡ totlen
      → totlen < count
      → (r : Reading × World) → sys.read fd (count - totlen) w ≡ r
      → Received count buf w (read_next go totlen buf r)
  unfolding read_next
  read_next-Received go count totlen buf w rest l h (read_error, w') e =
      posix.read_error_streams fd (count - totlen) w w' e
  read_next-Received go count totlen buf w rest l h (received [], w') e =
      let (room, stream, kept) = posix.read_received fd (count - totlen) w w' [] e in
      (kept, omega (arith, ap length stream))
  read_next-Received go count totlen buf w rest l h (received (b ∷ bs), w') e =
      let (room, stream, kept) = posix.read_received fd (count - totlen) w w' (b ∷ bs) e in
      let len = length-append buf (b ∷ bs) in
      Received-from count buf (buf ++ (b ∷ bs)) (go (totlen + length (b ∷ bs)) (buf ++ (b ∷ bs)) w')
        (rw (stream, append_assoc))
        (omega (arith, ap length stream, length-append (b ∷ bs) (posix.incoming fd w'))) kept
        (rest (totlen + length (b ∷ bs)) (buf ++ (b ∷ bs)) w' (omega arith) (omega arith)
          (omega arith))

  read_loop-Received :
      (k count totlen : ℕ) (buf : List ℕ) (w : World)
      → length buf ≡ totlen
      → totlen ≤ count
      → count - totlen < k
      → Received count buf w (read_loop sys k fd count totlen buf w)
  unfolding read_loop
  read_loop-Received zero count totlen buf w l h fuel = absurd (omega arith)
  read_loop-Received (suc k) count totlen buf w l h fuel = elim (Bool-cases (totlen == count)) [
    | inl e ↦ rw e (==→eq totlen count e, l ∙ ==→eq totlen count e, refl, refl)
    | inr e ↦ rw e (
        read_next-Received (read_loop sys k fd count) count totlen buf w
          (λ n more w' l' lt le. read_loop-Received k count n more w' l' le (omega arith)) l
          (ground arith) (sys.read fd (count - totlen) w) refl)
  ]

module _ {World : Type 0} {sys : System World} (posix : Posix sys) where
  -- What a run of `emq_client_read` for `n` bytes has done, when it began at `s`.
  abbrev pub Reads : ℕ → State World → Run World (Option (List ℕ)) → Type 0
  Reads n s (done (some buf) s') =
      (length buf ≡ n)
      × (posix.incoming s.client.fd s.world ≡ buf ++ posix.incoming s.client.fd s'.world)
      × (posix.sent s.client.fd s'.world ≡ posix.sent s.client.fd s.world)
      × (s'.client ≡ s.client)
  Reads n s (done none s') =
      (posix.sent s.client.fd s'.world ≡ posix.sent s.client.fd s.world)
      × (length (posix.incoming s.client.fd s'.world) ≤ length (posix.incoming s.client.fd s.world))
      × (s'.client ≡ s.client)
  Reads n s (Run.jump s') = ⊥
  Reads n s Run.fault = ⊥
  Reads n s Run.stuck = ⊥

  read_result-Reads :
      (n : ℕ) (s : State World) (r : Transfer × World)
      → Received posix s.client.fd n [] s.world r
      → Reads n s (read_result s.client r)
  unfolding read_result
  read_result-Reads n s (complete totlen buf, w) (t, l, stream, kept) = (l, stream, kept, refl)
  read_result-Reads n s (failed, w) (kept, fewer) = (kept, fewer, refl)
  read_result-Reads n s (overrun, w) kept = elim kept [ ]

  -- However the bytes arrive, `emq_client_read` ends, and it gives exactly the next `n` bytes of the
  -- stream or -1; it overruns no buffer, sends nothing and leaves the client alone.
  pub client_read-Reads : (n : ℕ) (s : State World) → Reads n s (client_read sys n s)
  unfolding client_read
  client_read-Reads n s =
      read_result-Reads n s _ (
        read_loop-Received posix s.client.fd (suc n) n 0 [] s.world refl (omega arith)
          (omega arith))
