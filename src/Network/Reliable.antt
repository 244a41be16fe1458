-- ===== src/Network/Reliable.antt =====
-- `emq_client_read` and `emq_client_write` (src/network.c) on a connection that works.
use libemq.Base.{
  ℕ, zero, suc, ◌+◌, ◌-◌, ◌≤◌, ◌<◌, ◌≡◌, Option, some, List, [], ◌∷◌, ◌++◌, ◌==◌, arith, length,
  Bool-cases, inl, inr, length-append, take, drop, length-drop, ==→eq, ap, take-append, drop-append,
  sym, take-length,
}
use libemq.System.{System, Posix, Reliable}
use libemq.Client.{State, Run, done}
use libemq.Network.{
  Transfer, complete, failed, overrun, read_loop, read_next, read_result, client_read, write_loop,
  write_next, write_result, client_write,
}
use libemq.Network.Read.{Reads, client_read-Reads}
use libemq.Network.Write.{Writes, client_write-Writes}

module _ {World : Type 0} {sys : System World} {posix : Posix sys} (works : Reliable posix) where
  abbrev IsDone : ℕ → Transfer × World → Type 0
  IsDone count (complete n buf, w) = n ≡ count
  IsDone count (failed, w) = ⊥
  IsDone count (overrun, w) = ⊥

  read_loop-IsDone :
      (k fd count totlen : ℕ) (buf : List ℕ) (w : World)
      → totlen ≤ count
      → count - totlen < k
      → count ≤ totlen + length (posix.incoming fd w)
      → IsDone count (read_loop sys k fd count totlen buf w)
  unfolding read_loop read_next
  read_loop-IsDone zero fd count totlen buf w h fuel enough = absurd (omega arith)
  read_loop-IsDone (suc k) fd count totlen buf w h fuel enough =
      elim (Bool-cases (totlen == count)) [
        | inl e ↦ rw e (==→eq totlen count e)
        | inr e ↦
            let some_left : totlen < count = ground arith in
            let (b, bs, w', r) =
              works.read_some fd (count - totlen) w (omega arith) (omega arith) in
            let (room, stream, kept) = posix.read_received fd (count - totlen) w w' (b ∷ bs) r in
            rw (e, r)
              (read_loop-IsDone k fd count (totlen + length (b ∷ bs)) (buf ++ (b ∷ bs)) w'
                (omega arith) (omega arith)
                (omega (arith, ap length stream, length-append (b ∷ bs) (posix.incoming fd w'))))
      ]

  write_loop-IsDone :
      (k fd count totlen : ℕ) (buf : List ℕ) (w : World)
      → totlen + length buf ≡ count
      → length buf < k
      → IsDone count (write_loop sys k fd count totlen buf w)
  unfolding write_loop write_next
  write_loop-IsDone zero fd count totlen buf w l fuel = absurd (omega arith)
  write_loop-IsDone (suc k) fd count totlen buf w l fuel = elim (Bool-cases (totlen == count)) [
    | inl e ↦ rw e (==→eq totlen count e)
    | inr e ↦
        let some_left : 0 < length buf = ground arith in
        let (n, w', r) = works.write_some fd buf w some_left in
        let (room, _, _) = posix.write_written fd buf w w' (suc n) r in
        rw (e, r)
          (write_loop-IsDone k fd count (totlen + suc n) (drop (suc n) buf) w'
            (omega (arith, length-drop (suc n) buf)) (omega (arith, length-drop (suc n) buf)))
  ]

  -- What `emq_client_read` gives on such a connection, when the peer sends `n` bytes or more.
  abbrev pub ReadsAll : ℕ → State World → Run World (Option (List ℕ)) → Type 0
  ReadsAll n s r =
      (w : World) × (r
        ≡ done (some (take n (posix.incoming s.client.fd s.world)))
            (record { client = s.client; world = w }))
      × (posix.incoming s.client.fd w ≡ drop n (posix.incoming s.client.fd s.world))
      × (posix.sent s.client.fd w ≡ posix.sent s.client.fd s.world)

  read_result-ReadsAll :
      (n : ℕ) (s : State World) (r : Transfer × World)
      → IsDone n r
      → Reads posix n s (read_result s.client r)
      → ReadsAll n s (read_result s.client r)
  unfolding read_result
  read_result-ReadsAll n s (complete m buf, w) d (l, stream, kept, same) = (
    w,
    rw (stream, take-append n buf (posix.incoming s.client.fd w) (sym l)),
    rw (stream, drop-append n buf (posix.incoming s.client.fd w) (sym l)),
    kept,
  )
  read_result-ReadsAll n s (failed, w) d h = elim d [ ]
  read_result-ReadsAll n s (overrun, w) d h = elim d [ ]

  -- On a connection that works, with `n` bytes to come, `emq_client_read` takes exactly these.
  pub client_read-ReadsAll :
      (n : ℕ) (s : State World)
      → n ≤ length (posix.incoming s.client.fd s.world)
      → ReadsAll n s (client_read sys n s)
  unfolding client_read
  client_read-ReadsAll n s h =
      read_result-ReadsAll n s (read_loop sys (suc n) s.client.fd n 0 [] s.world)
        (read_loop-IsDone (suc n) s.client.fd n 0 [] s.world (omega arith) (omega arith)
          (omega arith))
        (client_read-Reads posix n s)

  -- What `emq_client_write` does on such a connection.
  abbrev pub WritesAll : List ℕ → State World → Run World (Option ℕ) → Type 0
  WritesAll buf s r =
      (w : World) × (r ≡ done (some (length buf)) (record { client = s.client; world = w }))
      × (posix.sent s.client.fd w ≡ posix.sent s.client.fd s.world ++ buf)
      × (posix.incoming s.client.fd w ≡ posix.incoming s.client.fd s.world)

  write_result-WritesAll :
      (buf : List ℕ) (s : State World) (r : Transfer × World)
      → IsDone (length buf) r
      → Writes posix buf s (write_result s.client r)
      → WritesAll buf s (write_result s.client r)
  unfolding write_result
  write_result-WritesAll buf s (complete m left, w) d (t, same) =
      (w, rw d, rw (d, take-length) at t.taken, t.kept)
  write_result-WritesAll buf s (failed, w) d h = elim d [ ]
  write_result-WritesAll buf s (overrun, w) d h = elim d [ ]

  -- On a connection that works `emq_client_write` sends the whole buffer.
  pub client_write-WritesAll :
      (buf : List ℕ) (s : State World) → WritesAll buf s (client_write sys buf s)
  unfolding client_write
  client_write-WritesAll buf s =
      write_result-WritesAll buf s
        (write_loop sys (suc (length buf)) s.client.fd (length buf) 0 buf s.world)
        (write_loop-IsDone (suc (length buf)) s.client.fd (length buf) 0 buf s.world (omega arith)
          (omega arith))
        (client_write-Writes posix buf s)
