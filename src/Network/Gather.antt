-- ===== src/Network/Gather.antt =====
-- `emq_client_writev` (src/network.c) on a connection that takes its vectors whole.
use libemq.Base.{zero, refl, ℕ, suc, some, List, Option, ◌≡◌, length, ◌++◌, ◌<◌, arith, take-length}
use libemq.System.{System, Posix, Gathers}
use libemq.Network.{client_writev, writev_loop, writev_next}
use libemq.Client.{State, Run, done}

module _ {World : Type 0} {sys : System World} (posix : Posix sys) (gathers : Gathers sys) where
  -- The vectors are sent, and no more is done.
  abbrev pub Gathered : List ℕ → State World → Run World (Option ℕ) → Type 0
  Gathered bs s r =
      (w : World) × (r ≡ done (some (length bs)) (record { client = s.client; world = w }))
      × (posix.sent s.client.fd w ≡ posix.sent s.client.fd s.world ++ bs)
      × (posix.incoming s.client.fd w ≡ posix.incoming s.client.fd s.world)

  writev_loop-Gathered :
      (k : ℕ) (bs : List ℕ) (s : State World)
      → 0 < k
      → Gathered bs s (writev_loop sys k s.client bs s.world)
  unfolding writev_loop writev_next
  writev_loop-Gathered zero bs s h = absurd (omega arith)
  writev_loop-Gathered (suc k) bs s h =
      let (w, e) = gathers.whole s.client.fd bs s.world in
      let (room, out, kept) = posix.writev_written s.client.fd bs s.world w (length bs) e in
      (w, rw e refl, rw take-length at out, kept)

  pub client_writev-Gathered :
      (bs : List ℕ) (s : State World) → Gathered bs s (client_writev sys bs s)
  unfolding client_writev
  client_writev-Gathered bs s = writev_loop-Gathered sys.patience bs s gathers.patient
