-- ===== src/Network/Takes.antt =====
-- Steps that take known bytes from a connection that works.
use libemq.Base.{
  refl, ℕ, some, List, length, ◌≡◌, ◌++◌, arith, ap, length-append, take-append, sym, ◌∙◌,
  drop-append,
}
use libemq.System.{System, Posix, Reliable}
use libemq.Client.{State, Run, done}
use libemq.Network.{client_read}
use libemq.Network.Reliable.{client_read-ReadsAll}

module _ {World : Type 0} {sys : System World} (posix : Posix sys) where
  -- A step that returns `a`, takes the stream down to `rest`, and sends nothing.
  abbrev pub Takes : {A : Type 0} → A → List ℕ → State World → Run World A → Type 0
  Takes a rest s r =
      (w : World) × (r ≡ done a (record { client = s.client; world = w }))
      × (posix.sent s.client.fd w ≡ posix.sent s.client.fd s.world)
      × (posix.incoming s.client.fd w ≡ rest)

module _ {World : Type 0} {sys : System World} {posix : Posix sys} (works : Reliable posix) where
  pub client_read-Takes :
      (n : ℕ) (bs rest : List ℕ) (s : State World)
      → length bs ≡ n
      → posix.incoming s.client.fd s.world ≡ bs ++ rest
      → Takes posix (some bs) rest s (client_read sys n s)
  client_read-Takes n bs rest s len e =
      let (w, r, after, kept) =
        client_read-ReadsAll works n s (omega (arith, ap length e, length-append bs rest)) in
      (
        w,
        rw (r, e, take-append n bs rest (sym len)) refl,
        kept,
        after ∙ rw (e, drop-append n bs rest (sym len)) refl,
      )
