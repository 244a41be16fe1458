-- ===== src/Benchmark/Leaving.antt =====
-- `setup_server` and `cleanup_server` of src/benchmark.c on any connection: it may be refused, close,
-- fail, or send what it likes.
use libemq.Base.{
  ℕ, Bool, true, false, Option, none, some, List, ◌≡◌, refl, ap, inl, inr, ◌∙◌, sym, subst,
  Option-cases, arith, length, ◌∷◌,
}
use libemq.Connection.Runs.{Returns, Returns-and_then}
use libemq.Connection.Session.{Over, owner-Over}
use libemq.Connection.Opening.{Opens, tcp, unix, Established, Connected, connect-Connected, Gains}
use libemq.Connection.Memory.{entries, Owns}
use libemq.Benchmark.Answers.{Later}
use libemq.Benchmark.{Config}
use libemq.Benchmark.Server.{
  rehost, on_host, prepare, clean, setup_server, cleanup_server, connect_by, prepare_if,
  connect_server, clean_if,
}
use libemq.Client.{
  done, jump, fault, stuck, State, Client, Run, Prog, and_then, done, jump, ◌>>=◌, pure,
}
use libemq.System.{System, Posix, Ample}
use libemq.Packet.Buffer.{IsValid, contents}
use libemq.Packet.Calls.{Call}
use libemq.Packet.RoundTrip.{IsSendable}
use libemq.Connection.{Host, Sockets}
use libemq.Connection.Connect.{disconnect}
use libemq.Wire.{Text}
use libemq.Benchmark.Visits.{Stays, prepare-Stays, clean-Stays}

module _ {World : Type 0} where
  -- What the host holds is what it held.
  abbrev pub Visits : {A : Type 0} → State (Host World) → A → State (Host World) → Type 0
  Visits s a s' =
      Later s.client s'.client
      × (s'.world.blocks ≡ s.world.blocks)
      × (s'.world.descriptors ≡ s.world.descriptors)

  pub rehost-Visits :
      {A : Type 0} (s : State (Host World)) (r : Run World A)
      → Stays s.client r
      → Returns (Visits s) (rehost s.world r)
  rehost-Visits s (done a s') l = (l, refl, refl)
  rehost-Visits s (jump s') h = h
  rehost-Visits s fault h = h
  rehost-Visits s stuck h = h

  pub Established-IsValid : (s s' : State (Host World)) → Established s s' → IsValid s'.client
  Established-IsValid s s' made =
      subst (λ (c : Client). IsValid c) (sym made.client)
        (record { allocated = made.allocated; large = omega arith; filled = omega arith })

  -- A client that has been made, and has sent requests, owns its blocks.
  -- A client without subscriptions that the library holds, with its descriptor, since `s`.
  abbrev pub Opened : State (Host World) → State (Host World) → Type 0
  Opened s s' =
      (entries s'.client ≡ 0)
      × Gains s.world.blocks 1 1 2 s'.world.blocks
      × (s'.world.descriptors ≡ s'.client.fd ∷ s.world.descriptors)

  pub Established-Opened : (s s' : State (Host World)) → Established s s' → Opened s s'
  Established-Opened s s' made = (ap entries made.client, made.blocks, made.descriptors)

  Visits-Owns :
      {A : Type 0} (a : A) (s s' s'' : State (Host World))
      → Opened s s'
      → Visits s' a s''
      → Owns s''
  Visits-Owns a s s' s'' (empty, gains, fds) (later, blocks, descriptors) =
      let none_there : entries s''.client ≡ 0 = ap entries later.1 ∙ empty in
      elim (Option-cases s''.client.request) [
        | inl gone ↦ absurd (
            omega (
              arith,
              ap (λ (r : Option (List ℕ)). length (contents r)) gone,
              later.0.allocated,
              later.0.large,
            ))
        | inr (block, there) ↦ record {
          block = block;
          request = there;
          clients = rw blocks (omega (arith, gains.0));
          requests = rw blocks (omega (arith, gains.1));
          lists = rw blocks (omega (arith, gains.2));
          nodes = omega (arith, none_there);
          subscriptions = omega (arith, none_there);
        }
      ]

  -- A connection that has been made, used, and closed.
  pub Visits-Over :
      {A : Type 0} (a : A) (net : Sockets World) (s s' s'' : State (Host World))
      → Opened s s'
      → Visits s' a s''
      → Returns (Over net s) (disconnect net true s'')
  Visits-Over a net s s' s'' made visit =
      let (empty, gains, fds) = made in
      let (later, blocks, descriptors) = visit in
      let fd : s''.client.fd ≡ s'.client.fd = ap (λ (x : Client). x.fd) later.1 in
      owner-Over net s s'' (Visits-Owns a s s' s'' made visit) (ap entries later.1 ∙ empty)
        (rw blocks gains) (descriptors ∙ (fds ∙ ap (λ (n : ℕ). n ∷ s.world.descriptors) (sym fd)))

module _ {World : Type 0} (net : Sockets World) where
  -- `Over`, whatever has been returned.
  abbrev pub Leaves : {A : Type 0} → State (Host World) → A → State (Host World) → Type 0
  Leaves s a s' = Over net s tt s'

module _ {World : Type 0} (sys : System World) (net : Sockets World) where
  connect_by-Opens : (c : Config) (o : Option Text) → Opens sys net (connect_by sys net c o)
  unfolding connect_by
  connect_by-Opens c none = tcp c.host c.port
  connect_by-Opens c (some path) = unix path

  pub connect_server-Opens : (c : Config) → Opens sys net (connect_server sys net c)
  unfolding connect_server
  connect_server-Opens c = connect_by-Opens c c.unix_socket

  -- The two functions, around the benchmark.
  pub data Serving (c : Config) : Prog (Host World) Bool → Type 0 where
    sets_up : Serving c (setup_server sys net c)
    cleans_up : Serving c (cleanup_server sys net c)

module _ {World : Type 0} {sys : System World} (posix : Posix sys) (ample : Ample sys)
    (net : Sockets World) where
  -- The end of a visit.
  disconnect-Leaves :
      {A B : Type 0} (s s' : State (Host World)) (r : Run (Host World) A) (f : A → B)
      → Established s s'
      → Returns (Visits s') r
      → Returns (Leaves net s) (and_then r (λ a. disconnect net true >>= λ _. pure (f a)))
  disconnect-Leaves s s' r f made visit =
      Returns-and_then (Visits s') (Leaves net s) r _ visit (λ a s'' v.
        Returns-and_then (Over net s) (Leaves net s) (disconnect net true s'') _
          (Visits-Over a net s s' s'' (Established-Opened s s' made) v) (λ _ s3 over. over))

  prepare_if-Leaves :
      (c : Config) (b : Bool) (s s' : State (Host World))
      → IsSendable (Call.auth c.user_name c.user_password)
      → Connected net s b s'
      → Returns (Leaves net s) (prepare_if sys net c b s')
  unfolding prepare_if
  prepare_if-Leaves c false s s' ok failed = failed
  prepare_if-Leaves c true s s' ok made =
      disconnect-Leaves s s' (on_host (prepare sys c) s') (λ ready. ready) made
        (rehost-Visits s' _ (prepare-Stays posix c _ (Established-IsValid s s' made) ok))

  clean_if-Leaves :
      (c : Config) (b : Bool) (s s' : State (Host World))
      → IsSendable (Call.auth c.user_name c.user_password)
      → Connected net s b s'
      → Returns (Leaves net s) (clean_if sys net c b s')
  unfolding clean_if
  clean_if-Leaves c false s s' ok failed = failed
  clean_if-Leaves c true s s' ok made =
      disconnect-Leaves s s' (on_host (clean sys c) s') (λ _. true) made
        (rehost-Visits s' _ (clean-Stays posix c _ (Established-IsValid s s' made) ok))

  -- `setup_server` and `cleanup_server`, with a name and a password that can be sent and an
  -- allocator that does not run out, whatever the calls that make the connection answer, and
  -- whatever becomes of the connection, which may close, fail, or send what it likes: the function
  -- returns, or comes to its `exit(-1)`, and leaves no block behind, and no descriptor but one for
  -- which `setsockopt` has refused SO_REUSEADDR.
  pub server-Leaves :
      (c : Config) {run : Prog (Host World) Bool} (s : State (Host World))
      → Serving sys net c run
      → IsSendable (Call.auth c.user_name c.user_password)
      → Returns (Leaves net s) (run s)
  unfolding setup_server cleanup_server
  server-Leaves c s sets_up ok =
      Returns-and_then (Connected net s) (Leaves net s) (connect_server sys net c s) _
        (connect-Connected posix ample net (connect_server sys net c) s
          (connect_server-Opens sys net c))
        (λ b s' connected. prepare_if-Leaves c b s s' ok connected)
  server-Leaves c s cleans_up ok =
      Returns-and_then (Connected net s) (Leaves net s) (connect_server sys net c s) _
        (connect-Connected posix ample net (connect_server sys net c) s
          (connect_server-Opens sys net c))
        (λ b s' connected. clean_if-Leaves c b s s' ok connected)
