-- ===== src/Connection/Session.antt =====
-- `emq_tcp_connect` or `emq_unix_connect` and then `emq_disconnect`, of src/emq.c.
use libemq.Connection.Opening.{Opens, Gains, Established, Connected, connect-Connected}
use libemq.Connection.Memory.{entries, Owns, GivenBack, disconnect-GivenBack}
use libemq.Connection.Attempts.{closed_head, Settled}
use libemq.Connection.Runs.{Returns, Returns-and_then, Returns-weaken}
use libemq.Connection.Connect.{disconnect}
use libemq.Connection.{Host, Sockets, closed}
use libemq.Client.{Client, State, Prog, ◌>>=◌}
use libemq.System.{System, Posix, Ample}
use libemq.Base.{Bool, true, false, inl, ◌∙◌, ap, arith, ◌≡◌, ◌∷◌}

module _ {World : Type 0} where
  Established-Owns : (s s' : State (Host World)) → Established s s' → Owns s'
  Established-Owns s s' made =
      let none_there : entries s'.client ≡ 0 = ap entries made.client in
      record {
        block = made.block;
        request = ap (λ (c : Client). c.request) made.client;
        clients = omega (arith, made.blocks.0);
        requests = omega (arith, made.blocks.1);
        lists = omega (arith, made.blocks.2);
        nodes = omega (arith, none_there);
        subscriptions = omega (arith, none_there);
      }

  -- What is left of a connection that has been made, or not, and closed.
  abbrev pub Over : Sockets World → State (Host World) → Unit {0} → State (Host World) → Type 0
  Over net s _ s' =
      Gains s.world.blocks 0 0 0 s'.world.blocks
      × Settled net s.world.descriptors s'.world.descriptors

  -- `emq_disconnect` of a client that owns its blocks and has no subscription.
  pub owner-Over :
      (net : Sockets World) (s s' : State (Host World))
      → Owns s'
      → entries s'.client ≡ 0
      → Gains s.world.blocks 1 1 2 s'.world.blocks
      → s'.world.descriptors ≡ s'.client.fd ∷ s.world.descriptors
      → Returns (Over net s) (disconnect net true s')
  owner-Over net s s' owns none_there blocks descriptors =
      Returns-weaken (GivenBack net s') (Over net s) (disconnect net true s')
        (disconnect-GivenBack net s' owns)
        (λ _ s'' back. (
          (
            omega (arith, blocks.0, back.clients),
            omega (arith, blocks.1, back.requests),
            omega (arith, blocks.2, back.lists),
            omega (arith, blocks.3, back.nodes, none_there),
            omega (arith, blocks.4, back.subscriptions, none_there),
            back.messages ∙ blocks.5,
            back.payloads ∙ blocks.6,
          ),
          inl (
              back.descriptors
              ∙ (ap (closed s'.client.fd) descriptors
                  ∙ closed_head s'.client.fd s.world.descriptors)),
        ))

  disconnect-Over :
      (net : Sockets World) (s s' : State (Host World)) (b : Bool)
      → Connected net s b s'
      → Returns (Over net s) (disconnect net b s')
  unfolding disconnect
  disconnect-Over net s s' false failed = failed
  disconnect-Over net s s' true made =
      owner-Over net s s' (Established-Owns s s' made) (ap entries made.client) made.blocks
        made.descriptors

module _ {World : Type 0} {sys : System World} (posix : Posix sys) (ample : Ample sys) where
  -- A program that connects and gives the result to `emq_disconnect` at once returns, whatever the
  -- calls of the system answer, with an allocator that does not run out. It leaves no block behind,
  -- and no descriptor but one for which `setsockopt` has refused SO_REUSEADDR.
  pub connect-disconnect :
      (net : Sockets World) (run : Prog (Host World) Bool) (s : State (Host World))
      → Opens sys net run
      → Returns (Over net s) ((run >>= disconnect net) s)
  connect-disconnect net run s opens =
      Returns-and_then (Connected net s) (Over net s) (run s) (disconnect net)
        (connect-Connected posix ample net run s opens)
        (λ b s' connected. disconnect-Over net s s' b connected)
