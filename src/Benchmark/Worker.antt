-- ===== src/Benchmark/Worker.antt =====
-- `worker` of src/benchmark.c from its connection to its end.
use libemq.Base.{
  ℕ, Bool, true, false, List, ◌≡◌, refl, ap, inl, inr, ◌∙◌, ◌⊎◌, ◌∷◌, ◌<◌, ◌^◌, ◌≤◌, length, All,
  sym, subst, ◌==◌, ◌-◌, arith, suc,
}
use libemq.Client.{State, Client, done}
use libemq.Connection.Runs.{Returns-and_then_known, Returns, Returns-weaken}
use libemq.Connection.Session.{Over}
use libemq.Connection.Opening.{Established, Connected, connect-Connected, Gains}
use libemq.Benchmark.Answers.{Later, awaited, Later-trans}
use libemq.Benchmark.Pushing.{all_taken, push_loop-Goes}
use libemq.Benchmark.Work.{
  mode, noacked, greet-Goes, message-Goes, benchmark_message, message_call-IsSendable,
}
use libemq.Benchmark.{Config, share, expire_message}
use libemq.Benchmark.Server.{
  worker, work_if, end_work, connect_server, hold_message, free_blocks, free_block,
}
use libemq.Benchmark.Leaving.{
  Opened, Established-Opened, Visits-Over, connect_server-Opens, Established-IsValid,
}
use libemq.Connection.{Sockets, Host, Blocks}
use libemq.Connection.Connect.{disconnect}
use libemq.System.{System, Posix, Reliable, Gathers, Ample}
use libemq.Message.{Message, msg_expire}
use libemq.Protocol.{ResponseHeader}
use libemq.Packet.RoundTrip.{IsSendable}
use libemq.Packet.Calls.{Call}
use libemq.Protocol.Headers.{IsHeader}

-- One more message is held.
abbrev pub with_message : Blocks → Blocks
with_message b = record b { messages = suc b.messages }

module _ {World : Type 0} where
  -- Nothing is left behind, or, after a push that was refused, a message, and a client with its
  -- blocks and its connection.
  abbrev pub Worked :
      Sockets World → Bool → State (Host World) → Unit {0} → State (Host World) → Type 0
  Worked net taken s _ s' =
      Over net s tt s'
      ⊎ ((taken ≡ false)
          × Gains (with_message s.world.blocks) 1 1 2 s'.world.blocks
          × (s'.world.descriptors ≡ s'.client.fd ∷ s.world.descriptors))

module _ {World : Type 0} {sys : System World} (posix : Posix sys) (net : Sockets World) where
  -- After the pushes, by whether all of them have been taken.
  end_work-Worked :
      (taken : Bool) (msg : Message) (s s1 : State (Host World)) (c : Client) (w : World)
      → msg.zero_copy ≡ 1
      → Opened s s1
      → Later s1.client c
      → let s2 : State (Host World) = record {
        client = c;
        world = record (s1.world) { world = w; blocks = with_message s1.world.blocks };
      } in
        Returns (Worked net taken s) (end_work sys net msg taken s2)
  unfolding end_work free_blocks free_block
  end_work-Worked true msg s s1 c w own opened later =
      let b = s1.world.blocks in
      let there : (suc b.messages == 0) ≡ false = ground arith in
      let back : suc b.messages - 1 ≡ b.messages = omega arith in
      let given : State (Host World) = record {
        client = c;
        world = record (s1.world) {
          world = w;
          blocks = record b { messages = suc b.messages - 1 };
        };
      } in
      rw (own, there)
        (Returns-weaken (Over net s) (Worked net true s) (disconnect net true given)
          (Visits-Over tt net s s1 given opened
            (later, ap (λ (n : ℕ). record b { messages = n }) back, refl))
          (λ _ s' over. inl over))
  end_work-Worked false msg s s1 c w own (empty, gains, fds) later = inr (
    refl,
    (gains.0, gains.1, gains.2, gains.3, gains.4, ap suc gains.5, gains.6),
    fds ∙ ap (λ (n : ℕ). n ∷ s.world.descriptors) (sym (ap (λ (x : Client). x.fd) later.1)),
  )

module _ {World : Type 0} {sys : System World} {posix : Posix sys} (works : Reliable posix)
    (gathers : Gathers sys) (ample : Ample sys) (net : Sockets World) where
  -- The worker once it is connected.
  work_if-Worked :
      (c : Config) (message_data : List ℕ) (ha hd : ResponseHeader) (hs : List ResponseHeader)
      (rest : List ℕ) (s s' : State (Host World))
      → IsSendable (Call.auth c.user_name c.user_password)
      → 0 < c.msg_size
      → c.msg_size < 2 ^ 31
      → c.msg_size ≤ length message_data
      → IsHeader ha
      → IsHeader hd
      → All IsHeader hs
      → length hs ≡ share c
      → Established s s'
      → posix.incoming s'.client.fd s'.world.world
        ≡ awaited (mode c s'.client.noack) (ha ∷ hd ∷ hs) rest
      → Returns
          (Worked net (all_taken (mode c s'.client.noack) hs) s)
          (work_if sys net c message_data true s')
  unfolding work_if hold_message expire_message msg_expire
  work_if-Worked c message_data ha hd hs rest s s' ok some_data small held fa fd fs times made e =
      let n = mode c s'.client.noack in
      let inner : State World = record { client = s'.client; world = s'.world.world } in
      let msg = benchmark_message c message_data in
      let (c1, w1, run1, out1, left1, later1) =
        greet-Goes works gathers ample c ha hd hs rest inner (Established-IsValid s s' made) ok fa
          fd e in
      let s1 : State World = record { client = c1; world = w1 } in
      let same1 : c1.fd ≡ s'.client.fd = ap (λ (x : Client). x.fd) later1.1 in
      let (c2, w2, run2, out2, left2, later2) =
        message-Goes works gathers ample c message_data (awaited n hs rest) s1 later1.0 small
          (rw same1 left1) in
      let s2 : State World = record { client = c2; world = w2 } in
      let later12 = Later-trans (noacked c inner).client c1 c2 later1 later2 in
      let same2 : c2.fd ≡ c1.fd = ap (λ (x : Client). x.fd) later2.1 in
      let (c3, w3, run3, out3, left3, later3) =
        push_loop-Goes works gathers msg n hs rest s2 (ap (λ (x : Client). x.noack) later12.1)
          later12.0 (message_call-IsSendable c.msg_size small) some_data held fs (rw same2 left2) in
      rw (run1, run2, ← times, run3)
        (end_work-Worked posix net (all_taken n hs) msg s
          (record s' { client = (noacked c inner).client }) c3 w3 refl
          (Established-Opened s s' made)
          (Later-trans (noacked c inner).client c2 c3 later12 later3))

  -- `worker`, on a connection that works and takes its vectors whole, with an allocator that does
  -- not run out, a name and a password that can be sent, a message that is not empty and is held by
  -- its data, and a server that answers each command on the connection that has been made, unless
  -- `config.noack` is set, whatever the calls that make it answer: it returns. It leaves no block
  -- behind, neither of the client nor of its message, and no descriptor but one for which
  -- `setsockopt` has refused SO_REUSEADDR; unless a push has been refused: then it may leave its
  -- message, and its client with the request, the two lists and the descriptor.
  pub worker-Worked :
      (c : Config) (message_data : List ℕ) (ha hd : ResponseHeader) (hs : List ResponseHeader)
      (rest : List ℕ) (s : State (Host World))
      → IsSendable (Call.auth c.user_name c.user_password)
      → 0 < c.msg_size
      → c.msg_size < 2 ^ 31
      → c.msg_size ≤ length message_data
      → IsHeader ha
      → IsHeader hd
      → All IsHeader hs
      → length hs ≡ share c
      → ((s' : State (Host World))
          → connect_server sys net c s ≡ done true s'
          → posix.incoming s'.client.fd s'.world.world ≡ awaited (mode c 0) (ha ∷ hd ∷ hs) rest)
      → Returns (Worked net (all_taken (mode c 0) hs) s) (worker sys net c message_data s)
  unfolding worker work_if
  worker-Worked c message_data ha hd hs rest s ok some_data small held fa fd fs times served =
      Returns-and_then_known (Connected net s) (Worked net (all_taken (mode c 0) hs) s)
        (connect_server sys net c s) _
        (connect-Connected posix ample net (connect_server sys net c) s
          (connect_server-Opens sys net c))
        (elim [
          | false ↦ λ s' e failed. inl failed
          | true ↦ λ s' e made.
              let off : 0 ≡ s'.client.noack = sym (ap (λ (x : Client). x.noack) made.client) in
              subst
                (λ (n : ℕ).
                  Returns (Worked net (all_taken (mode c n) hs) s)
                    (work_if sys net c message_data true s'))
                (sym off)
                (work_if-Worked c message_data ha hd hs rest s s' ok some_data small held fa fd fs
                  times made
                  (subst
                    (λ (n : ℕ).
                      posix.incoming s'.client.fd s'.world.world
                      ≡ awaited (mode c n) (ha ∷ hd ∷ hs) rest)
                    off (served s' e)))
        ])
