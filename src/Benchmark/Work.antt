-- ===== src/Benchmark/Work.antt =====
-- `worker` of src/benchmark.c between its connection and `emq_disconnect`, on a connection that
-- works.
use libemq.Base.{
  ℕ, [], ◌∷◌, ◌++◌, List, ◌≡◌, refl, if◌then◌else◌, ◌==◌, some, none, Bool-cases, inl, ◌<◌, inr,
  ◌^◌, ◌+◌, arith, lt→ltb, ◌∙◌, append-nil, append_assoc, ◌≤◌, length, All, ap,
}
use libemq.Benchmark.{
  Config, work, greet, share, queue_name, expire_message, size_of_int, push_loop,
}
use libemq.Benchmark.Answers.{Goes, awaited, Goes-and_then, command-Goes, Later-trans, Goes-map}
use libemq.Benchmark.Pushing.{push_loop-Goes, all_taken, tried, copies, unanswered, pushed_bytes}
use libemq.Message.{
  Message, msg_create, msg_expire, allocate, message_struct_size, struct_block, new_message,
  msg_release,
}
use libemq.Client.{State, Client}
use libemq.Packet.Calls.{body, message_size, Call}
use libemq.Api.{noack_enable}
use libemq.System.{System, Posix, Reliable, Gathers, Ample}
use libemq.Packet.RoundTrip.{IsSendable, request_of}
use libemq.Packet.Buffer.{IsValid}
use libemq.Protocol.{ResponseHeader}
use libemq.Protocol.Headers.{IsHeader}
use libemq.Api.Session.{auth}
use libemq.Api.Commands.{auth_sends, queue_declare_sends}
use libemq.Api.Queue.{queue_declare}

-- The message that it pushes.
abbrev pub benchmark_message : Config → List ℕ → Message
benchmark_message c message_data = record {
  payload = message_data;
  size = c.msg_size;
  tag = 0;
  expire = c.expiration;
  zero_copy = 1;
}

-- The client's flag, after `if (config.noack) emq_noack_enable(client);`.
abbrev pub mode : Config → ℕ → ℕ
mode c n = if c.noack == 0 then n else 1

module _ {World : Type 0} where
  abbrev pub noacked : Config → State World → State World
  noacked c s = record s { client = record (s.client) { noack = mode c s.client.noack } }

  noacked-if :
      (c : Config) (s : State World)
      → (if c.noack == 0 then s else record s { client = noack_enable s.client }) ≡ noacked c s
  unfolding noack_enable
  noacked-if c s = elim (Bool-cases (c.noack == 0)) [ inl on ↦ rw on refl | inr off ↦ rw off refl ]

pub message_call-IsSendable : (n : ℕ) → n < 2 ^ 31 → IsSendable (Call.queue_push queue_name (4 + n))
unfolding body message_size
message_call-IsSendable n small = omega arith

declare_call-IsSendable : IsSendable (Call.queue_declare queue_name)
unfolding body message_size
declare_call-IsSendable = omega arith

module _ {World : Type 0} {sys : System World} {posix : Posix sys} (works : Reliable posix)
    (gathers : Gathers sys) (ample : Ample sys) where
  -- The message, made over the caller's data.
  pub message-Goes :
      (c : Config) (message_data : List ℕ) (rest : List ℕ) (s : State World)
      → IsValid s.client
      → c.msg_size < 2 ^ 31
      → posix.incoming s.client.fd s.world ≡ rest
      → Goes posix
          (some (new_message message_data c.msg_size 1))
          []
          rest
          s
          (msg_create sys message_data (size_of_int c.msg_size) 1 s)
  unfolding msg_create allocate
  message-Goes c message_data rest s valid small e =
      let (block, w, got) = ample.provides message_struct_size s.world in
      let (kept, out) = posix.malloc_streams s.client.fd message_struct_size s.world in
      (
        s.client,
        w,
        rw (got, lt→ltb c.msg_size (2 ^ 31) small) refl,
        (rw got at out) ∙ rw append-nil refl,
        (rw got at kept) ∙ e,
        (valid, refl),
      )

  -- The first three calls, whatever they are answered.
  pub greet-Goes :
      (c : Config) (ha hd : ResponseHeader) (hs : List ResponseHeader) (rest : List ℕ)
      (s : State World)
      → let n = mode c s.client.noack in
        let auth_call = Call.auth c.user_name c.user_password in
        IsValid s.client
        → IsSendable auth_call
        → IsHeader ha
        → IsHeader hd
        → posix.incoming s.client.fd s.world ≡ awaited n (ha ∷ hd ∷ hs) rest
        → Goes posix tt
            (request_of auth_call n ++ request_of (Call.queue_declare queue_name) n)
            (awaited n hs rest)
            (noacked c s)
            (greet sys c s)
  unfolding greet
  greet-Goes c ha hd hs rest s valid ok fa fd e =
      let n = mode c s.client.noack in
      let s1 = noacked c s in
      let declare = Call.queue_declare queue_name in
      rw (noacked-if c s) (
        Goes-and_then posix (request_of (Call.auth c.user_name c.user_password) n)
          (request_of declare n) (awaited n (hd ∷ hs) rest) (awaited n hs rest) s1
          (auth sys c.user_name c.user_password s1) _
          (command-Goes works n ha (hd ∷ hs) rest s1 (auth_sends c.user_name c.user_password) refl
            (record { allocated = valid.allocated; large = valid.large; filled = valid.filled }) ok
            fa e)
          (λ s2 l2 left2.
            Goes-map posix (λ _. tt) (request_of declare n) (awaited n hs rest) s2
              (queue_declare sys queue_name s2)
              (command-Goes works n hd hs rest s2 (queue_declare_sends queue_name)
                (ap (λ (x : Client). x.noack) l2.1) l2.0 declare_call-IsSendable fd left2)))

  -- `worker`, once it is connected, on a connection that works and takes its vectors whole, with an
  -- allocator that does not run out, a name and a password that can be sent, a message that is not
  -- empty and is held by its data, and one answer to each command, unless `config.noack` is set:
  -- whatever the answers to `emq_auth` and `emq_queue_declare` say, it goes on to push the message,
  -- `config.messages / config.clients` times or up to the first push that is refused. It sends
  -- exactly the requests for these, reads exactly their answers, and frees its message's struct if
  -- no push is refused, and nothing if one is.
  pub work-Goes :
      (c : Config) (message_data : List ℕ) (ha hd : ResponseHeader) (hs : List ResponseHeader)
      (rest : List ℕ) (s : State World)
      → let n = mode c s.client.noack in
        let auth_call = Call.auth c.user_name c.user_password in
        let msg = benchmark_message c message_data in
        IsValid s.client
        → IsSendable auth_call
        → 0 < c.msg_size
        → c.msg_size < 2 ^ 31
        → c.msg_size ≤ length message_data
        → IsHeader ha
        → IsHeader hd
        → All IsHeader hs
        → length hs ≡ share c
        → posix.incoming s.client.fd s.world ≡ awaited n (ha ∷ hd ∷ hs) rest
        → Goes posix
            (if all_taken n hs then some (struct_block ∷ []) else none)
            (request_of auth_call n
              ++ (request_of (Call.queue_declare queue_name) n
                  ++ copies (tried n hs) (pushed_bytes n msg)))
            (unanswered n hs rest)
            (noacked c s)
            (work sys c message_data s)
  unfolding work expire_message msg_expire
  work-Goes c message_data ha hd hs rest s valid ok some_data small held fa fd fs times e =
      let n = mode c s.client.noack in
      let msg = benchmark_message c message_data in
      let s1 = noacked c s in
      let authorise = request_of (Call.auth c.user_name c.user_password) n in
      let declare = request_of (Call.queue_declare queue_name) n in
      let pushes = copies (tried n hs) (pushed_bytes n msg) in
      rw (← append_assoc authorise declare pushes, ← times)
        (Goes-and_then posix (authorise ++ declare) pushes (awaited n hs rest)
          (unanswered n hs rest) s1 (greet sys c s) _
          (greet-Goes c ha hd hs rest s valid ok fa fd e)
          (λ s3 l3 left3.
            Goes-and_then posix [] pushes (awaited n hs rest) (unanswered n hs rest) s3
              (msg_create sys message_data (size_of_int c.msg_size) 1 s3) _
              (message-Goes c message_data (awaited n hs rest) s3 l3.0 small left3)
              (λ s4 l4 left4.
                let l14 = Later-trans s1.client s3.client s4.client l3 l4 in
                Goes-map posix (λ pushed. if pushed then some (msg_release msg) else none) pushes
                  (unanswered n hs rest) s4 (push_loop sys (length hs) msg s4)
                  (push_loop-Goes works gathers msg n hs rest s4
                    (ap (λ (x : Client). x.noack) l14.1) l4.0
                    (message_call-IsSendable c.msg_size small) some_data held fs left4))))
