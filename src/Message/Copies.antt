-- ===== src/Message/Copies.antt =====
-- `emq_msg_copy` and `emq_msg_release` of src/emq.c.
use libemq.Base.{
  refl, ℕ, List, none, some, [], ◌∷◌, ◌≡◌, ◌≤◌, ◌∙◌, ◌==◌, length, take, if◌then◌else◌, arith,
  le→ltb_false, zero, suc, true, false, Bool, length-take, Option, inl, inr, Bool-cases, ap, ◌↔◌,
}
use libemq.System.{System, Posix, Ample}
use libemq.Client.{State, Prog, pure, done, ◌>>=◌}
use libemq.Message.{
  Message, data_block, struct_block, new_message, copy_data, msg_create, msg_copy, msg_release,
  message_struct_size, copy_block,
}
use libemq.Message.Blocks.{Allocates, allocate-provides}

-- The copy, where `zero_copy` is what the new block held there.
abbrev pub copy_of : ℕ → Message → Message
copy_of left msg = record msg { payload = take msg.size msg.payload; zero_copy = left }

abbrev pub or_none :
    {World : Type 0}
    → (Message → Prog World (Option Message))
    → Option Message
    → Prog World (Option Message)
or_none k none = pure none
or_none k (some msg) = k msg

take-take : (n : ℕ) (xs : List ℕ) → take n (take n xs) ≡ take n xs
take-take zero xs = refl
take-take (suc n) [] = refl
take-take (suc n) (x ∷ xs) = ap (λ (ys : List ℕ). x ∷ ys) (take-take n xs)

-- The message has data enough, and the same first ones, with a block of its own or without.
created_enough :
    (n : ℕ) (xs : List ℕ) (own : Bool) → n ≤ length xs → n ≤ length (if own then take n xs else xs)
created_enough n xs true h = omega (arith, length-take n xs h)
created_enough n xs false h = h

created_same :
    (n : ℕ) (xs : List ℕ) (own : Bool) → take n (if own then take n xs else xs) ≡ take n xs
created_same n xs true = take-take n xs
created_same n xs false = refl

frees_data :
    (left : ℕ)
    → ((if left == 0 then data_block ∷ struct_block ∷ [] else struct_block ∷ [])
        ≡ data_block ∷ struct_block ∷ [])
      ↔ (left ≡ 0)
frees_data left = (λ e. ground arith, λ e. rw e refl)

module _ {World : Type 0} (sys : System World) where
  -- `emq_msg_create` and then `emq_msg_copy`, where `left` is what the new block holds at `zero_copy`.
  abbrev pub create_and_copy : List ℕ → (size zero_copy left : ℕ) → Prog World (Option Message)
  create_and_copy payload size zero_copy left =
      msg_create sys payload size zero_copy >>= or_none (msg_copy sys left)

module _ {World : Type 0} {sys : System World} (posix : Posix sys) (ample : Ample sys) where
  msg_copy-Allocates :
      (left : ℕ) (msg : Message) (s : State World)
      → msg.size ≤ length msg.payload
      → Allocates posix (some (copy_of left msg)) (msg_copy sys left msg) s
  unfolding msg_copy copy_block
  msg_copy-Allocates left msg s holds =
      let (b, w, r, out, kept) = allocate-provides posix ample message_struct_size s in
      let (b', w', r', out', kept') =
        allocate-provides posix ample msg.size (record { client = s.client; world = w }) in
      (
        w',
        rw (r, r', le→ltb_false (length msg.payload) msg.size holds) refl,
        out' ∙ out,
        kept' ∙ kept,
      )

  msg_create-Allocates :
      (payload : List ℕ) (size zero_copy : ℕ) (s : State World)
      → size ≤ length payload
      → Allocates posix
          (some
            (new_message (if zero_copy == 0 then take size payload else payload) size zero_copy))
          (msg_create sys payload size zero_copy)
          s
  unfolding msg_create copy_data
  msg_create-Allocates payload size zero_copy s holds =
      let (b, w, r, out, kept) = allocate-provides posix ample message_struct_size s in
      elim (Bool-cases (zero_copy == 0)) [
        | inl e ↦
            let (b', w', r', out', kept') =
              allocate-provides posix ample size (record { client = s.client; world = w }) in
            (
              w',
              rw (r, e, r', le→ltb_false (length payload) size holds) refl,
              out' ∙ out,
              kept' ∙ kept,
            )
        | inr e ↦ (w, rw (r, e) refl, out, kept)
      ]

  -- With an allocator that does not run out and data of the size that is given, a copy by
  -- `emq_msg_copy` of a message that `emq_msg_create` has made has these data and no tag and no time
  -- of expiry, whether the message has a block of its own for them or not. To release the copy frees
  -- its data and its struct if and only if the new block held 0 at `zero_copy`.
  pub create-copy :
      (payload : List ℕ) (size zero_copy left : ℕ) (s : State World)
      → size ≤ length payload
      → let copy = new_message (take size payload) size left in
        Allocates posix (some copy) (create_and_copy sys payload size zero_copy left) s
        × ((msg_release copy ≡ data_block ∷ struct_block ∷ []) ↔ (left ≡ 0))
  create-copy payload size zero_copy left s holds =
      let data_ = if zero_copy == 0 then take size payload else payload in
      let enough : size ≤ length data_ = created_enough size payload (zero_copy == 0) holds in
      let same : take size data_ ≡ take size payload = created_same size payload (zero_copy == 0) in
      let (w, r, out, kept) = msg_create-Allocates payload size zero_copy s holds in
      let (w', r', out', kept') =
        msg_copy-Allocates left (new_message data_ size zero_copy)
          (record { client = s.client; world = w }) enough in
      (
        (
          w',
          rw r (
              r'
              ∙ ap
                  (λ (p : List ℕ).
                    done (some (new_message p size left))
                      (record { client = s.client; world = w' }))
                  same),
          out' ∙ out,
          kept' ∙ kept,
        ),
        frees_data left,
      )
