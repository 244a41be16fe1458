-- ===== src/Benchmark/Contents.antt =====
-- The message of src/benchmark.c: `init_message` and `generate_string`.
use libemq.Base.{
  ℕ, zero, suc, List, [], ◌∷◌, ◌++◌, ◌≡◌, ◌<◌, ◌≤◌, ◌+◌, ◌^◌, ◌⊎◌, inl, inr, arith, refl, length,
  All, some, lt-or-le, lt→ltb, le→ltb_false, Option, ◌%◌, length-append,
}
use libemq.Benchmark.{Config, init_message, random_char, random_text, generate_string}
use libemq.Client.{State, Run, done}
use libemq.System.{System, Ample}
use libemq.Message.{allocate}

-- A letter or a digit.
abbrev pub IsAlnum : ℕ → Type 0
IsAlnum c = ((b'a' ≤ c) × (c ≤ b'z')) ⊎ (((b'A' ≤ c) × (c ≤ b'Z')) ⊎ ((b'0' ≤ c) × (c ≤ b'9')))

random_char-IsAlnum : (r : ℕ) → IsAlnum (random_char r)
unfolding random_char
random_char-IsAlnum r = elim (lt-or-le (r % 62) 26) [
  | inl lower ↦ rw (lt→ltb (r % 62) 26 lower) (inl (omega arith))
  | inr rest ↦ elim (lt-or-le (r % 62) 52) [
    | inl upper ↦
        rw (le→ltb_false (r % 62) 26 rest, lt→ltb (r % 62) 52 upper) (inr (inl (omega arith)))
    | inr digit ↦
        rw (le→ltb_false (r % 62) 26 rest, le→ltb_false (r % 62) 52 digit) (inr (inr (omega arith)))
  ]
]

random_text-IsAlnum : (rand : ℕ → ℕ) (i len : ℕ) → All IsAlnum (random_text rand i len)
unfolding random_text
random_text-IsAlnum rand i zero = tt
random_text-IsAlnum rand i (suc len) =
    (random_char-IsAlnum (rand i), random_text-IsAlnum rand (suc i) len)

length-random_text : (rand : ℕ → ℕ) (i len : ℕ) → length (random_text rand i len) ≡ len
unfolding random_text
length-random_text rand i zero = refl
length-random_text rand i (suc len) = omega (arith, length-random_text rand (suc i) len)

module _ {World : Type 0} (sys : System World) where
  -- The message's data are such a text and a NUL, in a block of just their length.
  abbrev pub Fills : ℕ → State World → Run World (Option (List ℕ)) → Type 0
  Fills n s r =
      (text : List ℕ) × (block : List ℕ) × (w : World) × (length text ≡ n)
      × All IsAlnum text
      × (sys.malloc (length (text ++ 0 ∷ [])) s.world ≡ (some block, w))
      × (r ≡ done (some (text ++ 0 ∷ [])) (record { client = s.client; world = w }))

module _ {World : Type 0} {sys : System World} (ample : Ample sys) where
  -- `init_message`, for a size of a message that is not negative and of which the next number is an
  -- `int` too, and an allocator that does not run out, whatever `rand` gives: it makes a block that
  -- the text and its NUL fill exactly, with so many letters and digits as the size says.
  pub init_message-Fills :
      (rand : ℕ → ℕ) (c : Config) (s : State World)
      → c.msg_size + 1 < 2 ^ 31
      → Fills sys c.msg_size s (init_message sys rand c s)
  unfolding init_message generate_string allocate
  init_message-Fills rand c s small =
      let text = random_text rand 0 c.msg_size in
      let len = length-random_text rand 0 c.msg_size in
      let whole : length (text ++ 0 ∷ []) ≡ c.msg_size + 1 =
        omega (arith, length-append text (0 ∷ []), len) in
      let (block, w, e) = ample.provides (c.msg_size + 1) s.world in
      let fits : (c.msg_size + 1) % 2 ^ 32 ≡ c.msg_size + 1 = omega arith in
      (
        text,
        block,
        w,
        len,
        random_text-IsAlnum rand 0 c.msg_size,
        rw whole e,
        rw
            (
              fits,
              lt→ltb (c.msg_size + 1) (2 ^ 31) small,
              e,
              lt→ltb c.msg_size (2 ^ 31) (omega arith),
            )
            refl,
      )
