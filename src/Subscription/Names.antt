-- ===== src/Subscription/Names.antt =====
-- `strcmp` over the name buffers of src/emq.c, and the texts that they hold.
use libemq.Base.{
  if◌then◌else◌, refl, ℕ, true, false, none, some, [], ◌∷◌, List, All, length, Option, ◌≡◌, Bool,
  ◌<◌, ◌≤◌, arith, ◌==◌, ◌&&◌, Bool-cases, inl, ◌+◌, inr, ap,
}
use libemq.Wire.{read_text, Text, IsText, strlenz, fill_chars}
use libemq.Subscription.{strcmp_eq, find_named, delete_named, text_bytes, keep_unless}
use libemq.Wire.Texts.{read_text-fill_chars, length-fill_chars}

-- Equality of texts.
abbrev pub same : Text → Text → Bool
same [] [] = true
same [] (b ∷ t) = false
same (a ∷ s) [] = false
same (a ∷ s) (b ∷ t) = (a == b) && same s t

-- There is a NUL in the buffer.
abbrev pub Terminated : List ℕ → Type 0
Terminated buf = length (read_text buf) < length buf

pub strcmp_eq-same :
    (xs ys : List ℕ)
    → Terminated xs
    → Terminated ys
    → strcmp_eq xs ys ≡ some (same (read_text xs) (read_text ys))
unfolding strcmp_eq read_text
strcmp_eq-same [] ys h k = absurd (omega arith)
strcmp_eq-same (a ∷ xs) [] h k = absurd (omega arith)
strcmp_eq-same (a ∷ xs) (b ∷ ys) h k = ground (arith, strcmp_eq-same xs ys)

-- A name in its array against a buffer that may have no NUL, such as one from the network.
strcmp_eq-same_raw :
    (xs ys : List ℕ)
    → Terminated xs
    → length (read_text xs) < length ys
    → strcmp_eq xs ys ≡ some (same (read_text xs) (read_text ys))
unfolding strcmp_eq read_text
strcmp_eq-same_raw [] ys h k = absurd (omega arith)
strcmp_eq-same_raw (a ∷ xs) [] h k = absurd (omega arith)
strcmp_eq-same_raw (a ∷ xs) (b ∷ ys) h k = ground (arith, strcmp_eq-same_raw xs ys)

pub text_bytes-Terminated : (s : Text) → IsText s → Terminated (text_bytes s)
unfolding read_text
text_bytes-Terminated [] h = omega arith
text_bytes-Terminated (c ∷ s) h = ground (arith, text_bytes-Terminated s h.1)

pub read_text-text_bytes : (s : Text) → IsText s → read_text (text_bytes s) ≡ s
unfolding read_text
read_text-text_bytes [] h = refl
read_text-text_bytes (c ∷ s) h = ground (arith, read_text-text_bytes s h.1)

module _ {A : Type 0} (name_of : A → List ℕ) where
  -- Every name has its NUL.
  abbrev pub Named : List A → Type 0
  Named xs = All (λ x. Terminated (name_of x)) xs

  -- The subscriptions with another name, in their order.
  abbrev pub others : Text → List A → List A
  others t [] = []
  others t (x ∷ xs) = if same (read_text (name_of x)) t then others t xs else x ∷ others t xs

  pub others-Named : (t : Text) (xs : List A) → Named xs → Named (others t xs)
  others-Named t [] h = tt
  others-Named t (x ∷ xs) (h, hs) = elim (Bool-cases (same (read_text (name_of x)) t)) [
    | inl e ↦ rw e (others-Named t xs hs)
    | inr e ↦ rw e (h, others-Named t xs hs)
  ]

  abbrev pub first_named : Text → List A → Option A
  first_named t [] = none
  first_named t (x ∷ xs) = if same (read_text (name_of x)) t then some x else first_named t xs

  -- With a NUL in the name of every subscription and a C string as the name to remove, the removal
  -- loop of the unsubscribe functions never reads past a name, removes every subscription with the
  -- name, and keeps all the others in their order.
  pub delete_named-others :
      (t : Text) (xs : List A)
      → IsText t
      → Named xs
      → delete_named name_of (text_bytes t) xs ≡ some (others t xs)
  unfolding delete_named keep_unless
  delete_named-others t [] h n = refl
  delete_named-others t (x ∷ xs) h (n, ns) = ground (
    arith,
    strcmp_eq-same (name_of x) (text_bytes t) n (text_bytes-Terminated t h),
    read_text-text_bytes t h,
    delete_named-others t xs h ns,
  )

  -- The search for the subscription of an event never reads past a name, nor past the 64 bytes
  -- that were received, and finds the first subscription with that name.
  pub find_named-first_named :
      (buf : List ℕ) (xs : List A)
      → All (λ x. Terminated (name_of x) × (length (name_of x) ≤ length buf)) xs
      → find_named name_of buf xs ≡ some (first_named (read_text buf) xs)
  unfolding find_named
  find_named-first_named buf [] n = refl
  find_named-first_named buf (x ∷ xs) ((n, l), ns) =
      ground (
        arith,
        strcmp_eq-same_raw (name_of x) buf n (omega arith),
        find_named-first_named buf xs ns,
      )

-- A name that fits its array has its NUL there.
pub fill_chars-Terminated :
    (n : ℕ) (s : Text) → IsText s → strlenz s < n + 1 → Terminated (fill_chars n s)
fill_chars-Terminated n s h l =
    omega (arith, ap length (read_text-fill_chars n s h), length-fill_chars n s (omega arith))
