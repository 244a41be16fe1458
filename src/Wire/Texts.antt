-- ===== src/Wire/Texts.antt =====
-- A text in a `char` array.
use libemq.Base.{
  ℕ, zero, suc, ◌-◌, ◌≤◌, ◌≡◌, refl, [], ◌∷◌, ◌++◌, arith, length, replicate, length-append,
  length-replicate,
}
use libemq.Wire.{Text, IsText, fill_chars, read_text}

pub length-fill_chars : (n : ℕ) (s : Text) → length s ≤ n → length (fill_chars n s) ≡ n
unfolding fill_chars
length-fill_chars n s h =
    omega (
      arith,
      length-append s (replicate (n - length s) 0),
      length-replicate {A = ℕ} (n - length s) 0,
    )

read_text-zeros : (n : ℕ) → read_text (replicate n 0) ≡ []
unfolding read_text
read_text-zeros zero = refl
read_text-zeros (suc n) = refl

read_text-padded : (n : ℕ) (s : Text) → IsText s → read_text (s ++ replicate n 0) ≡ s
unfolding read_text
read_text-padded n [] h = read_text-zeros n
read_text-padded n (c ∷ s) h = ground (arith, read_text-padded n s h.1)

pub read_text-fill_chars : (n : ℕ) (s : Text) → IsText s → read_text (fill_chars n s) ≡ s
unfolding fill_chars
read_text-fill_chars n s h = read_text-padded (n - length s) s h
