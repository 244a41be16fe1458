-- ===== src/Wire/Structs.antt =====
-- The bytes of a packed struct: their number, and the round trip.
use libemq.Base.{
  ℕ, ◌≡◌, refl, ap, [], ◌∷◌, ◌++◌, List, arith, length, All, length-append, take-append,
  append_assoc, drop-append, sym,
}
use libemq.Wire.{
  Field, chars, word, Fits, slot, slots, slot_size, size_of, field_bytes, struct_bytes, read_field,
  read_struct,
}
use libemq.Wire.Words.{length-encode, decode-encode}
use libemq.Wire.Texts.{length-fill_chars, read_text-fill_chars}

pub length-field_bytes : (f : Field) → Fits f → length (field_bytes f) ≡ slot_size (slot f)
unfolding field_bytes
length-field_bytes (chars n s) h = length-fill_chars n s (omega arith)
length-field_bytes (word k v) h = length-encode k v

pub length-struct_bytes :
    (fs : List Field) → All Fits fs → length (struct_bytes fs) ≡ size_of (slots fs)
unfolding struct_bytes
length-struct_bytes [] h = refl
length-struct_bytes (f ∷ fs) h = omega (
  arith,
  length-append (field_bytes f) (struct_bytes fs),
  length-field_bytes f h.0,
  length-struct_bytes fs h.1,
)

read_field-field_bytes : (f : Field) → Fits f → read_field (slot f) (field_bytes f) ≡ f
unfolding read_field field_bytes
read_field-field_bytes (chars n s) h = ap (chars n) (read_text-fill_chars n s h.0)
read_field-field_bytes (word k v) h = ap (word k) (decode-encode k v h)

-- A struct is read back as it was written, whatever follows it.
pub read_struct-struct_bytes :
    (fs : List Field) (rest : List ℕ)
    → All Fits fs
    → read_struct (slots fs) (struct_bytes fs ++ rest) ≡ fs
unfolding read_struct struct_bytes
read_struct-struct_bytes [] rest h = refl
read_struct-struct_bytes (f ∷ fs) rest h =
    let size = sym (length-field_bytes f h.0) in
    rw (
      append_assoc,
      take-append _ (field_bytes f) _ size,
      drop-append _ (field_bytes f) _ size,
      read_field-field_bytes f h.0,
      read_struct-struct_bytes fs rest h.1,
    )
