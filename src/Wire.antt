-- ===== src/Wire.antt =====
-- The bytes of the packed structs of src/protocol.h: a struct is a list of fields, written in the
-- host's byte order, which is little-endian here. The children are about
-- writing and reading them.
pub mod Words
pub mod Texts
pub mod Structs
use libemq.Base.{
  ℕ, zero, suc, ◌+◌, ◌-◌, ◌*◌, ◌/◌, ◌%◌, ◌^◌, ◌<◌, ◌≢◌, Option, none, some, Bool, true, false, List,
  [], ◌∷◌, ◌++◌, ltb, ◌==◌, if◌then◌else◌, length, take, drop, replicate, All,
}

-- An unsigned integer of `k` bytes, lowest byte first.
unfoldable pub encode : ℕ → ℕ → List ℕ
encode zero v = []
encode (suc k) v = v % 256 ∷ encode k (v / 256)

unfoldable pub decode : List ℕ → ℕ
decode [] = 0
decode (b ∷ bs) = b + 256 * decode bs

-- A C string as the codes before its NUL; `strlenz` counts the NUL.
abbrev pub Text : Type 0
Text = List ℕ

abbrev pub strlenz : Text → ℕ
strlenz s = length s + 1

-- What `strcpy` and `strcmp` can see of a text: no byte of it is NUL.
abbrev IsChar : ℕ → Type 0
IsChar c = (0 < c) × (c < 256)

abbrev pub IsText : Text → Type 0
IsText = All IsChar

-- `memset(buf, 0, n); memcpy(buf, s, strlenz(s))` for a `char buf[n]` that is long enough.
unfoldable pub fill_chars : ℕ → Text → List ℕ
fill_chars n s = s ++ replicate (n - length s) 0

-- The text that starts at a buffer, up to the first NUL.
unfoldable pub read_text : List ℕ → Text
read_text [] = []
read_text (b ∷ bs) = let rest = read_text bs in if b == 0 then [] else b ∷ rest

-- A member of a packed struct, with its value: `char a[n]`, or an unsigned integer of `k` bytes.
pub data Field : Type 0 where
  chars : ℕ → Text → Field
  word : ℕ → ℕ → Field

-- Its declaration alone.
pub data Slot : Type 0 where
  chars_slot : ℕ → Slot
  word_slot : ℕ → Slot

abbrev pub slot_size : Slot → ℕ
slot_size (chars_slot n) = n
slot_size (word_slot k) = k

abbrev pub slot : Field → Slot
slot (chars n s) = chars_slot n
slot (word k v) = word_slot k

unfoldable pub field_bytes : Field → List ℕ
unfolding encode fill_chars
field_bytes (chars n s) = fill_chars n s
field_bytes (word k v) = encode k v

-- `sizeof` of a packed struct with these members.
abbrev pub size_of : List Slot → ℕ
size_of [] = 0
size_of (d ∷ ds) = slot_size d + size_of ds

abbrev pub slots : List Field → List Slot
slots [] = []
slots (f ∷ fs) = slot f ∷ slots fs

unfoldable pub struct_bytes : List Field → List ℕ
unfolding field_bytes
struct_bytes [] = []
struct_bytes (f ∷ fs) = field_bytes f ++ struct_bytes fs

-- A value that its member can hold: a text with room for its NUL, a number below the width.
abbrev pub Fits : Field → Type 0
Fits (chars n s) = IsText s × (strlenz s < n + 1)
Fits (word k v) = v < 256 ^ k

-- Reading a member, and a struct, back: the receiver's view.
unfoldable pub read_field : Slot → List ℕ → Field
unfolding decode read_text
read_field (chars_slot n) bs = chars n (read_text bs)
read_field (word_slot k) bs = word k (decode bs)

unfoldable pub read_struct : List Slot → List ℕ → List Field
unfolding read_field
read_struct [] bs = []
read_struct (d ∷ ds) bs =
    read_field d (take (slot_size d) bs) ∷ read_struct ds (drop (slot_size d) bs)
