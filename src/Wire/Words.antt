-- ===== src/Wire/Words.antt =====
-- The bytes of an unsigned integer.
use libemq.Base.{ℕ, zero, suc, ◌/◌, ◌^◌, ◌<◌, ◌≡◌, refl, ap, arith, length}
use native.Mathlib.Nat.{pow-suc}
use libemq.Wire.{encode, decode}

pub length-encode : (k v : ℕ) → length (encode k v) ≡ k
unfolding encode
length-encode zero v = refl
length-encode (suc k) v = ap suc (length-encode k (v / 256))

pub decode-encode : (k v : ℕ) → v < 256 ^ k → decode (encode k v) ≡ v
unfolding encode decode
decode-encode zero v h = omega arith
decode-encode (suc k) v h =
    omega (arith, decode-encode k (v / 256) (omega (arith, pow-suc 256 k)), pow-suc 256 k)
