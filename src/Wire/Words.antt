-- ===== src/Wire/Words.antt =====
-- Little-endian numbers of a fixed width, as encoding/binary writes and reads them.
use go_simple_protocol_runti.Common.{
  ℕ, zero, suc, ◌+◌, ◌*◌, ◌/◌, ◌%◌, ◌^◌, ◌<◌, ◌≡◌, refl, ap, List, [], ◌∷◌, length, All, arith,
}
use native.Mathlib.Nat.{pow-suc}

abbrev pub IsByte : ℕ → Type 0
IsByte b = b < 256

-- The lowest `k` bytes of a number, lowest first.
unfoldable pub le_bytes : ℕ → ℕ → List ℕ
le_bytes zero v = []
le_bytes (suc k) v = v % 256 ∷ le_bytes k (v / 256)

unfoldable pub le_value : List ℕ → ℕ
le_value [] = 0
le_value (b ∷ bs) = b + 256 * le_value bs

pub length-le_bytes : (k v : ℕ) → length (le_bytes k v) ≡ k
unfolding le_bytes
length-le_bytes zero v = refl
length-le_bytes (suc k) v = ap suc (length-le_bytes k (v / 256))

pub le_bytes-IsByte : (k v : ℕ) → All IsByte (le_bytes k v)
unfolding le_bytes
le_bytes-IsByte zero v = tt
le_bytes-IsByte (suc k) v = (omega arith, le_bytes-IsByte k (v / 256))

pub le_value-le_bytes : (k v : ℕ) → v < 256 ^ k → le_value (le_bytes k v) ≡ v
unfolding le_bytes le_value
le_value-le_bytes zero v h = omega arith
le_value-le_bytes (suc k) v h = omega (arith, le_value-le_bytes k (v / 256) (omega arith))

low_byte : (b v : ℕ) → b < 256 → (b + 256 * v) % 256 ≡ b
low_byte b v h = omega arith

high_bytes : (b v : ℕ) → b < 256 → (b + 256 * v) / 256 ≡ v
high_bytes b v h = omega arith

-- Every list of bytes is the form of its value, so reading loses nothing.
pub le_bytes-le_value : (bs : List ℕ) → All IsByte bs → le_bytes (length bs) (le_value bs) ≡ bs
unfolding le_bytes le_value
le_bytes-le_value [] h = refl
le_bytes-le_value (b ∷ bs) h =
    rw (low_byte b (le_value bs) h.0, high_bytes b (le_value bs) h.0, le_bytes-le_value bs h.1)

pub le_value_bounds : (bs : List ℕ) → All IsByte bs → le_value bs < 256 ^ length bs
unfolding le_value
le_value_bounds [] h = omega arith
le_value_bounds (b ∷ bs) h = omega (arith, le_value_bounds bs h.1, pow-suc 256 (length bs))
