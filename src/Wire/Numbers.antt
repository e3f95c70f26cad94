-- ===== src/Wire/Numbers.antt =====
-- Numbers as bytes, the lowest first: `uint64_t` in the answers to a list request.
use proj_so.Prelude.{
  ℕ, zero, suc, ◌+◌, ◌*◌, ◌/◌, ◌%◌, ◌^◌, ◌<◌, ◌≡◌, refl, ap, List, [], ◌∷◌, arith, length,
}

unfoldable pub le_bytes : ℕ → ℕ → List ℕ
le_bytes zero v = []
le_bytes (suc n) v = (v % 256) ∷ le_bytes n (v / 256)

unfoldable pub from_le : List ℕ → ℕ
from_le [] = 0
from_le (b ∷ bytes) = b + 256 * from_le bytes

pub length-le_bytes : (n v : ℕ) → length (le_bytes n v) ≡ n
unfolding le_bytes
length-le_bytes zero v = refl
length-le_bytes (suc n) v = ap suc (length-le_bytes n (v / 256))

-- The eight bytes of a `uint64_t`.
unfoldable pub u64_bytes : ℕ → List ℕ
unfolding le_bytes
u64_bytes v = le_bytes 8 v

pub from_le-u64_bytes : (v : ℕ) → v < 2 ^ 64 → from_le (u64_bytes v) ≡ v
unfolding u64_bytes le_bytes from_le
from_le-u64_bytes v h = omega arith

pub length-u64_bytes : (v : ℕ) → length (u64_bytes v) ≡ 8
unfolding u64_bytes
length-u64_bytes v = length-le_bytes 8 v
