-- ===== src/Prelude/Ints.antt =====
-- C integers: `int` as a signed number, and the arithmetic of `size_t`, which wraps at 2 ^ 64.
use Prim.Native.Nat.{ℕ, zero, suc, ◌+◌, ◌-◌, ◌%◌, ◌^◌, ◌<◌}
use mathlib.Core.Path.{◌≡◌, refl}
use mathlib.Core.Bool.{Bool, true, false}
use native.Mathlib.Omega.{arith}
use proj_so.Prelude.Tests.{ltb, ◌==◌, if◌then◌else◌}

-- `negsuc n` is -(n + 1).
pub data ℤ : Type 0 where
  pos : ℕ → ℤ
  negsuc : ℕ → ℤ

abbrev pub minus_one : ℤ
minus_one = negsuc 0

-- `x == -1`
abbrev pub is_minus_one : ℤ → Bool
is_minus_one (pos n) = false
is_minus_one (negsuc n) = elim n [ zero ↦ true | suc k ↦ false ]

-- `x >= 0`
abbrev pub is_nonneg : ℤ → Bool
is_nonneg (pos n) = true
is_nonneg (negsuc n) = false

-- The index that a nonnegative `int` is.
abbrev pub index : ℤ → ℕ
index (pos n) = n
index (negsuc n) = 0

-- The bit pattern of an `int`, and the `int` that a bit pattern stands for.
unfoldable pub of_int : ℤ → ℕ
of_int (pos n) = n % 2 ^ 32
of_int (negsuc n) = 2 ^ 32 - 1 - n % 2 ^ 32

-- `(int) n`
unfoldable pub to_int : ℕ → ℤ
to_int n = if ltb (n % 2 ^ 32) (2 ^ 31) then pos (n % 2 ^ 32) else negsuc (2 ^ 32 - 1 - n % 2 ^ 32)

pub to_int-pos : (n : ℕ) → n < 2 ^ 31 → to_int n ≡ pos n
unfolding to_int
to_int-pos n h = ground arith

abbrev pub InRange : ℤ → Type 0
InRange (pos n) = n < 2 ^ 31
InRange (negsuc n) = n < 2 ^ 31

pub to_int-of_int : (x : ℤ) → InRange x → to_int (of_int x) ≡ x
unfolding to_int of_int
to_int-of_int (pos n) h = ground arith
to_int-of_int (negsuc n) h = ground arith

pub of_int-lt : (x : ℤ) → of_int x < 2 ^ 32
unfolding of_int
of_int-lt (pos n) = omega arith
of_int-lt (negsuc n) = omega arith

-- `a + b` and `a - b` of `size_t`
abbrev pub add_size : ℕ → ℕ → ℕ
add_size a b = (a + b) % 2 ^ 64

abbrev pub sub_size : ℕ → ℕ → ℕ
sub_size a b = (a + 2 ^ 64 - b % 2 ^ 64) % 2 ^ 64

-- `(ssize_t) n`
unfoldable pub to_ssize : ℕ → ℤ
to_ssize n =
    if ltb (n % 2 ^ 64) (2 ^ 63) then pos (n % 2 ^ 64) else negsuc (2 ^ 64 - 1 - n % 2 ^ 64)

pub to_ssize-pos : (n : ℕ) → n < 2 ^ 63 → to_ssize n ≡ pos n
unfolding to_ssize
to_ssize-pos n h = ground arith

-- `x == 0`
abbrev pub is_zero : ℤ → Bool
is_zero (pos n) = elim n [ zero ↦ true | suc k ↦ false ]
is_zero (negsuc n) = false

-- The bit pattern of an `int` tells whether it is zero.
pub is_zero-of_int : (x : ℤ) → InRange x → (of_int x == 0) ≡ is_zero x
unfolding of_int
is_zero-of_int (pos zero) h = refl
is_zero-of_int (pos (suc n)) h = ground arith
is_zero-of_int (negsuc n) h = ground arith
