-- ===== src/Fs/Memory.antt =====
-- The bytes of a data block, and what the C code reads and writes in one: byte ranges (memcpy,
-- memset, strncpy), the `int` of a directory entry, and names (strcmp, strncmp). A name is the list
-- of its bytes before the terminating zero.
pub mod Laws
use proj_so.Prelude.{
  ℕ, zero, suc, ◌+◌, ◌-◌, ◌*◌, ◌/◌, ◌%◌, ◌^◌, Bool, true, false, ◌&&◌, List, [], ◌∷◌, ◌++◌, ltb,
  leb, ◌==◌, if◌then◌else◌, length, get_or, take, replicate, ℤ, of_int, to_int,
}

-- The contents of a block, from its first byte on.
abbrev pub Bytes : Type 0
Bytes = ℕ → ℕ

-- `memcpy(m + at, bytes, length)`
pub write_bytes : Bytes → ℕ → List ℕ → Bytes
write_bytes m at bytes a =
    if leb at a && ltb a (at + length bytes) then get_or bytes (a - at) 0 else m a

-- `memcpy(buffer, m + at, n)`
unfoldable pub read_bytes : Bytes → ℕ → ℕ → List ℕ
read_bytes m at zero = []
read_bytes m at (suc n) = m at ∷ read_bytes m (at + 1) n

-- Four bytes, the lowest first.
abbrev pub word_bytes : ℕ → List ℕ
word_bytes w = (w % 256) ∷ (w / 256 % 256) ∷ (w / 65536 % 256) ∷ (w / 16777216 % 256) ∷ []

pub store_int : Bytes → ℕ → ℤ → Bytes
store_int m at x = write_bytes m at (word_bytes (of_int x))

pub load_int : Bytes → ℕ → ℤ
load_int m at = to_int (m at + 256 * m (at + 1) + 65536 * m (at + 2) + 16777216 * m (at + 3))

-- `strcmp(m + at, s) == 0`
pub strcmp_eq : Bytes → ℕ → List ℕ → Bool
strcmp_eq m at [] = m at == 0
strcmp_eq m at (c ∷ s) = m at == c && strcmp_eq m (at + 1) s

-- `strncmp(m + at, s, n) == 0`
pub strncmp_eq : Bytes → ℕ → List ℕ → ℕ → Bool
strncmp_eq m at s zero = true
strncmp_eq m at [] (suc n) = m at == 0
strncmp_eq m at (c ∷ s) (suc n) = m at == c && strncmp_eq m (at + 1) s n

-- What `strncpy(dest, s, n)` writes: at most `n` bytes of the name, and zeros up to `n`.
abbrev pub strncpy_bytes : List ℕ → ℕ → List ℕ
strncpy_bytes s n = take n (s ++ replicate n 0)
