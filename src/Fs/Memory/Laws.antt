-- ===== src/Fs/Memory/Laws.antt =====
-- What is read back after a write to a block, at the written place and beside it.
use proj_so.Prelude.{
  take, drop, ℕ, zero, suc, ◌+◌, ◌-◌, ◌*◌, ◌/◌, ◌%◌, ◌^◌, ◌≤◌, ◌<◌, ◌≡◌, refl, sym, ap, ap₂, ◌∙◌,
  ◌⊎◌, inl, inr, true, false, List, [], ◌∷◌, ◌++◌, arith, length, get_or, replicate, length-append,
  length-take, length-replicate, get_or-take, get_or-pad, ℤ, InRange, of_int, to_int, to_int-of_int,
  of_int-lt,
}
use proj_so.Fs.Memory.{
  Bytes, write_bytes, read_bytes, word_bytes, store_int, load_int, strcmp_eq, strncmp_eq,
  strncpy_bytes,
}

-- Two memories hold the same bytes from `at` on, for `n` bytes.
abbrev pub SameFrom : Bytes → Bytes → ℕ → ℕ → Type 0
SameFrom m m' at n = (a : ℕ) → at ≤ a → a < at + n → m a ≡ m' a

pub write_bytes_in :
    (m : Bytes) (at : ℕ) (bytes : List ℕ) (k : ℕ)
    → k < length bytes
    → write_bytes m at bytes (at + k) ≡ get_or bytes k 0
unfolding write_bytes
write_bytes_in m at bytes k h =
    let e : at + k - at ≡ k = omega arith in rw (← ap (λ j. get_or bytes j 0) e) (ground arith)

pub write_bytes_out :
    (m : Bytes) (at : ℕ) (bytes : List ℕ) (a : ℕ)
    → (a < at) ⊎ (at + length bytes ≤ a)
    → write_bytes m at bytes a ≡ m a
unfolding write_bytes
write_bytes_out m at bytes a h = ground arith

-- A range that lies beside the written one keeps its bytes.
pub write_bytes-SameFrom :
    (m : Bytes) (at : ℕ) (bytes : List ℕ) (from n : ℕ)
    → (from + n ≤ at) ⊎ (at + length bytes ≤ from)
    → SameFrom (write_bytes m at bytes) m from n
write_bytes-SameFrom m at bytes from n (inl h) a p q =
    write_bytes_out m at bytes a (inl (omega arith))
write_bytes-SameFrom m at bytes from n (inr h) a p q =
    write_bytes_out m at bytes a (inr (omega arith))

pub read_bytes-SameFrom :
    (m m' : Bytes) (at n : ℕ) → SameFrom m m' at n → read_bytes m at n ≡ read_bytes m' at n
unfolding read_bytes
read_bytes-SameFrom m m' at zero h = refl
read_bytes-SameFrom m m' at (suc n) h =
    ap₂ ◌∷◌ (h at (omega arith) (omega arith))
      (read_bytes-SameFrom m m' (at + 1) n (λ a p q. h a (omega arith) (omega arith)))

pub load_int-SameFrom :
    (m m' : Bytes) (at : ℕ) → SameFrom m m' at 4 → load_int m at ≡ load_int m' at
unfolding load_int
load_int-SameFrom m m' at h = rw (
  h at (omega arith) (omega arith),
  h (at + 1) (omega arith) (omega arith),
  h (at + 2) (omega arith) (omega arith),
  h (at + 3) (omega arith) (omega arith),
)

word_bytes-sum :
    (w : ℕ)
    → w < 2 ^ 32
    → w % 256 + 256 * (w / 256 % 256) + 65536 * (w / 65536 % 256) + 16777216 * (w / 16777216 % 256)
      ≡ w
word_bytes-sum w h = omega arith

write_bytes_head : (m : Bytes) (at c : ℕ) (s : List ℕ) → write_bytes m at (c ∷ s) at ≡ c
unfolding write_bytes
write_bytes_head m at c s = let e : at - at ≡ 0 = omega arith in rw e (ground arith)

-- An `int` that is stored is loaded again.
pub load_int-store_int :
    (m : Bytes) (at : ℕ) (x : ℤ) → InRange x → load_int (store_int m at x) at ≡ x
unfolding load_int store_int
load_int-store_int m at x r =
    rw
      (
        write_bytes_head m at (of_int x % 256),
        write_bytes_in m at (word_bytes (of_int x)) 1 (omega arith),
        write_bytes_in m at (word_bytes (of_int x)) 2 (omega arith),
        write_bytes_in m at (word_bytes (of_int x)) 3 (omega arith),
      )
      (ap to_int (word_bytes-sum (of_int x) (of_int-lt x)) ∙ to_int-of_int x r)

pub store_int-SameFrom :
    (m : Bytes) (at : ℕ) (x : ℤ) (from n : ℕ)
    → (from + n ≤ at) ⊎ (at + 4 ≤ from)
    → SameFrom (store_int m at x) m from n
unfolding store_int
store_int-SameFrom m at x from n h = write_bytes-SameFrom m at (word_bytes (of_int x)) from n h

pub strcmp_eq-SameFrom :
    (m m' : Bytes) (at : ℕ) (s : List ℕ)
    → SameFrom m m' at (length s + 1)
    → strcmp_eq m at s ≡ strcmp_eq m' at s
unfolding strcmp_eq
strcmp_eq-SameFrom m m' at [] h = rw (h at (omega arith) (omega arith))
strcmp_eq-SameFrom m m' at (c ∷ s) h = rw (
  h at (omega arith) (omega arith),
  strcmp_eq-SameFrom m m' (at + 1) s (λ a p q. h a (omega arith) (omega arith)),
)

-- On a name that is shorter than the bound the two comparisons agree.
pub strncmp_eq-strcmp_eq :
    (m : Bytes) (at : ℕ) (s : List ℕ) (n : ℕ)
    → length s < n
    → strncmp_eq m at s n ≡ strcmp_eq m at s
unfolding strcmp_eq strncmp_eq
strncmp_eq-strcmp_eq m at [] zero h = absurd (omega arith)
strncmp_eq-strcmp_eq m at [] (suc n) h = refl
strncmp_eq-strcmp_eq m at (c ∷ s) zero h = absurd (omega arith)
strncmp_eq-strcmp_eq m at (c ∷ s) (suc n) h = rw (strncmp_eq-strcmp_eq m (at + 1) s n (omega arith))

-- No byte of a name is zero.
abbrev pub IsName : List ℕ → Type 0
IsName [] = Unit
IsName (c ∷ s) = (0 < c) × IsName s

-- A place in memory holds one name.
pub strcmp_eq_unique :
    (m : Bytes) (at : ℕ) (s t : List ℕ)
    → IsName s
    → IsName t
    → strcmp_eq m at s ≡ true
    → strcmp_eq m at t ≡ true
    → s ≡ t
unfolding strcmp_eq
strcmp_eq_unique m at [] [] hs ht p q = refl
strcmp_eq_unique m at [] (c ∷ t) hs ht p q = ground arith
strcmp_eq_unique m at (c ∷ s) [] hs ht p q = ground arith
strcmp_eq_unique m at (c ∷ s) (d ∷ t) hs ht p q =
    ground (arith, strcmp_eq_unique m (at + 1) s t hs.1 ht.1)

-- What holds byte by byte holds of the comparison.
pub strcmp_eq_of_bytes :
    (m : Bytes) (at : ℕ) (s : List ℕ)
    → ((k : ℕ) → k ≤ length s → m (at + k) ≡ get_or s k 0)
    → strcmp_eq m at s ≡ true
unfolding strcmp_eq
strcmp_eq_of_bytes m at [] h =
    let e : m at ≡ 0 = ap m (omega arith) ∙ h 0 (omega arith) in rw e refl
strcmp_eq_of_bytes m at (c ∷ s) h =
    let e : m at ≡ c = ap m (omega arith) ∙ h 0 (omega arith) in
    ground (
      arith,
      e,
      strcmp_eq_of_bytes m (at + 1) s (λ k p. ap m (omega arith) ∙ h (suc k) (omega arith)),
    )

-- The bytes that `strncpy` writes, with the terminator at `n`, are the name padded by zeros.
pub get_or-strncpy_bytes :
    (s : List ℕ) (n k : ℕ) → k < n → get_or (strncpy_bytes s n) k 0 ≡ get_or s k 0
get_or-strncpy_bytes s n k h = get_or-take n k (s ++ replicate n 0) 0 h ∙ get_or-pad s n k 0

pub length-strncpy_bytes : (s : List ℕ) (n : ℕ) → length (strncpy_bytes s n) ≡ n
length-strncpy_bytes s n = omega (
  arith,
  length-take n (s ++ replicate n 0),
  length-append s (replicate n 0),
  length-replicate {A = ℕ} n 0,
)

-- Where the bytes begin with a zero, no name but the empty one stands.
pub strcmp_eq_of_zero :
    (m : Bytes) (at : ℕ) (s : List ℕ)
    → m at ≡ 0
    → IsName s
    → 0 < length s
    → strcmp_eq m at s ≡ false
unfolding strcmp_eq
strcmp_eq_of_zero m at [] e h p = absurd (omega arith)
strcmp_eq_of_zero m at (c ∷ s) e h p = ground arith

-- What is read depends on the memory only where there is something to read.
pub read_bytes_cong :
    (m m' : Bytes) (at n : ℕ) → (0 < n → m ≡ m') → read_bytes m at n ≡ read_bytes m' at n
unfolding read_bytes
read_bytes_cong m m' at zero h = refl
read_bytes_cong m m' at (suc n) h = ap (λ (f : Bytes). read_bytes f at (suc n)) (h (omega arith))

pub read_bytes-zero : (m : Bytes) (at : ℕ) → read_bytes m at 0 ≡ []
unfolding read_bytes
read_bytes-zero m at = refl

-- Reading in two parts.
pub read_bytes-add :
    (m : Bytes) (at a b : ℕ)
    → read_bytes m at (a + b) ≡ read_bytes m at a ++ read_bytes m (at + a) b
unfolding read_bytes
read_bytes-add m at zero b =
    let e : at + 0 ≡ at = omega arith in let e' : 0 + b ≡ b = omega arith in rw (e, e')
read_bytes-add m at (suc a) b =
    let e : suc a + b ≡ suc (a + b) = omega arith in
    let e' : at + suc a ≡ at + 1 + a = omega arith in rw (e, e', read_bytes-add m (at + 1) a b)

pub length-read_bytes : (m : Bytes) (at n : ℕ) → length (read_bytes m at n) ≡ n
unfolding read_bytes
length-read_bytes m at zero = refl
length-read_bytes m at (suc n) = ap suc (length-read_bytes m (at + 1) n)

pub take-read_bytes :
    (m : Bytes) (at a n : ℕ) → a ≤ n → take a (read_bytes m at n) ≡ read_bytes m at a
unfolding read_bytes
take-read_bytes m at zero n h = refl
take-read_bytes m at (suc a) zero h = absurd (omega arith)
take-read_bytes m at (suc a) (suc n) h =
    ap (λ r. m at ∷ r) (take-read_bytes m (at + 1) a n (omega arith))

pub drop-read_bytes :
    (m : Bytes) (at a n : ℕ) → drop a (read_bytes m at n) ≡ read_bytes m (at + a) (n - a)
unfolding read_bytes
drop-read_bytes m at zero n =
    let e : at + 0 ≡ at = omega arith in let e' : n - 0 ≡ n = omega arith in rw (e, e')
drop-read_bytes m at (suc a) zero = let e : 0 - suc a ≡ 0 = omega arith in rw e
drop-read_bytes m at (suc a) (suc n) =
    let e : suc n - suc a ≡ n - a = omega arith in
    let e' : at + suc a ≡ at + 1 + a = omega arith in rw (e, e') (drop-read_bytes m (at + 1) a n)

pub read_bytes_of :
    (m : Bytes) (at : ℕ) (bytes : List ℕ)
    → ((k : ℕ) → k < length bytes → m (at + k) ≡ get_or bytes k 0)
    → read_bytes m at (length bytes) ≡ bytes
unfolding read_bytes
read_bytes_of m at [] h = refl
read_bytes_of m at (c ∷ s) h =
    ap₂ ◌∷◌ (ap m (omega arith) ∙ h 0 (omega arith))
      (read_bytes_of m (at + 1) s (λ k p. ap m (omega arith) ∙ h (suc k) (omega arith)))

-- What is written is read.
pub read_bytes-write_bytes :
    (m : Bytes) (at : ℕ) (bytes : List ℕ)
    → read_bytes (write_bytes m at bytes) at (length bytes) ≡ bytes
read_bytes-write_bytes m at bytes =
    read_bytes_of (write_bytes m at bytes) at bytes (write_bytes_in m at bytes)

-- `xs` with `bytes` in the place from `at` on, longer if they reach past its end.
abbrev pub overwrite : List ℕ → ℕ → List ℕ → List ℕ
overwrite xs at bytes = take at xs ++ (bytes ++ drop (at + length bytes) xs)

-- Of a write that begins inside of the first `size` bytes.
pub read_bytes-overwrite :
    (m : Bytes) (at size size' : ℕ) (bytes : List ℕ)
    → at ≤ size
    → size' ≡ at + (length bytes + (size - (at + length bytes)))
    → read_bytes (write_bytes m at bytes) 0 size' ≡ overwrite (read_bytes m 0 size) at bytes
read_bytes-overwrite m at size size' bytes h e =
    let m' : Bytes = write_bytes m at bytes in
    let k : ℕ = at + length bytes in
    let left : ℕ = size - k in
    let zero_at : 0 + at ≡ at = omega arith in
    let zero_k : 0 + k ≡ k = omega arith in
    let front : read_bytes m' 0 at ≡ read_bytes m 0 at =
      read_bytes-SameFrom m' m 0 at (write_bytes-SameFrom m at bytes 0 at (inl (omega arith))) in
    let back : read_bytes m' k left ≡ read_bytes m k left =
      read_bytes-SameFrom m' m k left
        (write_bytes-SameFrom m at bytes k left (inr (omega arith))) in
    let tail : read_bytes m' at (length bytes + left) ≡ bytes ++ read_bytes m k left =
      read_bytes-add m' at (length bytes) left
      ∙ ap₂ ◌++◌ (read_bytes-write_bytes m at bytes) back in
    ap (read_bytes m' 0) e
    ∙ read_bytes-add m' 0 at (length bytes + left)
    ∙ ap₂ ◌++◌ (front ∙ sym (take-read_bytes m 0 at size h)) (
        ap (λ (a : ℕ). read_bytes m' a (length bytes + left)) zero_at
        ∙ tail
        ∙ ap (λ r. bytes ++ r)
            (ap (λ (a : ℕ). read_bytes m a left) (sym zero_k) ∙ sym (drop-read_bytes m 0 k size)))
