-- ===== src/Wire/Text.antt =====
-- C strings in fields of a fixed length: a name with zeros behind it, and the name before the first
-- zero.
use proj_so.Prelude.{
  take-append_left, ℕ, zero, suc, ◌+◌, ◌-◌, ◌≤◌, ◌<◌, ◌≡◌, refl, ap, ◌∙◌, List, [], ◌∷◌, ◌++◌,
  Option, none, some, arith, ◌==◌, if◌then◌else◌, length, take, replicate,
}
use proj_so.Fs.Memory.{strncpy_bytes}
use proj_so.Fs.Memory.Laws.{IsName}

abbrev pub prepend : ℕ → Option (List ℕ) → Option (List ℕ)
prepend c none = none
prepend c (some s) = some (c ∷ s)

-- The bytes before the first zero, if there is one.
unfoldable pub c_string : List ℕ → Option (List ℕ)
c_string [] = none
c_string (c ∷ s) = let rest = prepend c (c_string s) in if c == 0 then some [] else rest

c_string-zeros : (s : List ℕ) (k : ℕ) → IsName s → c_string (s ++ replicate (suc k) 0) ≡ some s
unfolding c_string
c_string-zeros [] k h = refl
c_string-zeros (c ∷ s) k (p, h) = ground (arith, c_string-zeros s k h)

take-replicate : (m k : ℕ) → m ≤ k → take {A = ℕ} m (replicate k 0) ≡ replicate m 0
take-replicate zero k p = refl
take-replicate (suc m) zero p = absurd (omega arith)
take-replicate (suc m) (suc k) p = ap (λ r. 0 ∷ r) (take-replicate m k (omega arith))

take_zeros :
    (s : List ℕ) (m k : ℕ)
    → length s ≤ m
    → m ≤ k + length s
    → take m (s ++ replicate k 0) ≡ s ++ replicate (m - length s) 0
take_zeros [] m k p q = let e : m - 0 ≡ m = omega arith in rw e (take-replicate m k (omega arith))
take_zeros (c ∷ s) zero k p q = absurd (omega arith)
take_zeros (c ∷ s) (suc m) k p q =
    let e : suc m - suc (length s) ≡ m - length s = omega arith in
    rw e (ap (λ r. c ∷ r) (take_zeros s m k (omega arith) (omega arith)))

-- A name that fits is what its field holds, with zeros up to the end.
pub strncpy_bytes-short :
    (s : List ℕ) (n : ℕ) → length s ≤ n → strncpy_bytes s n ≡ s ++ replicate (n - length s) 0
strncpy_bytes-short s n h = take_zeros s n n h (omega arith)

pub c_string-strncpy_bytes :
    (s : List ℕ) (n : ℕ) → IsName s → length s < n → c_string (strncpy_bytes s n) ≡ some s
c_string-strncpy_bytes s n h p =
    ap c_string (strncpy_bytes-short s n (omega arith) ∙ ap (λ k. s ++ replicate k 0) more)
    ∙ c_string-zeros s (n - length s - 1) h
  where
    more : n - length s ≡ suc (n - length s - 1)
    more = omega arith

no_zero : (s : List ℕ) → IsName s → c_string s ≡ none
unfolding c_string
no_zero [] h = refl
no_zero (c ∷ s) (p, h) = ground (arith, no_zero s h)

-- A name that fills its field leaves no room for the terminator.
pub c_string-strncpy_bytes_full :
    (s : List ℕ) (n : ℕ) → IsName s → length s ≡ n → c_string (strncpy_bytes s n) ≡ none
c_string-strncpy_bytes_full s n h p =
    ap c_string (take-append_left n s (replicate n 0) p) ∙ no_zero s h

-- The string at the start of a buffer that has a terminator behind it.
unfoldable pub text_of : List ℕ → List ℕ
text_of [] = []
text_of (c ∷ s) = let rest = text_of s in if c == 0 then [] else c ∷ rest

pub text_of-zeros : (s : List ℕ) (k : ℕ) → IsName s → text_of (s ++ replicate k 0) ≡ s
unfolding text_of
text_of-zeros [] zero h = refl
text_of-zeros [] (suc k) h = refl
text_of-zeros (c ∷ s) k (p, h) = ground (arith, text_of-zeros s k h)

-- A field gives back the name that it holds, also one that fills it, when a terminator stands behind.
pub text_of-strncpy_bytes :
    (s : List ℕ) (n : ℕ) → IsName s → length s ≤ n → text_of (strncpy_bytes s n) ≡ s
text_of-strncpy_bytes s n h p =
    ap text_of (strncpy_bytes-short s n p) ∙ text_of-zeros s (n - length s) h

pub c_string-terminated : (s rest : List ℕ) → IsName s → c_string (s ++ (0 ∷ rest)) ≡ some s
unfolding c_string
c_string-terminated [] rest h = refl
c_string-terminated (c ∷ s) rest (p, h) = ground (arith, c_string-terminated s rest h)
