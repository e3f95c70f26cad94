-- ===== src/Prelude/Loops.antt =====
-- `for (i = 0; i < n; i++) if (test(i)) return i;`, the shape of every search in the program.
use Prim.Native.Nat.{ℕ, zero, suc, ◌+◌, ◌≤◌, ◌<◌}
use mathlib.Core.Path.{◌≡◌, refl}
use mathlib.Core.Logic.{inl, inr}
use mathlib.Core.Bool.{Bool, true, false}
use mathlib.Core.Option.{Option, none, some}
use native.Mathlib.Decide.{ℕ_discrete}
use native.Mathlib.Omega.{arith}
use proj_so.Prelude.Tests.{if◌then◌else◌, Bool-cases}

-- `rounds` is what is left of the bound, `i` the loop's variable.
pub for_first : ℕ → ℕ → (ℕ → Bool) → Option ℕ
for_first zero i test = none
for_first (suc rounds) i test =
    let rest = for_first rounds (i + 1) test in if test i then some i else rest

unfoldable pub find_index : ℕ → (ℕ → Bool) → Option ℕ
unfolding for_first
find_index n test = for_first n 0 test

-- The first index below `n` that passes, or none does.
pub record Found (n : ℕ) (test : ℕ → Bool) (i : ℕ) : Type 0 where
  pub below : i < n
  pub passes : test i ≡ true
  pub first : (j : ℕ) → j < i → test j ≡ false

for_first-some :
    (rounds i k : ℕ) (test : ℕ → Bool)
    → for_first rounds i test ≡ some k
    → (i ≤ k) × (k < i + rounds) × (test k ≡ true) × ((j : ℕ) → i ≤ j → j < k → test j ≡ false)
unfolding for_first
for_first-some zero i k test h = cc
for_first-some (suc rounds) i k test h = elim (Bool-cases (test i)) [
  | inl hit ↦
      let e : some i ≡ some k = rw hit at h in
      let e' : i ≡ k = ground arith in
      (omega arith, omega arith, rw (← e') hit, λ j a b. absurd (omega arith))
  | inr miss ↦
      let e : for_first rounds (i + 1) test ≡ some k = rw miss at h in
      let (a, b, c, d) = for_first-some rounds (i + 1) k test e in
      (
        omega arith,
        omega arith,
        c,
        λ j p q. elim (ℕ_discrete i j) [
          | yes here ↦ rw (← here) miss
          | no later ↦ d j (omega arith) q
        ],
      )
]

for_first-none :
    (rounds i : ℕ) (test : ℕ → Bool)
    → for_first rounds i test ≡ none
    → (j : ℕ) → i ≤ j
    → j < i + rounds
    → test j ≡ false
unfolding for_first
for_first-none zero i test h j p q = absurd (omega arith)
for_first-none (suc rounds) i test h j p q = elim (Bool-cases (test i)) [
  | inl hit ↦ let e : some i ≡ none = rw hit at h in ground arith
  | inr miss ↦
      let e : for_first rounds (i + 1) test ≡ none = rw miss at h in
      elim (ℕ_discrete i j) [
        | yes here ↦ rw (← here) miss
        | no later ↦ for_first-none rounds (i + 1) test e j (omega arith) (omega arith)
      ]
]

for_first-hit :
    (rounds i k : ℕ) (test : ℕ → Bool)
    → i ≤ k
    → k < i + rounds
    → test k ≡ true
    → ((j : ℕ) → i ≤ j → j < k → test j ≡ false)
    → for_first rounds i test ≡ some k
unfolding for_first
for_first-hit zero i k test a b c d = absurd (omega arith)
for_first-hit (suc rounds) i k test a b c d = elim (ℕ_discrete i k) [
  | yes here ↦ rw here (rw c)
  | no later ↦ rw (d i (omega arith) (omega arith)) (
      for_first-hit rounds (i + 1) k test (omega arith) (omega arith) c
        (λ j p q. d j (omega arith) q))
]

for_first-miss :
    (rounds i : ℕ) (test : ℕ → Bool)
    → ((j : ℕ) → i ≤ j → j < i + rounds → test j ≡ false)
    → for_first rounds i test ≡ none
unfolding for_first
for_first-miss zero i test h = refl
for_first-miss (suc rounds) i test h =
    rw (h i (omega arith) (omega arith))
      (for_first-miss rounds (i + 1) test (λ j p q. h j (omega arith) (omega arith)))

module _ (n : ℕ) (test : ℕ → Bool) where
  -- A search that finds an index finds the first one that passes, and it finds it if it is there.
  pub find_index-Found : {i : ℕ} → find_index n test ≡ some i → Found n test i
  unfolding find_index
  find_index-Found {i} h =
      let (a, b, c, d) = for_first-some n 0 i test h in
      record { below = omega arith; passes = c; first = λ j q. d j (omega arith) q }

  pub find_index_of_Found : {i : ℕ} → Found n test i → find_index n test ≡ some i
  unfolding find_index
  find_index_of_Found {i} f =
      for_first-hit n 0 i test (omega arith) (omega (arith, f.below)) f.passes
        (λ j p q. f.first j q)

  pub find_index-none : find_index n test ≡ none → (j : ℕ) → j < n → test j ≡ false
  unfolding find_index
  find_index-none h j q = for_first-none n 0 test h j (omega arith) (omega arith)

  pub find_index_of_none : ((j : ℕ) → j < n → test j ≡ false) → find_index n test ≡ none
  unfolding find_index
  find_index_of_none h = for_first-miss n 0 test (λ j p q. h j (omega arith))
