-- ===== src/Prelude/Outcomes.antt =====
-- What a call does: it returns a value and the new state, it ends the process (`PANIC`, a failed
-- `ALWAYS_ASSERT`), it touches memory outside of the array that it is given, or it never returns,
-- since it waits for what does not come.
use mathlib.Core.Bool.{Bool, true, false}

pub data Outcome (S A : Type 0) : Type 0 where
  ok : A → S → Outcome S A
  panic : Outcome S A
  fault : Outcome S A
  blocks : Outcome S A

abbrev pub M : Type 0 → Type 0 → Type 0
M S A = S → Outcome S A

module _ {S : Type 0} where
  abbrev pub and_then : {A B : Type 0} → Outcome S A → (A → M S B) → Outcome S B
  and_then (ok a s) k = k a s
  and_then panic k = panic
  and_then fault k = fault
  and_then blocks k = blocks

  infixl 5 ◌>>=◌ ◌>>◌
  abbrev pub ◌>>=◌ : {A B : Type 0} → M S A → (A → M S B) → M S B
  ◌>>=◌ m k s = and_then (m s) k

  abbrev pub ◌>>◌ : {A B : Type 0} → M S A → M S B → M S B
  ◌>>◌ m k s = and_then (m s) (λ _. k)

  abbrev pub pure : {A : Type 0} → A → M S A
  pure a s = ok a s

  -- `ALWAYS_ASSERT`
  abbrev pub always_assert : (S → Bool) → M S (Unit {0})
  always_assert test s = elim (test s) [ true ↦ ok tt s | false ↦ panic ]

  -- The value that the state determines, and an assignment to the state.
  abbrev pub gets : {A : Type 0} → (S → A) → M S A
  gets f s = ok (f s) s

  abbrev pub modify : (S → S) → M S (Unit {0})
  modify f s = ok tt (f s)
