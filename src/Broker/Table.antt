-- ===== src/Broker/Table.antt =====
-- When a table of boxes is well formed, and what a change of one slot leaves alone.
use proj_so.Prelude.{
  ℕ, ◌<◌, ◌≡◌, ◌≢◌, refl, ap, ap₂, inl, inr, true, false, List, [], ◌∷◌, arith, length, update,
  update_self, update_ne, find_index, fun_ext, ℕ_discrete, Bool-cases,
}
use proj_so.Broker.Boxes.{Box, Broker, max_boxes, str_eq, find_box}

abbrev pub name_of : Broker → ℕ → List ℕ
name_of s i = (s.boxes i).box_name

-- The slots in use, and no others, have names, and no two have the same.
pub record IsTable (s : Broker) : Type 0 where
  pub unnamed : (i : ℕ) → i < max_boxes → s.free_boxes i ≡ true → name_of s i ≡ []
  pub named : (i : ℕ) → i < max_boxes → s.free_boxes i ≡ false → 0 < length (name_of s i)
  pub unique :
      (i j : ℕ)
      → i < max_boxes
      → j < max_boxes
      → 0 < length (name_of s i)
      → name_of s i ≡ name_of s j
      → i ≡ j

pub str_eq_refl : (s : List ℕ) → str_eq s s ≡ true
unfolding str_eq
str_eq_refl [] = refl
str_eq_refl (c ∷ s) = ground (arith, str_eq_refl s)

pub str_eq_sound : (s t : List ℕ) → str_eq s t ≡ true → s ≡ t
unfolding str_eq
str_eq_sound [] [] e = refl
str_eq_sound [] (d ∷ t) e = cc
str_eq_sound (c ∷ s) [] e = cc
str_eq_sound (c ∷ s) (d ∷ t) e =
    let heads : c ≡ d = ground arith in
    let tails : str_eq s t ≡ true = ground arith in
    ap₂ (λ (a : ℕ) (b : List ℕ). a ∷ b) heads (str_eq_sound s t tails)

pub str_eq_ne : (s t : List ℕ) → s ≢ t → str_eq s t ≡ false
str_eq_ne s t ne = elim (Bool-cases (str_eq s t)) [
  | inl e ↦ absurd (ne (str_eq_sound s t e))
  | inr e ↦ e
]

pub str_eq_nil : (t : List ℕ) → 0 < length t → str_eq [] t ≡ false
unfolding str_eq
str_eq_nil [] p = absurd (omega arith)
str_eq_nil (d ∷ t) p = refl

-- A name that neither the old nor the new box of a slot has is found where it was.
pub find_box-elsewhere :
    (s s' : Broker) (i : ℕ) (box : Box) (t : List ℕ)
    → s'.boxes ≡ update s.boxes i box
    → str_eq box.box_name t ≡ false
    → str_eq (name_of s i) t ≡ false
    → find_box s' t ≡ find_box s t
find_box-elsewhere s s' i box t e new old = ap (find_index max_boxes) (
    fun_ext λ j. elim (ℕ_discrete i j) [
      | yes same ↦ rw (e, ← same, update_self s.boxes i box, new, old)
      | no other ↦ rw (e, update_ne s.boxes i box j other)
    ])
