-- ===== src/Pcq/Ring.antt =====
-- The elements of a ring buffer between two positions that are counted without wrapping: position
-- `k` stands at index `k % capacity`.
use proj_so.Prelude.{
  ℕ, zero, suc, ◌+◌, ◌-◌, ◌%◌, ◌<◌, ◌≡◌, refl, sym, ap, ap₂, ◌∙◌, ◌≢◌, List, [], ◌∷◌, ◌++◌, arith,
  dec_lt, update, update_self, update_ne, ◌^◌, add_size, length,
}
use native.Mathlib.Nat.{mod-add-mod, mod-eq_of_lt, mod-eq-sub-mod, mod-lt}

-- Two positions less than a round apart stand at different indices.
pub index-ne : (cap a d : ℕ) → 0 < d → d < cap → a % cap ≢ (a + d) % cap
index-ne cap a d p q e = elim (dec_lt (a % cap + d) cap) [
  | yes below ↦ omega (arith, mod-add-mod a cap d, mod-eq_of_lt {n = a % cap + d} {m = cap} below)
  | no past ↦ omega (
    arith,
    mod-lt a {m = cap} (omega arith),
    mod-add-mod a cap d,
    mod-eq-sub-mod {n = a % cap + d} {m = cap} (omega arith),
    mod-eq_of_lt {n = a % cap + d - cap} {m = cap}
        (omega (arith, mod-lt a {m = cap} (omega arith))),
  )
]

module _ {A : Type 0} (cap : ℕ) where
  -- The `n` elements from position `first` on.
  pub items : (ℕ → A) → ℕ → ℕ → List A
  items buffer first zero = []
  items buffer first (suc n) = buffer (first % cap) ∷ items buffer (first + 1) n

  pub items-nil : (buffer : ℕ → A) (first : ℕ) → items buffer first 0 ≡ []
  unfolding items
  items-nil buffer first = refl

  pub items-cons :
      (buffer : ℕ → A) (first n : ℕ)
      → 0 < n
      → items buffer first n ≡ buffer (first % cap) ∷ items buffer (first + 1) (n - 1)
  unfolding items
  items-cons buffer first zero h = absurd (omega arith)
  items-cons buffer first (suc n) h =
      ap (λ (k : ℕ). buffer (first % cap) ∷ items buffer (first + 1) k) (omega arith)

  -- A write just behind the elements, less than a round after the first, adds one.
  pub items-store :
      (buffer : ℕ → A) (first n i : ℕ) (x : A)
      → n < cap
      → i ≡ (first + n) % cap
      → items (update buffer i x) first (suc n) ≡ items buffer first n ++ (x ∷ [])
  unfolding items
  items-store buffer first zero i x h e =
      let here : i ≡ first % cap = e ∙ ap (λ (k : ℕ). k % cap) (omega arith) in
      rw here (ap (λ y. y ∷ []) (update_self buffer (first % cap) x))
  items-store buffer first (suc n) i x h e =
      ap₂ ◌∷◌
        (update_ne buffer i x (first % cap)
          (λ p. index-ne cap first (suc n) (omega arith) h (sym p ∙ e)))
        (items-store buffer (first + 1) n i x (omega arith)
          (e ∙ ap (λ (k : ℕ). k % cap) (omega arith)))

-- `(index + 1) % capacity` is the index of the next position.
pub advance-mod :
    (cap k i : ℕ) → 0 < cap → cap < 2 ^ 63 → i ≡ k % cap → add_size i 1 % cap ≡ (k + 1) % cap
advance-mod cap k i p q e =
    let below : k % cap < cap = mod-lt k p in
    let exact : add_size i 1 ≡ i + 1 = omega arith in
    ap (λ (a : ℕ). a % cap) (exact ∙ ap (λ (a : ℕ). a + 1) e) ∙ mod-add-mod k cap 1

pub length-items :
    {A : Type 0} (cap : ℕ) (buffer : ℕ → A) (first n : ℕ) → length (items cap buffer first n) ≡ n
unfolding items
length-items cap buffer first zero = refl
length-items cap buffer first (suc n) = ap suc (length-items cap buffer (first + 1) n)
