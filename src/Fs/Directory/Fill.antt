-- ===== src/Fs/Directory/Fill.antt =====
-- add_dir_entry keeps the layout of a directory, when the name and the number are new to it.
use proj_so.Prelude.{
  ℕ, ◌<◌, ◌≡◌, sym, ap, ◌∙◌, ◌≢◌, inl, inr, true, false, List, ℕ_discrete, Bool-cases, Found, ℤ,
  is_minus_one, InRange,
}
use proj_so.Fs.Memory.{Bytes}
use proj_so.Fs.Memory.Laws.{strcmp_eq_unique}
use proj_so.Fs.Directory.{d_name_at, d_inumber, fill_entry}
use proj_so.Fs.Directory.Entries.{
  IsFileName, d_inumber-fill_entry_self, strcmp-fill_entry_self, d_inumber-fill_entry_ne,
  strcmp-fill_entry_ne, fill_entry_byte_ne,
}
use proj_so.Fs.Directory.Layout.{unused, has_name, IsDirectory, Listed, Absent}

-- No entry in use has the number.
abbrev pub NewNumber : ℕ → Bytes → ℤ → Type 0
NewNumber n m x = (j : ℕ) → j < n → unused m j ≡ false → d_inumber m j ≢ x

module _ (n : ℕ) (m : Bytes) (i : ℕ) (name : List ℕ) (x : ℤ) (range : InRange x)
    (file : IsFileName name) where
  abbrev after : Bytes
  after = fill_entry m i name x

  unused-fill_self : is_minus_one x ≡ false → unused after i ≡ false
  unused-fill_self p = ap is_minus_one (d_inumber-fill_entry_self m i name x range) ∙ p

  unused-fill_ne : (j : ℕ) → i ≢ j → unused after j ≡ unused m j
  unused-fill_ne j ne = ap is_minus_one (d_inumber-fill_entry_ne m i name x j ne)

  -- The entry that add_dir_entry Filled lists the name.
  pub fill_entry-Listed_self : i < n → is_minus_one x ≡ false → Listed n after name i
  fill_entry-Listed_self h p = record {
    below = h;
    used = unused-fill_self p;
    named = strcmp-fill_entry_self m i name x file.fits;
  }

  -- The other entries list what they listed.
  pub fill_entry-Listed_ne :
      (other : List ℕ) (j : ℕ)
      → i ≢ j
      → IsFileName other
      → Listed n m other j
      → Listed n after other j
  fill_entry-Listed_ne other j ne f l = record {
    below = l.below;
    used = unused-fill_ne j ne ∙ l.used;
    named = strcmp-fill_entry_ne m i name x j ne other f.fits ∙ l.named;
  }

  -- A name that is not there and is not the new one is not there afterwards.
  pub fill_entry-Absent :
      (other : List ℕ) → IsFileName other → name ≢ other → Absent n m other → Absent n after other
  fill_entry-Absent other f ne h j q u = elim (ℕ_discrete i j) [
    | yes e ↦ elim (Bool-cases (has_name after j other)) [
      | inl p ↦ absurd (
          ne (
            strcmp_eq_unique after (d_name_at j) name other file.bytes f.bytes
              (rw (← e) (strcmp-fill_entry_self m i name x file.fits)) p))
      | inr p ↦ p
    ]
    | no p ↦ strcmp-fill_entry_ne m i name x j p other f.fits ∙ h j q (sym (unused-fill_ne j p) ∙ u)
  ]

  module _ (d : IsDirectory n m) (absent : Absent n m name) (new : NewNumber n m x) where
    fill-one_name :
        (j k : ℕ) (t : List ℕ)
        → j < n
        → k < n
        → unused after j ≡ false
        → unused after k ≡ false
        → IsFileName t
        → has_name after j t ≡ true
        → has_name after k t ≡ true
        → j ≡ k
    fill-one_name j k t hj hk uj uk f nj nk = elim (ℕ_discrete i j) [
      | yes ij ↦ elim (ℕ_discrete i k) [
        | yes ik ↦ sym ij ∙ ik
        | no ik ↦ absurd (clash j k ij ik hk uk nj nk)
      ]
      | no ij ↦ elim (ℕ_discrete i k) [
        | yes ik ↦ absurd (clash k j ik ij hj uj nk nj)
        | no ik ↦
            d.one_name j k t hj hk (sym (unused-fill_ne j ij) ∙ uj) (sym (unused-fill_ne k ik) ∙ uk)
              f (sym (strcmp-fill_entry_ne m i name x j ij t f.fits) ∙ nj)
              (sym (strcmp-fill_entry_ne m i name x k ik t f.fits) ∙ nk)
      ]
    ]
      where
        clash :
            (a b : ℕ)
            → i ≡ a
            → i ≢ b
            → b < n
            → unused after b ≡ false
            → has_name after a t ≡ true
            → has_name after b t ≡ true
            → ⊥
        clash a b ia ib hb ub na nb =
            let same : name ≡ t =
              strcmp_eq_unique after (d_name_at a) name t file.bytes f.bytes
                (rw (← ia) (strcmp-fill_entry_self m i name x file.fits)) na in
            let old : has_name m b t ≡ false =
              rw (← same) (absent b hb (sym (unused-fill_ne b ib) ∙ ub)) in
            let now : has_name m b t ≡ true =
              sym (strcmp-fill_entry_ne m i name x b ib t f.fits) ∙ nb in
            cc

    fill-one_number :
        (j k : ℕ)
        → j < n
        → k < n
        → unused after j ≡ false
        → unused after k ≡ false
        → d_inumber after j ≡ d_inumber after k
        → j ≡ k
    fill-one_number j k hj hk uj uk e = elim (ℕ_discrete i j) [
      | yes ij ↦ elim (ℕ_discrete i k) [
        | yes ik ↦ sym ij ∙ ik
        | no ik ↦ absurd (clash j k ij ik hk uk e)
      ]
      | no ij ↦ elim (ℕ_discrete i k) [
        | yes ik ↦ absurd (clash k j ik ij hj uj (sym e))
        | no ik ↦
            d.one_number j k hj hk (sym (unused-fill_ne j ij) ∙ uj) (sym (unused-fill_ne k ik) ∙ uk)
              (sym (d_inumber-fill_entry_ne m i name x j ij)
                ∙ e
                ∙ d_inumber-fill_entry_ne m i name x k ik)
      ]
    ]
      where
        clash :
            (a b : ℕ)
            → i ≡ a
            → i ≢ b
            → b < n
            → unused after b ≡ false
            → d_inumber after a ≡ d_inumber after b
            → ⊥
        clash a b ia ib hb ub eq = new b hb (sym (unused-fill_ne b ib) ∙ ub) (
            sym (d_inumber-fill_entry_ne m i name x b ib)
            ∙ sym eq
            ∙ rw (← ia) (d_inumber-fill_entry_self m i name x range))

    -- Filling the first unused entry leaves a directory.
    pub fill_entry-IsDirectory : Found n (unused m) i → is_minus_one x ≡ false → IsDirectory n after
    fill_entry-IsDirectory found p = record {
      one_name = fill-one_name;
      one_number = fill-one_number;
      gaps = λ j k jk hk uk uj. elim (ℕ_discrete i j) [
        | yes e ↦ let v : unused after j ≡ false = rw (← e) (unused-fill_self p) in cc
        | no ij ↦
            let vj : unused m j ≡ true = sym (unused-fill_ne j ij) ∙ uj in
            elim (ℕ_discrete i k) [
              | yes ik ↦ let w : unused m j ≡ false = found.first j (rw ik jk) in cc
              | no ik ↦
                  fill_entry_byte_ne m i name x j ij
                  ∙ d.gaps j k jk hk (sym (unused-fill_ne k ik) ∙ uk) vj
            ]
      ];
    }
