-- ===== src/Fs/Directory/Find.antt =====
-- The directory as a map from names to inode numbers, and what clear_dir_entry and add_dir_entry do
-- to that map.
use proj_so.Prelude.{
  ℕ, ◌≡◌, ap, ◌∙◌, ◌≢◌, inl, inr, true, false, List, Option, none, some, Option-cases, Found,
  find_index, ℤ, is_minus_one, InRange,
}
use proj_so.Fs.Memory.{Bytes}
use proj_so.Fs.Memory.Laws.{strcmp_eq_unique}
use proj_so.Fs.Directory.{d_name_at, d_inumber, clear_entry, fill_entry}
use proj_so.Fs.Directory.Entries.{IsFileName, d_inumber-clear_entry_ne, strcmp-clear_entry_ne}
use proj_so.Fs.Directory.Entries.{d_inumber-fill_entry_self, d_inumber-fill_entry_ne}
use proj_so.Fs.Directory.Layout.{
  unused, has_name, find_test, IsDirectory, Listed, Absent, find_index-Listed, Listed-of_find,
  Absent-of_find, find_of_Absent, clear_entry-IsDirectory, clear_entry-Absent, clear_entry-Listed,
  used_after-clear,
}
use proj_so.Fs.Directory.Fill.{
  NewNumber, fill_entry-IsDirectory, fill_entry-Listed_self, fill_entry-Listed_ne,
  fill_entry-Absent,
}

abbrev pub number_at : Bytes → Option ℕ → Option ℤ
number_at m none = none
number_at m (some j) = some (d_inumber m j)

-- What find_in_dir finds in a directory of `n` entries.
abbrev pub dir_lookup : ℕ → Bytes → List ℕ → Option ℤ
dir_lookup n m name = number_at m (find_index n (find_test m name))

module _ (n : ℕ) (m : Bytes) (t : List ℕ) (file : IsFileName t) where
  pub dir_lookup-Listed :
      (i : ℕ) → IsDirectory n m → Listed n m t i → dir_lookup n m t ≡ some (d_inumber m i)
  dir_lookup-Listed i d l = rw (find_index-Listed n m t file i d l)

  pub dir_lookup-Absent : Absent n m t → dir_lookup n m t ≡ none
  dir_lookup-Absent a = rw (find_of_Absent n m t file a)

  pub Listed-of_lookup :
      (x : ℤ) → dir_lookup n m t ≡ some x → (i : ℕ) × Listed n m t i × (d_inumber m i ≡ x)
  Listed-of_lookup x h = elim (Option-cases (find_index n (find_test m t))) [
    | inl e ↦ let p : none ≡ some x = rw e at h in cc
    | inr (i, e) ↦
        let p : some (d_inumber m i) ≡ some x = rw e at h in (i, Listed-of_find n m t file i e, cc)
  ]

  pub Absent-of_lookup : dir_lookup n m t ≡ none → Absent n m t
  Absent-of_lookup h = elim (Option-cases (find_index n (find_test m t))) [
    | inl e ↦ Absent-of_find n m t file e
    | inr (i, e) ↦ let p : some (d_inumber m i) ≡ none = rw e at h in cc
  ]

-- Two names at one entry are one.
name_unique :
    (n : ℕ) (m : Bytes) (s t : List ℕ) (i j : ℕ)
    → IsFileName s
    → IsFileName t
    → Listed n m s i
    → Listed n m t j
    → t ≢ s
    → i ≢ j
name_unique n m s t i j fs ft ls lt ne e =
    let p : has_name m j s ≡ true = rw (← e) ls.named in
    ne (strcmp_eq_unique m (d_name_at j) t s ft.bytes fs.bytes lt.named p)

module _ (n : ℕ) (m : Bytes) (name : List ℕ) (i : ℕ) (file : IsFileName name) (d : IsDirectory n m)
    (l : Listed n m name i) where
  -- Clearing the entry of a name removes the name, and leaves the others alone.
  pub dir_lookup-clear_self : dir_lookup n (clear_entry m i) name ≡ none
  dir_lookup-clear_self =
      dir_lookup-Absent n (clear_entry m i) name file (clear_entry-Absent n m i name file d l)

  pub dir_lookup-clear_ne :
      (t : List ℕ) → IsFileName t → t ≢ name → dir_lookup n (clear_entry m i) t ≡ dir_lookup n m t
  dir_lookup-clear_ne t f ne = elim (Option-cases (find_index n (find_test m t))) [
    | inl e ↦ rw e (
        dir_lookup-Absent n (clear_entry m i) t f (λ k q u.
          let (ik, v) = used_after-clear n m i k u in
          strcmp-clear_entry_ne m i k ik t f.fits ∙ Absent-of_find n m t f e k q v))
    | inr (k, e) ↦
        let lk = Listed-of_find n m t f k e in
        let ik = name_unique n m name t i k file f l lk ne in
        rw e (
          dir_lookup-Listed n (clear_entry m i) t f k (clear_entry-IsDirectory n m i d)
            (clear_entry-Listed n m i t k ik f lk)
          ∙ ap some (d_inumber-clear_entry_ne m i k ik))
  ]

module _ (n : ℕ) (m : Bytes) (i : ℕ) (name : List ℕ) (x : ℤ) (range : InRange x)
    (file : IsFileName name) (d : IsDirectory n m) (absent : Absent n m name)
    (new : NewNumber n m x) (found : Found n (unused m) i) (number : is_minus_one x ≡ false) where
  abbrev dir : IsDirectory n (fill_entry m i name x)
  dir = fill_entry-IsDirectory n m i name x range file d absent new found number

  -- Filling an entry adds the name with its number, and leaves the others alone.
  pub dir_lookup-fill_self : dir_lookup n (fill_entry m i name x) name ≡ some x
  dir_lookup-fill_self =
      dir_lookup-Listed n (fill_entry m i name x) name file i dir
        (fill_entry-Listed_self n m i name x range file found.below number)
      ∙ ap some (d_inumber-fill_entry_self m i name x range)

  pub dir_lookup-fill_ne :
      (t : List ℕ)
      → IsFileName t
      → name ≢ t
      → dir_lookup n (fill_entry m i name x) t ≡ dir_lookup n m t
  dir_lookup-fill_ne t f ne = elim (Option-cases (find_index n (find_test m t))) [
    | inl e ↦ rw e (
        dir_lookup-Absent n (fill_entry m i name x) t f
          (fill_entry-Absent n m i name x range file t f ne (Absent-of_find n m t f e)))
    | inr (k, e) ↦
        let lk = Listed-of_find n m t f k e in
        let ik : i ≢ k =
          λ same. let p : unused m k ≡ true = rw (← same) found.passes in let q = lk.used in cc in
        rw e (
          dir_lookup-Listed n (fill_entry m i name x) t f k dir
            (fill_entry-Listed_ne n m i name x range file t k ik f lk)
          ∙ ap some (d_inumber-fill_entry_ne m i name x k ik))
  ]
