-- ===== src/Fs/Directory/Layout.antt =====
-- The layout of a directory that the searches of fs/state.c rely on: which entries are in use, that
-- names and numbers stand once, and that an unused entry before one in use has an empty name.
use proj_so.Prelude.{
  ℕ, ◌<◌, ◌≡◌, sym, ap, ◌∙◌, ◌≢◌, inl, inr, Bool, true, false, not, ◌&&◌, List, none, some, arith,
  ℕ_discrete, find_index, find_index-Found, find_index_of_Found, find_index-none,
  find_index_of_none, Bool-cases, is_minus_one,
}
use proj_so.Fs.Memory.{Bytes, strcmp_eq, strncmp_eq}
use proj_so.Fs.Memory.Laws.{strncmp_eq-strcmp_eq, strcmp_eq_of_zero}
use proj_so.Fs.State.{max_file_name}
use proj_so.Fs.Directory.{d_name_at, d_inumber, clear_entry}
use proj_so.Fs.Directory.Entries.{
  IsFileName, d_inumber-clear_entry_self, clear_entry_byte, d_inumber-clear_entry_ne,
  strcmp-clear_entry_ne, clear_entry_byte_ne,
}

abbrev pub unused : Bytes → ℕ → Bool
unused m j = is_minus_one (d_inumber m j)

abbrev pub has_name : Bytes → ℕ → List ℕ → Bool
has_name m j name = strcmp_eq m (d_name_at j) name

-- The tests of the loops of find_in_dir, clear_dir_entry and add_dir_entry.
abbrev pub find_test : Bytes → List ℕ → ℕ → Bool
find_test m name j = not (unused m j) && strncmp_eq m (d_name_at j) name max_file_name

abbrev pub clear_test : Bytes → List ℕ → ℕ → Bool
clear_test m name j = strcmp_eq m (d_name_at j) name

pub record IsDirectory (n : ℕ) (m : Bytes) : Type 0 where
  pub one_name :
      (j k : ℕ) (name : List ℕ)
      → j < n
      → k < n
      → unused m j ≡ false
      → unused m k ≡ false
      → IsFileName name
      → has_name m j name ≡ true
      → has_name m k name ≡ true
      → j ≡ k
  pub one_number :
      (j k : ℕ)
      → j < n
      → k < n
      → unused m j ≡ false
      → unused m k ≡ false
      → d_inumber m j ≡ d_inumber m k
      → j ≡ k
  pub gaps :
      (j k : ℕ) → j < k → k < n → unused m k ≡ false → unused m j ≡ true → m (d_name_at j) ≡ 0

-- Entry `i` is in use under the name.
pub record Listed (n : ℕ) (m : Bytes) (name : List ℕ) (i : ℕ) : Type 0 where
  pub below : i < n
  pub used : unused m i ≡ false
  pub named : has_name m i name ≡ true

-- No entry in use has the name.
abbrev pub Absent : ℕ → Bytes → List ℕ → Type 0
Absent n m name = (j : ℕ) → j < n → unused m j ≡ false → has_name m j name ≡ false

find_test-strcmp :
    (m : Bytes) (name : List ℕ) (j : ℕ)
    → IsFileName name
    → find_test m name j ≡ not (unused m j) && has_name m j name
find_test-strcmp m name j f =
    ap (λ b. not (unused m j) && b) (strncmp_eq-strcmp_eq m (d_name_at j) name max_file_name f.fits)

-- The test on an entry that is in use, and on one that is not.
find_test-used :
    (m : Bytes) (name : List ℕ) (j : ℕ)
    → IsFileName name
    → unused m j ≡ false
    → find_test m name j ≡ has_name m j name
find_test-used m name j f u = rw (find_test-strcmp m name j f, u)

find_test-unused :
    (m : Bytes) (name : List ℕ) (j : ℕ) → unused m j ≡ true → find_test m name j ≡ false
find_test-unused m name j u = rw u

-- In a directory the name stands at no other entry in use.
name-elsewhere :
    (n : ℕ) (m : Bytes) (name : List ℕ) (i j : ℕ)
    → IsFileName name
    → IsDirectory n m
    → Listed n m name i
    → j < i
    → unused m j ≡ false
    → has_name m j name ≡ false
name-elsewhere n m name i j f d l q u = elim (Bool-cases (has_name m j name)) [
  | inl e ↦
      let same = d.one_name j i name (omega (arith, l.below)) l.below u l.used f e l.named in
      absurd (omega arith)
  | inr e ↦ e
]

module _ (n : ℕ) (m : Bytes) (name : List ℕ) (file : IsFileName name) where
  -- find_in_dir stops at the entry that lists the name.
  pub find_index-Listed :
      (i : ℕ) → IsDirectory n m → Listed n m name i → find_index n (find_test m name) ≡ some i
  find_index-Listed i d l = find_index_of_Found n (find_test m name) (record {
    below = l.below;
    passes = find_test-used m name i file l.used ∙ l.named;
    first = λ j q. elim (Bool-cases (unused m j)) [
      | inl u ↦ find_test-unused m name j u
      | inr u ↦ find_test-used m name j file u ∙ name-elsewhere n m name i j file d l q u
    ];
  })

  pub Listed-of_find : (i : ℕ) → find_index n (find_test m name) ≡ some i → Listed n m name i
  Listed-of_find i h =
      let f = find_index-Found n (find_test m name) h in
      elim (Bool-cases (unused m i)) [
        | inl u ↦ let e = find_test-unused m name i u in let p = f.passes in cc
        | inr u ↦ record {
          below = f.below;
          used = u;
          named = sym (find_test-used m name i file u) ∙ f.passes;
        }
      ]

  pub Absent-of_find : find_index n (find_test m name) ≡ none → Absent n m name
  Absent-of_find h j q u =
      sym (find_test-used m name j file u) ∙ find_index-none n (find_test m name) h j q

  pub find_of_Absent : Absent n m name → find_index n (find_test m name) ≡ none
  find_of_Absent h = find_index_of_none n (find_test m name) (λ j q.
      elim (Bool-cases (unused m j)) [
        | inl u ↦ find_test-unused m name j u
        | inr u ↦ find_test-used m name j file u ∙ h j q u
      ])

  -- clear_dir_entry, which does not look at the numbers, stops at the same entry.
  pub clear_index-Listed :
      (i : ℕ) → IsDirectory n m → Listed n m name i → find_index n (clear_test m name) ≡ some i
  clear_index-Listed i d l = find_index_of_Found n (clear_test m name) (record {
    below = l.below;
    passes = l.named;
    first = λ j q. elim (Bool-cases (unused m j)) [
      | inl u ↦
          strcmp_eq_of_zero m (d_name_at j) name (d.gaps j i q l.below l.used u) file.bytes
            file.some_byte
      | inr u ↦ name-elsewhere n m name i j file d l q u
    ];
  })

-- An entry is the changed one, or it is as before.
module _ (n : ℕ) (m : Bytes) (i : ℕ) where
  unused-clear_self : unused (clear_entry m i) i ≡ true
  unused-clear_self = rw (d_inumber-clear_entry_self m i)

  unused-clear_ne : (j : ℕ) → i ≢ j → unused (clear_entry m i) j ≡ unused m j
  unused-clear_ne j ne = ap is_minus_one (d_inumber-clear_entry_ne m i j ne)

  pub used_after-clear :
      (j : ℕ) → unused (clear_entry m i) j ≡ false → (i ≢ j) × (unused m j ≡ false)
  used_after-clear j u = elim (ℕ_discrete i j) [
    | yes e ↦ let p : unused (clear_entry m i) j ≡ true = rw (← e) unused-clear_self in cc
    | no ne ↦ (ne, sym (unused-clear_ne j ne) ∙ u)
  ]

  -- Clearing an entry leaves a directory.
  pub clear_entry-IsDirectory : IsDirectory n m → IsDirectory n (clear_entry m i)
  clear_entry-IsDirectory d = record {
    one_name = λ j k name hj hk uj uk f nj nk.
        let (ij, vj) = used_after-clear j uj in
        let (ik, vk) = used_after-clear k uk in
        d.one_name j k name hj hk vj vk f (sym (strcmp-clear_entry_ne m i j ij name f.fits) ∙ nj)
          (sym (strcmp-clear_entry_ne m i k ik name f.fits) ∙ nk);
    one_number = λ j k hj hk uj uk e.
        let (ij, vj) = used_after-clear j uj in
        let (ik, vk) = used_after-clear k uk in
        d.one_number j k hj hk vj vk
          (sym (d_inumber-clear_entry_ne m i j ij) ∙ e ∙ d_inumber-clear_entry_ne m i k ik);
    gaps = λ j k jk hk uk uj.
        let (ik, vk) = used_after-clear k uk in
        elim (ℕ_discrete i j) [
          | yes e ↦ rw (← e) (clear_entry_byte m i)
          | no ne ↦
              clear_entry_byte_ne m i j ne ∙ d.gaps j k jk hk vk (sym (unused-clear_ne j ne) ∙ uj)
        ];
  }

  -- Once the entry of a name is cleared, the directory does not hold the name.
  pub clear_entry-Absent :
      (name : List ℕ)
      → IsFileName name
      → IsDirectory n m
      → Listed n m name i
      → Absent n (clear_entry m i) name
  clear_entry-Absent name f d l j q u = elim (Bool-cases (has_name (clear_entry m i) j name)) [
    | inl e ↦
        let (ij, v) = used_after-clear j u in
        let same : j ≡ i =
          d.one_name j i name q l.below v l.used f
            (sym (strcmp-clear_entry_ne m i j ij name f.fits) ∙ e) l.named in
        absurd (ij (sym same))
    | inr e ↦ e
  ]

  -- The other names stay where they are.
  pub clear_entry-Listed :
      (name : List ℕ) (j : ℕ)
      → i ≢ j
      → IsFileName name
      → Listed n m name j
      → Listed n (clear_entry m i) name j
  clear_entry-Listed name j ne f l = record {
    below = l.below;
    used = unused-clear_ne j ne ∙ l.used;
    named = strcmp-clear_entry_ne m i j ne name f.fits ∙ l.named;
  }
