-- ===== src/Fs/Directory/Entries.antt =====
-- What clear_dir_entry and add_dir_entry do to the entry that they change, and to the others.
use proj_so.Prelude.{
  ℕ, ◌+◌, ◌-◌, ◌*◌, ◌≤◌, ◌<◌, ◌≡◌, ap, ◌∙◌, ◌≢◌, ◌⊎◌, inl, inr, true, List, [], ◌∷◌, arith, dec_lt,
  length, get_or, replicate, get_or_of_ge, ℤ, minus_one, InRange,
}
use proj_so.Fs.Memory.{Bytes, write_bytes, store_int, strcmp_eq, strncpy_bytes}
use proj_so.Fs.Memory.Laws.{
  SameFrom, write_bytes_in, write_bytes-SameFrom, load_int-SameFrom, load_int-store_int,
  store_int-SameFrom, strcmp_eq-SameFrom, strcmp_eq_of_bytes, get_or-strncpy_bytes,
  length-strncpy_bytes, IsName,
}
use proj_so.Fs.State.{max_file_name}
use proj_so.Fs.Directory.{d_name_at, d_inumber_at, d_inumber, clear_entry, fill_entry}

-- A name that an entry can hold.
pub record IsFileName (name : List ℕ) : Type 0 where
  pub bytes : IsName name
  pub some_byte : 0 < length name
  pub fits : length name < max_file_name

-- Outside of entry `i` the block keeps its bytes.
abbrev SameElsewhere : Bytes → Bytes → ℕ → Type 0
SameElsewhere m m' i =
    (from n : ℕ) → (from + n ≤ i * 44) ⊎ (i * 44 + 44 ≤ from) → SameFrom m' m from n

module _ (m m' : Bytes) (i : ℕ) (same : SameElsewhere m m' i) (j : ℕ) (other : i ≢ j) where
  abbrev beside : (k n : ℕ) → k + n ≤ 44 → (j * 44 + k + n ≤ i * 44) ⊎ (i * 44 + 44 ≤ j * 44 + k)
  beside k n h = elim (dec_lt i j) [ yes p ↦ inr (omega arith) | no p ↦ inl (omega arith) ]

  d_inumber-other : d_inumber m' j ≡ d_inumber m j
  d_inumber-other =
      load_int-SameFrom m' m (d_inumber_at j) (same (d_inumber_at j) 4 (beside 40 4 (omega arith)))

  strcmp-other :
      (name : List ℕ)
      → length name < max_file_name
      → strcmp_eq m' (d_name_at j) name ≡ strcmp_eq m (d_name_at j) name
  strcmp-other name h =
      strcmp_eq-SameFrom m' m (d_name_at j) name
        (same (d_name_at j) (length name + 1) (omega (arith, beside 0 (length name + 1))))

  byte-other : m' (d_name_at j) ≡ m (d_name_at j)
  byte-other =
      same (d_name_at j) 1 (omega (arith, beside 0 1)) (d_name_at j) (omega arith) (omega arith)

clear_entry-SameElsewhere : (m : Bytes) (i : ℕ) → SameElsewhere m (clear_entry m i) i
unfolding clear_entry
clear_entry-SameElsewhere m i from n h a p q =
    write_bytes-SameFrom (store_int m (d_inumber_at i) minus_one) (d_name_at i)
      (replicate max_file_name 0) from n (omega arith) a p q
    ∙ store_int-SameFrom m (d_inumber_at i) minus_one from n (omega arith) a p q

-- The cleared entry is free, and its name is empty.
pub d_inumber-clear_entry_self : (m : Bytes) (i : ℕ) → d_inumber (clear_entry m i) i ≡ minus_one
unfolding clear_entry
d_inumber-clear_entry_self m i =
    load_int-SameFrom (clear_entry m i) (store_int m (d_inumber_at i) minus_one) (d_inumber_at i) (
      write_bytes-SameFrom (store_int m (d_inumber_at i) minus_one) (d_name_at i)
        (replicate max_file_name 0) (d_inumber_at i) 4 (inr (omega arith)))
    ∙ load_int-store_int m (d_inumber_at i) minus_one (omega arith)

pub clear_entry_byte : (m : Bytes) (i : ℕ) → clear_entry m i (d_name_at i) ≡ 0
unfolding clear_entry
clear_entry_byte m i =
    ap (clear_entry m i) (omega arith)
    ∙ write_bytes_in (store_int m (d_inumber_at i) minus_one) (d_name_at i)
        (replicate max_file_name 0) 0 (omega arith)

module _ (m : Bytes) (i j : ℕ) (other : i ≢ j) where
  pub d_inumber-clear_entry_ne : d_inumber (clear_entry m i) j ≡ d_inumber m j
  d_inumber-clear_entry_ne =
      d_inumber-other m (clear_entry m i) i (clear_entry-SameElsewhere m i) j other

  pub strcmp-clear_entry_ne :
      (name : List ℕ)
      → length name < max_file_name
      → strcmp_eq (clear_entry m i) (d_name_at j) name ≡ strcmp_eq m (d_name_at j) name
  strcmp-clear_entry_ne = strcmp-other m (clear_entry m i) i (clear_entry-SameElsewhere m i) j other

  pub clear_entry_byte_ne : clear_entry m i (d_name_at j) ≡ m (d_name_at j)
  clear_entry_byte_ne = byte-other m (clear_entry m i) i (clear_entry-SameElsewhere m i) j other

module _ (m : Bytes) (i : ℕ) (name : List ℕ) (x : ℤ) where
  abbrev numbered : Bytes
  numbered = store_int m (d_inumber_at i) x

  abbrev named : Bytes
  named = write_bytes numbered (d_name_at i) (strncpy_bytes name (max_file_name - 1))

  fill_entry-SameElsewhere : SameElsewhere m (fill_entry m i name x) i
  unfolding fill_entry
  fill_entry-SameElsewhere from n h a p q =
      let l = length-strncpy_bytes name 39 in
      write_bytes-SameFrom named (d_name_at i + 39) (0 ∷ []) from n (omega arith) a p q
      ∙ write_bytes-SameFrom numbered (d_name_at i) (strncpy_bytes name 39) from n (omega arith) a p
          q
      ∙ store_int-SameFrom m (d_inumber_at i) x from n (omega arith) a p q

  -- The Filled entry has the number.
  pub d_inumber-fill_entry_self : InRange x → d_inumber (fill_entry m i name x) i ≡ x
  unfolding fill_entry
  d_inumber-fill_entry_self r =
      let l = length-strncpy_bytes name 39 in
      load_int-SameFrom (fill_entry m i name x) named (d_inumber_at i) (
        write_bytes-SameFrom named (d_name_at i + 39) (0 ∷ []) (d_inumber_at i) 4
          (inr (omega arith)))
      ∙ load_int-SameFrom named numbered (d_inumber_at i) (
          write_bytes-SameFrom numbered (d_name_at i) (strncpy_bytes name 39) (d_inumber_at i) 4
            (inr (omega arith)))
      ∙ load_int-store_int m (d_inumber_at i) x r

  fill_entry_byte :
      (k : ℕ)
      → k ≤ 39
      → length name < max_file_name
      → fill_entry m i name x (d_name_at i + k) ≡ get_or name k 0
  unfolding fill_entry
  fill_entry_byte k h fits = elim (dec_lt k 39) [
    | yes p ↦
        let l = length-strncpy_bytes name 39 in
        write_bytes-SameFrom named (d_name_at i + 39) (0 ∷ []) (d_name_at i + k) 1
          (inl (omega arith)) (d_name_at i + k) (omega arith) (omega arith)
        ∙ write_bytes_in numbered (d_name_at i) (strncpy_bytes name 39) k (omega arith)
        ∙ get_or-strncpy_bytes name 39 k p
    | no p ↦
        let e : k ≡ 39 = omega arith in
        rw (e, get_or_of_ge name 39 0 (omega arith))
          (ap (fill_entry m i name x) (omega arith)
            ∙ write_bytes_in named (d_name_at i + 39) (0 ∷ []) 0 (omega arith))
  ]

  -- The Filled entry has the name.
  pub strcmp-fill_entry_self :
      length name < max_file_name → strcmp_eq (fill_entry m i name x) (d_name_at i) name ≡ true
  strcmp-fill_entry_self fits =
      strcmp_eq_of_bytes (fill_entry m i name x) (d_name_at i) name
        (λ k h. fill_entry_byte k (omega arith) fits)

  module _ (j : ℕ) (other : i ≢ j) where
    pub d_inumber-fill_entry_ne : d_inumber (fill_entry m i name x) j ≡ d_inumber m j
    d_inumber-fill_entry_ne =
        d_inumber-other m (fill_entry m i name x) i fill_entry-SameElsewhere j other

    pub strcmp-fill_entry_ne :
        (t : List ℕ)
        → length t < max_file_name
        → strcmp_eq (fill_entry m i name x) (d_name_at j) t ≡ strcmp_eq m (d_name_at j) t
    strcmp-fill_entry_ne = strcmp-other m (fill_entry m i name x) i fill_entry-SameElsewhere j other

    pub fill_entry_byte_ne : fill_entry m i name x (d_name_at j) ≡ m (d_name_at j)
    fill_entry_byte_ne = byte-other m (fill_entry m i name x) i fill_entry-SameElsewhere j other
