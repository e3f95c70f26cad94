-- ===== src/Fs/Write/Call.antt =====
-- tfs_write in a well formed state: the bytes that fit go into the file at the handle's offset.
use proj_so.Prelude.{
  ℕ, ◌+◌, ◌-◌, ◌^◌, ◌≤◌, ◌<◌, ◌≡◌, refl, sym, ap, ◌∙◌, ◌≢◌, ◌⊎◌, inl, inr, true, false, List, [],
  ◌++◌, some, arith, ltb, ltb→lt, ℕ_discrete, Bool-cases, Found, update_self, length, take, drop,
  min, length-take, take-append-drop, ℤ, pos, minus_one, index, add_size, to_ssize-pos, ok,
}
use proj_so.Fs.Memory.{Bytes, read_bytes}
use proj_so.Fs.Memory.Laws.{overwrite, read_bytes-overwrite, read_bytes-zero}
use proj_so.Fs.State.{Tfs, OpenFileEntry, state_block_size}
use proj_so.Fs.Directory.Entries.{IsFileName}
use proj_so.Fs.Mutex.{Mutex, locked-ok}
use proj_so.Fs.Operations.{clip, write_at, tfs_write_body, tfs_write}
use proj_so.Fs.Invariant.{
  block_of, IsFileInode, IsFileInode-lt, IsValid, relock-IsValid, lookup, contents, view,
}
use proj_so.Fs.Lookup.{IsOpen, get_open_file_entry-open, inode_get-ok}
use proj_so.Fs.Rewrite.{
  Written, written, handle_after, Owns, written-IsValid, contents-written_self, lookup-written,
  view-written_ne,
}
use proj_so.Fs.Write.{
  free_block, offset_of, size_of, in_old, in_new, put, grown, write_at-old, write_at-new,
  in_old-Owns, in_new-Owns, add_size-exact,
}

pub clip-min :
    (block_size offset n : ℕ)
    → offset ≤ block_size
    → block_size < 2 ^ 62
    → n < 2 ^ 62
    → clip block_size offset n ≡ min n (block_size - offset)
clip-min block_size offset n p q r = ground arith

-- The number of bytes that tfs_write writes.
abbrev pub count : Tfs → ℕ → ℕ → ℕ
count s h len = min len (s.fs_params.block_size - offset_of s h)

abbrev pub inum_of : Tfs → ℕ → ℤ
inum_of s h = (s.open_file_table h).of_inumber

-- There is a block for the bytes: the file's, or a free one.
abbrev pub HasBlock : Tfs → ℕ → Type 0
HasBlock s i = (0 < size_of s i) ⊎ ((b : ℕ) × Found s.fs_params.max_block_count (free_block s) b)

-- What tfs_write does to the state.
pub record Wrote (s s' : Tfs) (h : ℕ) (bytes : List ℕ) : Type 0 where
  pub valid : IsValid s'
  pub mutex : s'.library_mutex ≡ s.library_mutex
  pub params : s'.fs_params ≡ s.fs_params
  pub handles : s'.free_open_file_entries ≡ s.free_open_file_entries
  pub offset : offset_of s' h ≡ offset_of s h + length bytes
  pub numbers : (t : List ℕ) → lookup s' t ≡ lookup s t
  pub file :
      contents s' (index (inum_of s h))
      ≡ overwrite (contents s (index (inum_of s h))) (offset_of s h) bytes
  pub others : (t : List ℕ) → IsFileName t → lookup s t ≢ some (inum_of s h) → view s' t ≡ view s t

overwrite-nil : (xs : List ℕ) (at : ℕ) → overwrite xs at [] ≡ xs
overwrite-nil xs at =
    let e : at + 0 ≡ at = omega arith in
    ap (λ (k : ℕ). take at xs ++ drop k xs) e ∙ take-append-drop at xs

module _ (s : Tfs) (v : IsValid s) (h : ℕ) (open_handle : IsOpen s h) (buffer : List ℕ) (len : ℕ)
    (given : len ≤ length buffer) (small : len < 2 ^ 62) where
  abbrev x : ℤ
  x = inum_of s h

  abbrev n : ℕ
  n = count s h len

  f : IsFileInode s x
  f = v.linked.handles h open_handle.below open_handle.in_use

  offset-le : offset_of s h ≤ size_of s (index x)
  offset-le = v.linked.offsets h open_handle.below open_handle.in_use

  size-le : size_of s (index x) ≤ s.fs_params.block_size
  size-le = v.blocks.sizes (index x) (IsFileInode-lt x f) f.in_use

  clipped : clip s.fs_params.block_size (offset_of s h) len ≡ n
  clipped =
      clip-min s.fs_params.block_size (offset_of s h) len (omega (arith, offset-le, size-le))
        v.root.block_fits small

  length-bytes : length (take n buffer) ≡ n
  length-bytes = omega (arith, length-take n buffer)

  written-Wrote :
      (w : Written)
      → Owns s (index x) w
      → w.offset ≡ offset_of s h + n
      → read_bytes w.bytes 0 w.size
        ≡ overwrite (contents s (index x)) (offset_of s h) (take n buffer)
      → Wrote s (written s h (index x) w) h (take n buffer)
  written-Wrote w o e bytes = record {
    valid = written-IsValid s v h x f w o refl;
    mutex = refl;
    params = refl;
    handles = refl;
    offset =
        ap (λ (entry : OpenFileEntry). entry.of_offset)
          (update_self s.open_file_table h (handle_after s h w))
        ∙ e
        ∙ ap (λ (k : ℕ). offset_of s h + k) (sym length-bytes);
    numbers = lookup-written s v h x f w o refl;
    file = contents-written_self s v h x f w o refl ∙ bytes;
    others = view-written_ne s v h x f w o refl;
  }

  nothing-Wrote : n ≡ 0 → Wrote s s h (take n buffer)
  nothing-Wrote e = record {
    valid = v;
    mutex = refl;
    params = refl;
    handles = refl;
    offset = omega (arith, length-bytes);
    numbers = λ t. refl;
    file = sym (rw e (overwrite-nil (contents s (index x)) (offset_of s h)));
    others = λ t g ne. refl;
  }

  advanced : add_size (offset_of s h) n ≡ offset_of s h + n
  advanced = add_size-exact (offset_of s h) n (omega (arith, offset-le, size-le, v.root.block_fits))

  -- The bytes of a block after the write, up to the new size.
  overwritten :
      (m : Bytes)
      → read_bytes
          (put m (offset_of s h) buffer n)
          0
          (grown (size_of s (index x)) (add_size (offset_of s h) n))
        ≡ overwrite (read_bytes m 0 (size_of s (index x))) (offset_of s h) (take n buffer)
  overwritten m =
      read_bytes-overwrite m (offset_of s h) (size_of s (index x))
        (grown (size_of s (index x)) (add_size (offset_of s h) n)) (take n buffer) offset-le
        (ground (arith, advanced, length-bytes))

  module _ (some_bytes : 0 < n) where
    inside : offset_of s h + n ≤ s.fs_params.block_size
    inside = omega (arith, offset-le, size-le)

    write_old :
        0 < size_of s (index x)
        → (s' : Tfs) × (write_at h (index x) buffer n s ≡ ok (pos n) s')
          × Wrote s s' h (take n buffer)
    write_old full = (
      written s h (index x) (in_old s h (index x) buffer n),
      write_at-old s h (index x) buffer n inside (omega arith) (omega arith) (ground arith)
          (v.blocks.valid (index x) (IsFileInode-lt x f) f.in_use full),
      written-Wrote (in_old s h (index x) buffer n)
          (in_old-Owns s v h x f buffer n inside some_bytes full) advanced
          (overwritten (s.fs_data (block_of s (index x)))),
    )

    write_new :
        size_of s (index x) ≡ 0
        → (b : ℕ) → Found s.fs_params.max_block_count (free_block s) b
        → (s' : Tfs) × (write_at h (index x) buffer n s ≡ ok (pos n) s')
          × Wrote s s' h (take n buffer)
    write_new empty b found = (
      written s h (index x) (in_new s h (index x) b buffer n),
      write_at-new s h (index x) buffer n inside (omega arith) (omega arith) b v.root (ground arith)
          found,
      written-Wrote (in_new s h (index x) b buffer n)
          (in_new-Owns s v h x f buffer n inside some_bytes b found) advanced
          (overwritten (s.fs_data b)
            ∙ ap (λ r. overwrite r (offset_of s h) (take n buffer))
                (rw (empty, read_bytes-zero, read_bytes-zero) refl)),
    )

  pub tfs_write_body-ok :
      HasBlock s (index x)
      → (s' : Tfs) × (tfs_write_body (pos h) buffer len s ≡ ok (pos n) s')
        × Wrote s s' h (take n buffer)
  unfolding tfs_write_body state_block_size
  tfs_write_body-ok room =
      rw (get_open_file_entry-open s h open_handle, inode_get-ok s x f.valid, clipped)
        (elim (Bool-cases (ltb 0 n)) [
          | inl more ↦ rw more (elim (ℕ_discrete (size_of s (index x)) 0) [
            | yes empty ↦ elim room [
              | inl full ↦ absurd (omega arith)
              | inr (b, found) ↦ write_new (ltb→lt 0 n more) empty b found
            ]
            | no full ↦ write_old (ltb→lt 0 n more) (omega arith)
          ])
          | inr done ↦
              let zero_bytes : n ≡ 0 = ground arith in
              rw (done, to_ssize-pos n (omega arith)) (s, refl, nothing-Wrote zero_bytes)
        ])

-- tfs_write to an open handle, with a buffer that holds the `len` bytes and a block for them, writes
-- the bytes that fit into the block behind the handle's offset and returns their number: the file's
-- bytes are overwritten from the offset on, the offset moves behind them, the directory and every
-- other file stay as they are, the state stays well formed and the mutex is free again.
pub tfs_write-writes :
    (mutex : Mutex) (s : Tfs) (h : ℕ) (buffer : List ℕ) (len : ℕ)
    → IsValid s
    → s.library_mutex ≡ false
    → IsOpen s h
    → len ≤ length buffer
    → len < 2 ^ 62
    → HasBlock s (index (inum_of s h))
    → (s' : Tfs) × (tfs_write mutex (pos h) buffer len s ≡ ok (pos (count s h len)) s')
      × Wrote s s' h (take (count s h len) buffer)
unfolding tfs_write
tfs_write-writes mutex s h buffer len v free_mutex open_handle given small room =
    let r : Tfs = record s { library_mutex = true } in
    let w : IsValid r = relock-IsValid true v in
    let o : IsOpen r h = record { below = open_handle.below; in_use = open_handle.in_use } in
    let (s', run, done) = tfs_write_body-ok r w h o buffer len given small room in
    (
      record s' { library_mutex = false },
      locked-ok mutex minus_one (tfs_write_body (pos h) buffer len) s s' (pos (count s h len))
          free_mutex run done.mutex,
      record {
        valid = relock-IsValid {s = s'} false done.valid;
        mutex = sym free_mutex;
        params = done.params;
        handles = done.handles;
        offset = done.offset;
        numbers = done.numbers;
        file = done.file;
        others = done.others;
      },
    )
