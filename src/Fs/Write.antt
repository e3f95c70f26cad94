-- ===== src/Fs/Write.antt =====
-- write_at, the part of tfs_write behind its tests, in a well formed state: where the file has a
-- block, and where it gets one.
pub mod Call
use proj_so.Prelude.{
  ℕ, zero, suc, ◌+◌, ◌-◌, ◌^◌, ◌≤◌, ◌<◌, ◌≡◌, refl, sym, ap, ◌∙◌, ◌≢◌, ◌⊎◌, inl, inr, Bool, true,
  false, not, List, Option, none, some, arith, ltb, lt→ltb, leb, ◌==◌, if◌then◌else◌, ℕ_discrete,
  Found, find_index, find_index_of_Found, update, update_self, update_ne, fun_ext, length, take,
  min, length-take, ℤ, pos, minus_one, index, to_int, to_int-pos, to_ssize, to_ssize-pos, add_size,
  ok, and_then, ◌>>=◌, ◌>>◌,
}
use proj_so.Fs.Memory.{Bytes, write_bytes, read_bytes}
use proj_so.Fs.State.{Tfs, Inode, OpenFileEntry, taken, is_free, valid_block_number}
use proj_so.Fs.Blocks.{data_block_alloc, data_block_get}
use proj_so.Fs.Operations.{write_at, ensure_block, copy_in, advance}
use proj_so.Fs.Invariant.{
  Filled, block_of, IsFileInode, IsFileInode-lt, HasRoot, IsValid, block_not_root,
}
use proj_so.Fs.Lookup.{data_block_get-ok}
use proj_so.Fs.Open.{update_twice}
use proj_so.Fs.Rewrite.{Written, written, Owns}

abbrev pub free_block : Tfs → ℕ → Bool
free_block s b = is_free (s.free_blocks b)

abbrev pub offset_of : Tfs → ℕ → ℕ
offset_of s h = (s.open_file_table h).of_offset

abbrev pub size_of : Tfs → ℕ → ℕ
size_of s i = (s.inode_table i).i_size

-- `if (file->of_offset > inode->i_size) inode->i_size = file->of_offset;`
abbrev pub grown : ℕ → ℕ → ℕ
grown size offset = if ltb size offset then offset else size

abbrev pub put : Bytes → ℕ → List ℕ → ℕ → Bytes
put m offset buffer n = write_bytes m offset (take n buffer)

-- What a write to a file with a block changes, and what one to an empty file does.
abbrev pub in_old : Tfs → ℕ → ℕ → List ℕ → ℕ → Written
in_old s h i buffer n = record {
  size = grown (size_of s i) (add_size (offset_of s h) n);
  block = (s.inode_table i).i_data_block;
  bytes = put (s.fs_data (block_of s i)) (offset_of s h) buffer n;
  blocks = s.free_blocks;
  offset = add_size (offset_of s h) n;
}

abbrev pub in_new : Tfs → ℕ → ℕ → ℕ → List ℕ → ℕ → Written
in_new s h i b buffer n = record {
  size = grown (size_of s i) (add_size (offset_of s h) n);
  block = pos b;
  bytes = put (s.fs_data b) (offset_of s h) buffer n;
  blocks = update s.free_blocks b taken;
  offset = add_size (offset_of s h) n;
}

pub data_block_alloc-ok :
    (s : Tfs) (b : ℕ)
    → s.fs_params.max_block_count ≤ 2 ^ 31
    → Found s.fs_params.max_block_count (free_block s) b
    → data_block_alloc s ≡ ok (pos b) (record s { free_blocks = update s.free_blocks b taken })
unfolding data_block_alloc
data_block_alloc-ok s b fit found =
    rw (find_index_of_Found s.fs_params.max_block_count (free_block s) found, data_block_alloc)
      (rw (to_int-pos b (omega (arith, found.below))))

copy_in-ok :
    (s : Tfs) (b offset : ℕ) (buffer : List ℕ) (n : ℕ)
    → offset + n ≤ s.fs_params.block_size
    → n ≤ length buffer
    → copy_in b offset buffer n s
      ≡ ok tt (record s { fs_data = update s.fs_data b (put (s.fs_data b) offset buffer n) })
unfolding copy_in
copy_in-ok s b offset buffer n p q = ground arith

module _ (s : Tfs) (h i : ℕ) (buffer : List ℕ) (n : ℕ)
    (inside : offset_of s h + n ≤ s.fs_params.block_size) (given : n ≤ length buffer)
    (small : n < 2 ^ 63) where
  -- The handle's entry once it is advanced.
  abbrev moved : OpenFileEntry
  moved = record (s.open_file_table h) { of_offset = add_size (offset_of s h) n }

  pub write_at-old :
      (size_of s i == 0) ≡ false
      → valid_block_number s (s.inode_table i).i_data_block ≡ true
      → write_at h i buffer n s ≡ ok (pos n) (written s h i (in_old s h i buffer n))
  unfolding write_at ensure_block
  write_at-old full valid = rw full (
      rw (data_block_get-ok s (s.inode_table i).i_data_block valid) (
        rw (copy_in-ok s (block_of s i) (offset_of s h) buffer n inside given)
          (rw (update_self s.open_file_table h moved, to_ssize-pos n small) refl)))

  pub write_at-new :
      (b : ℕ)
      → HasRoot s
      → (size_of s i == 0) ≡ true
      → Found s.fs_params.max_block_count (free_block s) b
      → write_at h i buffer n s ≡ ok (pos n) (written s h i (in_new s h i b buffer n))
  unfolding write_at ensure_block
  write_at-new b r empty found =
      let node : Inode = record (s.inode_table i) { i_data_block = pos b } in
      let s' : Tfs = record s {
        inode_table = update s.inode_table i node;
        free_blocks = update s.free_blocks b taken;
      } in
      let size : ℕ = grown (size_of s i) (add_size (offset_of s h) n) in
      rw empty (
        rw (data_block_alloc-ok s b r.blocks_fit found) (
          rw (update_self s.inode_table i node) (
            rw (data_block_get-ok s' (pos b) (lt→ltb _ _ found.below)) (
              rw (copy_in-ok s' b (offset_of s h) buffer n inside given) (
                rw
                  (
                    update_self s.open_file_table h moved,
                    update_self s.inode_table i node,
                    update_twice s.inode_table i node (record node { i_size = size }),
                    to_ssize-pos n small,
                  )
                  refl)))))

-- The numbers in which the code computes, without wrapping.
pub add_size-exact : (a b : ℕ) → a + b < 2 ^ 63 → add_size a b ≡ a + b
add_size-exact a b h = omega arith

-- Both cases keep what a write must keep.
module _ (s : Tfs) (v : IsValid s) (h : ℕ) (x : ℤ) (f : IsFileInode s x) (buffer : List ℕ) (n : ℕ)
    (inside : offset_of s h + n ≤ s.fs_params.block_size) (some_bytes : 0 < n) where
  grown-le : grown (size_of s (index x)) (add_size (offset_of s h) n) ≤ s.fs_params.block_size
  grown-le = ground (
    arith,
    v.blocks.sizes (index x) (IsFileInode-lt x f) f.in_use,
    add_size-exact (offset_of s h) n (omega (arith, v.root.block_fits)),
  )

  grown-ge : size_of s (index x) ≤ grown (size_of s (index x)) (add_size (offset_of s h) n)
  grown-ge = ground arith

  offset-le : add_size (offset_of s h) n ≤ grown (size_of s (index x)) (add_size (offset_of s h) n)
  offset-le = ground arith

  pub in_old-Owns : Filled s (index x) → Owns s (index x) (in_old s h (index x) buffer n)
  in_old-Owns full = record {
    valid = v.blocks.valid (index x) (IsFileInode-lt x f) f.in_use full;
    not_root = block_not_root s v x f full;
    alone = λ k p t q ne e.
        ne (v.blocks.apart (index x) k (IsFileInode-lt x f) p f.in_use t full q (sym e));
    taken = v.blocks.in_use (index x) (IsFileInode-lt x f) f.in_use full;
    keeps = λ c q. q;
    fits = grown-le;
    grows = grown-ge;
    inside = offset-le;
  }

  pub in_new-Owns :
      (b : ℕ)
      → Found s.fs_params.max_block_count (free_block s) b
      → Owns s (index x) (in_new s h (index x) b buffer n)
  in_new-Owns b found = record {
    valid = lt→ltb _ _ found.below;
    not_root = λ e.
        let r = v.root in
        let p =
          v.blocks.in_use 0 r.root_there r.root_taken (omega (arith, r.root_size, r.block_there)) in
        taken_not_free 0 (rw r.root_block at p) e;
    alone = λ k p t q ne e. taken_not_free (block_of s k) (v.blocks.in_use k p t q) e;
    taken = ap is_free (update_self s.free_blocks b taken);
    keeps = λ c q. ground arith;
    fits = grown-le;
    grows = grown-ge;
    inside = offset-le;
  }
    where
      taken_not_free : (c : ℕ) → is_free (s.free_blocks c) ≡ false → c ≡ b → ⊥
      taken_not_free c q e = let p : is_free (s.free_blocks c) ≡ true = rw e found.passes in cc
