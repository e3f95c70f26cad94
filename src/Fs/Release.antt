-- ===== src/Fs/Release.antt =====
-- inode_delete in a well formed state: it frees the inode and the block that it owns, and keeps the
-- other inodes and their blocks.
use proj_so.Prelude.{
  ℕ, ◌<◌, ◌≡◌, refl, sym, ap, ◌∙◌, ◌≢◌, inl, inr, arith, ltb, ltb→lt, if◌then◌else◌, Bool-cases,
  update, update_ne, ℤ, pos, index, ok, always_assert,
}
use proj_so.Fs.State.{Tfs, AllocationState, free, is_free}
use proj_so.Fs.Blocks.{data_block_free}
use proj_so.Fs.Inodes.{inode_delete}
use proj_so.Fs.Invariant.{
  InodeTaken, Filled, block_of, IsFileInode, IsFileInode-pos, IsFileInode-lt, BlocksOwned,
}

-- The state after `data_block_free(block)`, if there is a block to free.
abbrev pub blocks_after : Tfs → ℕ → ℕ → AllocationState
blocks_after s i =
    if ltb 0 (s.inode_table i).i_size
    then update s.free_blocks (block_of s i) free
    else s.free_blocks

-- The state after inode_delete of inode `i`.
abbrev pub deleted : Tfs → ℕ → Tfs
deleted s i = record s {
  freeinode_ts = update s.freeinode_ts i free;
  free_blocks = blocks_after s i;
}

module _ (s : Tfs) (x : ℤ) (owned : BlocksOwned s) (f : IsFileInode s x) where
  -- inode_delete frees the inode, and its block exactly if the file has contents.
  pub inode_delete-ok : inode_delete x s ≡ ok tt (deleted s (index x))
  unfolding inode_delete data_block_free
  inode_delete-ok = elim (Bool-cases (ltb 0 (s.inode_table (index x)).i_size)) [
    | inl p ↦
        let v = owned.valid (index x) (IsFileInode-lt x f) f.in_use (ltb→lt 0 _ p) in
        rw (f.valid, always_assert)
          (rw (f.in_use, always_assert) (rw p (rw (v, always_assert) refl)))
    | inr p ↦ rw (f.valid, always_assert) (rw (f.in_use, always_assert) (rw p refl))
  ]

  taken_after : (i : ℕ) → InodeTaken (deleted s (index x)) i → (index x ≢ i) × InodeTaken s i
  taken_after i t = ground arith

  block_kept :
      (i : ℕ)
      → i < s.fs_params.max_inode_count
      → InodeTaken s i
      → Filled s i
      → index x ≢ i
      → blocks_after s (index x) (block_of s i) ≡ s.free_blocks (block_of s i)
  block_kept i h t q ne = ground (arith, owned.apart (index x) i (IsFileInode-lt x f) h f.in_use t)

  pub deleted-BlocksOwned : BlocksOwned (deleted s (index x))
  deleted-BlocksOwned = record {
    sizes = λ i h t. owned.sizes i h (taken_after i t).1;
    valid = λ i h t q. owned.valid i h (taken_after i t).1 q;
    in_use = λ i h t q.
        let (ne, old) = taken_after i t in
        ap is_free (block_kept i h old q ne) ∙ owned.in_use i h old q;
    apart = λ i j hi hj ti tj qi qj e.
        owned.apart i j hi hj (taken_after i ti).1 (taken_after j tj).1 qi qj e;
  }

  -- Another file stays one.
  pub deleted-IsFileInode : (y : ℤ) → IsFileInode s y → y ≢ x → IsFileInode (deleted s (index x)) y
  deleted-IsFileInode y g ne = record {
    valid = g.valid;
    in_use = ap is_free (update_ne s.freeinode_ts (index x) free (index y) apart) ∙ g.in_use;
    file = g.file;
  }
    where
      apart : index x ≢ index y
      apart e = ne (IsFileInode-pos y g ∙ ap pos (sym e) ∙ sym (IsFileInode-pos x f))
