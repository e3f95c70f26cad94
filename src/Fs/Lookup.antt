-- ===== src/Fs/Lookup.antt =====
-- What the calls that only read return in a well formed state: inode_get, tfs_lookup and
-- data_block_get.
use proj_so.Prelude.{
  inl, inr, ℕ, suc, ◌<◌, ◌≡◌, refl, true, false, List, ◌∷◌, Option, none, some, arith, lt→ltb,
  Option-cases, length, ℤ, pos, minus_one, index, ok, always_assert, find_index,
}
use proj_so.Fs.State.{
  is_free, Tfs, root_dir_inum, valid_inumber, valid_block_number, max_dir_entries,
}
use proj_so.Fs.Blocks.{data_block_get}
use proj_so.Fs.Inodes.{inode_get}
use proj_so.Fs.OpenFiles.{get_open_file_entry}
use proj_so.Fs.Directory.{find_in_dir}
use proj_so.Fs.Directory.Entries.{IsFileName}
use proj_so.Fs.Operations.{slash, valid_pathname, tfs_lookup}
use proj_so.Fs.Invariant.{HasRoot, lookup, root_entries}
use proj_so.Fs.Directory.Layout.{find_test}

pub inode_get-ok : (s : Tfs) (x : ℤ) → valid_inumber s x ≡ true → inode_get x s ≡ ok (index x) s
unfolding inode_get
inode_get-ok s x h = rw (h, always_assert)

pub data_block_get-ok :
    (s : Tfs) (x : ℤ) → valid_block_number s x ≡ true → data_block_get x s ≡ ok (index x) s
unfolding data_block_get
data_block_get-ok s x h = rw (h, always_assert)

abbrev pub or_minus_one : Option ℤ → ℤ
or_minus_one none = minus_one
or_minus_one (some x) = x

abbrev pub path : List ℕ → List ℕ
path name = slash ∷ name

pub valid_pathname-path : (name : List ℕ) → IsFileName name → valid_pathname (path name) ≡ true
valid_pathname-path name f = rw (lt→ltb 1 (suc (length name)) (omega (arith, f.some_byte)))

module _ (s : Tfs) (r : HasRoot s) where
  pub inode_get-root : inode_get root_dir_inum s ≡ ok 0 s
  inode_get-root = inode_get-ok s root_dir_inum (lt→ltb _ _ r.root_there)

  -- tfs_lookup returns the number that the root directory holds for the name, or -1.
  pub tfs_lookup-path :
      (name : List ℕ)
      → IsFileName name
      → tfs_lookup (path name) 0 s ≡ ok (or_minus_one (lookup s name)) s
  unfolding tfs_lookup find_in_dir
  tfs_lookup-path name f =
      rw
        (
          valid_pathname-path name f,
          r.root_type,
          r.root_block,
          data_block_get-ok s (pos 0) (lt→ltb _ _ r.block_zero),
        )
        (elim (Option-cases (find_index (max_dir_entries s) (find_test (root_entries s) name))) [
          | inl e ↦ rw e
          | inr (j, e) ↦ rw e
        ])

-- A handle that is open.
pub record IsOpen (s : Tfs) (h : ℕ) : Type 0 where
  pub below : h < s.fs_params.max_open_files_count
  pub in_use : is_free (s.free_open_file_entries h) ≡ false

pub get_open_file_entry-open :
    (s : Tfs) (h : ℕ) → IsOpen s h → get_open_file_entry (pos h) s ≡ ok (some h) s
unfolding get_open_file_entry
get_open_file_entry-open s h o =
    rw (lt→ltb _ _ o.below, get_open_file_entry) (rw (o.in_use, get_open_file_entry) refl)
