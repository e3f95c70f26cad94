-- ===== src/Fs/Rollback.antt =====
-- tfs_open that creates a file in a directory that is full: it takes the inode back.
use proj_so.Prelude.{
  ℕ, ◌-◌, ◌≡◌, refl, sym, ap, ◌∙◌, inl, inr, true, false, List, none, some, arith, ltb, lt→ltb,
  ◌==◌, Option-cases, length, update_ne, Found, find_index, ℤ, pos, minus_one, index, ok,
}
use proj_so.Fs.State.{Tfs, free, is_free, max_dir_entries, max_file_name}
use proj_so.Fs.Directory.{add_dir_entry}
use proj_so.Fs.Directory.Entries.{IsFileName}
use proj_so.Fs.Directory.Layout.{unused}
use proj_so.Fs.Mutex.{Mutex, locked-ok}
use proj_so.Fs.Operations.{has_flag, tfs_o_creat, open_new, tfs_open_body, tfs_open}
use proj_so.Fs.Invariant.{
  root_entries, IsFileInode, HasRoot, IsValid, relock-IsValid, lookup, view, lookup-IsFileInode,
}
use proj_so.Fs.Lookup.{
  path, valid_pathname-path, inode_get-root, tfs_lookup-path, data_block_get-ok,
}
use proj_so.Fs.Update.{
  with_file, with_file-IsValid, with_file-IsFileInode, with_file-stays, contents-with_file,
  file_elsewhere, not_root,
}
use proj_so.Fs.Release.{deleted, inode_delete-ok, deleted-BlocksOwned, deleted-IsFileInode}
use proj_so.Fs.Open.{free_inode, inode_create-file}

add_dir_entry-full :
    (s : Tfs) (name : List ℕ) (x : ℤ)
    → HasRoot s
    → IsFileName name
    → find_index (max_dir_entries s) (unused (root_entries s)) ≡ none
    → add_dir_entry 0 name x s ≡ ok minus_one s
unfolding add_dir_entry
add_dir_entry-full s name x r f full =
    let nonempty : (length name == 0) ≡ false = ground (arith, f.some_byte) in
    let short : ltb (max_file_name - 1) (length name) ≡ false = ground (arith, f.fits) in
    rw
      (
        nonempty,
        short,
        r.root_type,
        r.root_block,
        data_block_get-ok s (pos 0) (lt→ltb _ _ r.block_zero),
      )
      (rw full refl)

-- The state after the inode is taken back.
abbrev rolled_back : Tfs → ℕ → Tfs
rolled_back s i = deleted (with_file s i) i

module _ (s : Tfs) (v : IsValid s) (i : ℕ)
    (room : Found s.fs_params.max_inode_count (free_inode s) i) where
  first : IsValid (with_file s i)
  first = with_file-IsValid s v i room.passes

  born : IsFileInode (with_file s i) (pos i)
  born = with_file-IsFileInode s v i room.passes room.below

  file_kept : (y : ℤ) → IsFileInode s y → IsFileInode (rolled_back s i) y
  file_kept y f =
      deleted-IsFileInode (with_file s i) (pos i) first.blocks born y
        (with_file-stays s v i room.passes y f)
        (λ e. file_elsewhere s v i room.passes y f (sym (ap index e)))

  rolled_back-HasRoot : HasRoot (rolled_back s i)
  rolled_back-HasRoot = record {
    alive = r.alive;
    inodes_fit = r.inodes_fit;
    blocks_fit = r.blocks_fit;
    opens_fit = r.opens_fit;
    block_fits = r.block_fits;
    block_there = r.block_there;
    root_there = r.root_there;
    block_zero = r.block_zero;
    root_taken =
        ap is_free (update_ne (with_file s i).freeinode_ts i free 0 (not_root s v i room.passes))
        ∙ r.root_taken;
    root_type = r.root_type;
    root_size = r.root_size;
    root_block = r.root_block;
  }
    where
      r : HasRoot (with_file s i)
      r = first.root

  rolled_back-IsValid : IsValid (rolled_back s i)
  rolled_back-IsValid = record {
    root = rolled_back-HasRoot;
    blocks = deleted-BlocksOwned (with_file s i) (pos i) first.blocks born;
    directory = v.directory;
    linked = record {
      entries = λ j h u. file_kept _ (v.linked.entries j h u);
      handles = λ h p q. file_kept _ (v.linked.handles h p q);
      offsets = first.linked.offsets;
    };
  }

  view-rolled_back : (t : List ℕ) → IsFileName t → view (rolled_back s i) t ≡ view s t
  view-rolled_back t f = elim (Option-cases (lookup s t)) [
    | inl e ↦ rw e refl
    | inr (y, e) ↦
        rw e (ap some (contents-with_file s v i room.passes y (lookup-IsFileInode s v t f y e)))
  ]

  tfs_open_body-full :
      (name : List ℕ) (mode : ℕ)
      → IsFileName name
      → lookup s name ≡ none
      → has_flag mode tfs_o_creat ≡ true
      → find_index (max_dir_entries s) (unused (root_entries s)) ≡ none
      → tfs_open_body (path name) mode s ≡ ok minus_one (rolled_back s i)
  unfolding tfs_open_body open_new
  tfs_open_body-full name mode file absent flag full =
      rw
        (
          valid_pathname-path name file,
          inode_get-root s v.root,
          tfs_lookup-path s v.root name file,
          absent,
        )
        (rw flag (
          rw
            (
              inode_create-file s i v.root room,
              add_dir_entry-full (with_file s i) name (pos i) first.root file full,
              inode_delete-ok (with_file s i) (pos i) first.blocks born,
            )
            refl))

-- tfs_open with TFS_O_CREAT of a name that is not there, when the directory has no free entry, returns
-- -1 and takes the new inode back: the state stays well formed, the mutex is free again, the inode is
-- free again, and no file changes.
pub tfs_open-full :
    (mutex : Mutex) (s : Tfs) (name : List ℕ) (mode i : ℕ)
    → IsValid s
    → s.library_mutex ≡ false
    → IsFileName name
    → lookup s name ≡ none
    → has_flag mode tfs_o_creat ≡ true
    → Found s.fs_params.max_inode_count (free_inode s) i
    → find_index (max_dir_entries s) (unused (root_entries s)) ≡ none
    → (s' : Tfs) × (tfs_open mutex (path name) mode s ≡ ok minus_one s')
      × IsValid s'
      × (s'.library_mutex ≡ false)
      × ((k : ℕ) → free_inode s' k ≡ free_inode s k)
      × ((t : List ℕ) → IsFileName t → view s' t ≡ view s t)
unfolding tfs_open
tfs_open-full mutex s name mode i v unlocked file absent flag room full =
    let r : Tfs = record s { library_mutex = true } in
    let w : IsValid r = relock-IsValid true v in
    let room' : Found r.fs_params.max_inode_count (free_inode r) i = record {
      below = room.below;
      passes = room.passes;
      first = room.first;
    } in
    (
      record (rolled_back r i) { library_mutex = false },
      locked-ok mutex minus_one (tfs_open_body (path name) mode) s (rolled_back r i) minus_one
          unlocked (tfs_open_body-full r w i room' name mode file absent flag full) refl,
      relock-IsValid {s = rolled_back r i} false (rolled_back-IsValid r w i room'),
      refl,
      λ k. ground (arith, room.passes),
      view-rolled_back r w i room',
    )
