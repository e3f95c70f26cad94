-- ===== src/Fs/Unlink.antt =====
-- tfs_unlink in a well formed state.
use proj_so.Prelude.{
  ℕ, ◌≡◌, refl, sym, ap, ◌∙◌, ◌≢◌, inl, inr, true, false, List, none, some, lt→ltb, Option-cases,
  update, ltb, if◌then◌else◌, update_ne, update_self, find_index, ℤ, pos, minus_one, index, ok,
}
use proj_so.Fs.Memory.Laws.{read_bytes_cong}
use proj_so.Fs.State.{Tfs, free, is_free, max_dir_entries}
use proj_so.Fs.Directory.{d_inumber, clear_entry, clear_dir_entry}
use proj_so.Fs.Directory.Entries.{IsFileName, d_inumber-clear_entry_ne}
use proj_so.Fs.Directory.Layout.{
  Listed, clear_test, clear_index-Listed, clear_entry-IsDirectory, used_after-clear,
}
use proj_so.Fs.Directory.Find.{
  Listed-of_lookup, dir_lookup-Listed, dir_lookup-clear_self, dir_lookup-clear_ne,
}
use proj_so.Fs.Mutex.{Mutex, locked-ok}
use proj_so.Fs.Operations.{tfs_unlink_body, tfs_unlink}
use proj_so.Fs.Invariant.{
  block_of, root_entries, IsFileInode, IsFileInode-ne_root, IsFileInode-number, BlocksOwned,
  HasRoot, IsLinked, IsValid, relock-IsValid, lookup, contents, view, NotOpen, block_not_root,
  lookup-IsFileInode,
}
use proj_so.Fs.Lookup.{
  IsOpen, path, valid_pathname-path, inode_get-root, tfs_lookup-path, data_block_get-ok,
}
use proj_so.Fs.Update.{with_entries, with_entries-HasRoot}
use proj_so.Fs.Release.{deleted, inode_delete-ok, deleted-BlocksOwned, deleted-IsFileInode}

-- The state after tfs_unlink of entry `j`, which has the inode `i`.
abbrev pub unlinked : Tfs → ℕ → ℕ → Tfs
unlinked s i j = with_entries (deleted s i) (clear_entry (root_entries s) j)

module _ (s : Tfs) (r : HasRoot s) (name : List ℕ) where
  clear_dir_entry-ok :
      (j : ℕ)
      → find_index (max_dir_entries s) (clear_test (root_entries s) name) ≡ some j
      → clear_dir_entry 0 name s ≡ ok (pos 0) (with_entries s (clear_entry (root_entries s) j))
  unfolding clear_dir_entry
  clear_dir_entry-ok j h =
      rw (r.root_type, r.root_block, data_block_get-ok s (pos 0) (lt→ltb _ _ r.block_zero)) (rw h)

module _ (s : Tfs) (v : IsValid s) (name : List ℕ) (file : IsFileName name) (x : ℤ) (j : ℕ)
    (l : Listed (max_dir_entries s) (root_entries s) name j)
    (number : d_inumber (root_entries s) j ≡ x) where
  target : IsFileInode s x
  target = rw (← number) (v.linked.entries j l.below l.used)

  root_stays : 0 ≢ index x
  root_stays = IsFileInode-ne_root x v.root target

  deleted-HasRoot : HasRoot (deleted s (index x))
  deleted-HasRoot = record {
    alive = r.alive;
    inodes_fit = r.inodes_fit;
    blocks_fit = r.blocks_fit;
    opens_fit = r.opens_fit;
    block_fits = r.block_fits;
    block_there = r.block_there;
    root_there = r.root_there;
    block_zero = r.block_zero;
    root_taken =
        ap is_free (update_ne s.freeinode_ts (index x) free 0 (λ e. root_stays (sym e)))
        ∙ r.root_taken;
    root_type = r.root_type;
    root_size = r.root_size;
    root_block = r.root_block;
  }
    where
      r : HasRoot s
      r = v.root

  file_stays : (y : ℤ) → IsFileInode s y → y ≢ x → IsFileInode (unlinked s (index x) j) y
  file_stays y g ne =
      let h = deleted-IsFileInode s x v.blocks target y g ne in
      record { valid = h.valid; in_use = h.in_use; file = h.file }

  module _ (quiet : NotOpen s x) where
    unlinked-IsLinked : IsLinked (unlinked s (index x) j)
    unlinked-IsLinked = record {
      entries = λ k h u.
          let (ne, old) = used_after-clear (max_dir_entries s) (root_entries s) j k u in
          let same = d_inumber-clear_entry_ne (root_entries s) j k ne in
          rw same (
            file_stays (d_inumber (root_entries s) k) (v.linked.entries k h old)
              (λ e. ne (v.directory.one_number j k l.below h l.used old (number ∙ sym e))));
      handles = λ h p q.
          file_stays (s.open_file_table h).of_inumber (v.linked.handles h p q) (quiet h p q);
      offsets = v.linked.offsets;
    }

    pub unlinked-IsValid : IsValid (unlinked s (index x) j)
    unlinked-IsValid = record {
      root =
          with_entries-HasRoot (deleted s (index x)) (clear_entry (root_entries s) j)
            deleted-HasRoot;
      blocks = record { sizes = b.sizes; valid = b.valid; in_use = b.in_use; apart = b.apart };
      directory = clear_entry-IsDirectory (max_dir_entries s) (root_entries s) j v.directory;
      linked = unlinked-IsLinked;
    }
      where
        b : BlocksOwned (deleted s (index x))
        b = deleted-BlocksOwned s x v.blocks target

  found : lookup s name ≡ some x
  found =
      dir_lookup-Listed (max_dir_entries s) (root_entries s) name file j v.directory l
      ∙ ap some number

  pub tfs_unlink_body-ok : tfs_unlink_body (path name) s ≡ ok (pos 0) (unlinked s (index x) j)
  unfolding tfs_unlink_body
  tfs_unlink_body-ok = rw (
    valid_pathname-path name file,
    inode_get-root s v.root,
    tfs_lookup-path s v.root name file,
    found,
    IsFileInode-number x target,
    inode_delete-ok s x v.blocks target,
    clear_dir_entry-ok (deleted s (index x)) deleted-HasRoot name j
        (clear_index-Listed (max_dir_entries s) (root_entries s) name file j v.directory l),
  )

  -- The bytes of another file stand in another block than the directory.
  contents_stay :
      (y : ℤ) → IsFileInode s y → contents (unlinked s (index x) j) (index y) ≡ contents s (index y)
  contents_stay y g = read_bytes_cong _ _ 0 (s.inode_table (index y)).i_size (λ q.
      update_ne s.fs_data 0 (clear_entry (root_entries s) j) (block_of s (index y))
        (block_not_root s v y g q))

  pub view-unlinked_self : view (unlinked s (index x) j) name ≡ none
  view-unlinked_self =
      rw (dir_lookup-clear_self (max_dir_entries s) (root_entries s) name j file v.directory l)

  pub view-unlinked_ne :
      (t : List ℕ) → IsFileName t → t ≢ name → view (unlinked s (index x) j) t ≡ view s t
  view-unlinked_ne t f ne =
      rw (dir_lookup-clear_ne (max_dir_entries s) (root_entries s) name j file v.directory l t f ne)
        (elim (Option-cases (lookup s t)) [
          | inl e ↦ rw e
          | inr (y, e) ↦ rw e (ap some (contents_stay y (lookup-IsFileInode s v t f y e)))
        ])

-- What tfs_unlink does to a file that is there, whether or not a handle has it open.
pub tfs_unlink-runs :
    (mutex : Mutex) (s : Tfs) (name : List ℕ) (x : ℤ)
    → IsValid s
    → s.library_mutex ≡ false
    → IsFileName name
    → lookup s name ≡ some x
    → (s' : Tfs) × (tfs_unlink mutex (path name) s ≡ ok (pos 0) s')
      × (view s' name ≡ none)
      × ((t : List ℕ) → IsFileName t → t ≢ name → view s' t ≡ view s t)
unfolding tfs_unlink
tfs_unlink-runs mutex s name x v free_mutex file there =
    let r : Tfs = record s { library_mutex = true } in
    let w : IsValid r = relock-IsValid true v in
    let (j, l, number) = Listed-of_lookup (max_dir_entries s) (root_entries s) name file x there in
    let s' : Tfs = unlinked r (index x) j in
    (
      record s' { library_mutex = false },
      locked-ok mutex minus_one (tfs_unlink_body (path name)) s s' (pos 0) free_mutex
          (tfs_unlink_body-ok r w name file x j l number) refl,
      view-unlinked_self r w name file x j l number,
      view-unlinked_ne r w name file x j l number,
    )

-- tfs_unlink of a file that is there and that no handle has open returns 0; the state stays well
-- formed, the mutex is free again, the name is gone and every other file keeps its bytes. Of the two
-- allocation tables just the file's inode becomes free and, if the file has contents, its block.
pub tfs_unlink-removes :
    (mutex : Mutex) (s : Tfs) (name : List ℕ) (x : ℤ)
    → IsValid s
    → s.library_mutex ≡ false
    → IsFileName name
    → lookup s name ≡ some x
    → NotOpen s x
    → (s' : Tfs) × (tfs_unlink mutex (path name) s ≡ ok (pos 0) s')
      × IsValid s'
      × (s'.library_mutex ≡ false)
      × (view s' name ≡ none)
      × ((t : List ℕ) → IsFileName t → t ≢ name → view s' t ≡ view s t)
      × (s'.freeinode_ts ≡ update s.freeinode_ts (index x) free)
      × (s'.free_blocks ≡ (
          if ltb 0 (s.inode_table (index x)).i_size
          then update s.free_blocks (block_of s (index x)) free
          else s.free_blocks))
unfolding tfs_unlink
tfs_unlink-removes mutex s name x v free_mutex file there quiet =
    let w : IsValid (record s { library_mutex = true }) = relock-IsValid true v in
    let (j, l, number) = Listed-of_lookup (max_dir_entries s) (root_entries s) name file x there in
    let s' : Tfs = unlinked (record s { library_mutex = true }) (index x) j in
    (
      record s' { library_mutex = false },
      locked-ok mutex minus_one (tfs_unlink_body (path name)) s s' (pos 0) free_mutex
          (tfs_unlink_body-ok (record s { library_mutex = true }) w name file x j l number) refl,
      relock-IsValid {s = s'} false
          (unlinked-IsValid (record s { library_mutex = true }) w name file x j l number quiet),
      refl,
      view-unlinked_self (record s { library_mutex = true }) w name file x j l number,
      view-unlinked_ne (record s { library_mutex = true }) w name file x j l number,
      refl,
      refl,
    )

-- tfs_unlink of a file that is still open returns 0 as well: the name is gone and every other file
-- keeps its bytes, but the handle stays open on an inode that is free, so the state is not well formed.
pub tfs_unlink-dangling :
    (mutex : Mutex) (s : Tfs) (name : List ℕ) (x : ℤ) (h : ℕ)
    → IsValid s
    → s.library_mutex ≡ false
    → IsFileName name
    → lookup s name ≡ some x
    → IsOpen s h
    → (s.open_file_table h).of_inumber ≡ x
    → (s' : Tfs) × (tfs_unlink mutex (path name) s ≡ ok (pos 0) s')
      × (view s' name ≡ none)
      × ((t : List ℕ) → IsFileName t → t ≢ name → view s' t ≡ view s t)
      × IsOpen s' h
      × (is_free (s'.freeinode_ts (index (s'.open_file_table h).of_inumber)) ≡ true)
      × (¬ IsValid s')
unfolding tfs_unlink
tfs_unlink-dangling mutex s name x h v free_mutex file there open_handle points =
    let r : Tfs = record s { library_mutex = true } in
    let w : IsValid r = relock-IsValid true v in
    let (j, l, number) = Listed-of_lookup (max_dir_entries s) (root_entries s) name file x there in
    let s' : Tfs = unlinked r (index x) j in
    let gone : is_free (s'.freeinode_ts (index (s.open_file_table h).of_inumber)) ≡ true =
      rw points (ap is_free (update_self s.freeinode_ts (index x) free)) in
    (
      record s' { library_mutex = false },
      locked-ok mutex minus_one (tfs_unlink_body (path name)) s s' (pos 0) free_mutex
          (tfs_unlink_body-ok r w name file x j l number) refl,
      view-unlinked_self r w name file x j l number,
      view-unlinked_ne r w name file x j l number,
      record { below = open_handle.below; in_use = open_handle.in_use },
      gone,
      λ u. let q = (u.linked.handles h open_handle.below open_handle.in_use).in_use in cc,
    )
