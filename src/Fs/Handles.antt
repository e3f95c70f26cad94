-- ===== src/Fs/Handles.antt =====
-- tfs_open of a file that is there, and tfs_close, in a well formed state.
use proj_so.Prelude.{
  ℕ, ◌≤◌, ◌<◌, ◌≡◌, refl, ap, ◌≢◌, true, false, List, some, arith, lt→ltb, if◌then◌else◌, Found,
  update, update_self, update_ne, ℤ, pos, minus_one, index, ok, always_assert,
}
use proj_so.Fs.State.{Tfs, free, taken, is_free}
use proj_so.Fs.OpenFiles.{remove_from_open_file_table}
use proj_so.Fs.Mutex.{Mutex, locked-ok}
use proj_so.Fs.Operations.{
  has_flag, tfs_o_trunc, tfs_o_append, open_existing, tfs_open_body, tfs_open, tfs_close_body,
  tfs_close,
}
use proj_so.Fs.Directory.Entries.{IsFileName}
use proj_so.Fs.Invariant.{
  IsFileInode, IsFileInode-nonneg, HasRoot, IsValid, relock-IsValid, lookup, view,
  lookup-IsFileInode,
}
use proj_so.Fs.Lookup.{
  IsOpen, path, valid_pathname-path, get_open_file_entry-open, inode_get-root, inode_get-ok,
  tfs_lookup-path,
}
use proj_so.Fs.Update.{with_handle, with_handle-IsValid}
use proj_so.Fs.Open.{file_entry, free_handle, add_to_open_file_table-ok}
use proj_so.Fs.Write.{size_of}

-- Where the handle of a file that is there begins.
abbrev pub start_of : Tfs → ℤ → ℕ → ℕ
start_of s x mode = if has_flag mode tfs_o_append then size_of s (index x) else 0

module _ (s : Tfs) (v : IsValid s) (name : List ℕ) (file : IsFileName name) (x : ℤ)
    (there : lookup s name ≡ some x) (mode h : ℕ) (keep : has_flag mode tfs_o_trunc ≡ false)
    (room : Found s.fs_params.max_open_files_count (free_handle s) h) where
  abbrev reopened : Tfs
  reopened = with_handle s h (file_entry x (start_of s x mode))

  target : IsFileInode s x
  target = lookup-IsFileInode s v name file x there

  start-le : start_of s x mode ≤ size_of s (index x)
  start-le = ground arith

  reopened-IsValid : IsValid reopened
  reopened-IsValid = with_handle-IsValid s h (file_entry x (start_of s x mode)) v target start-le

  open_existing-ok : open_existing x mode s ≡ ok (pos h) reopened
  unfolding open_existing
  open_existing-ok =
      rw (inode_get-ok s x target.valid)
        (rw keep (add_to_open_file_table-ok s x (start_of s x mode) h room))

  tfs_open_body-existing : tfs_open_body (path name) mode s ≡ ok (pos h) reopened
  unfolding tfs_open_body
  tfs_open_body-existing =
      rw
        (
          valid_pathname-path name file,
          inode_get-root s v.root,
          tfs_lookup-path s v.root name file,
          there,
        )
        (rw (IsFileInode-nonneg x target) open_existing-ok)

-- The state after it.
abbrev pub with_existing : Tfs → ℤ → ℕ → ℕ → Tfs
with_existing s x mode h = record (with_handle s h (file_entry x (start_of s x mode))) {
  library_mutex = false;
}

pub tfs_open-state :
    (mutex : Mutex) (s : Tfs) (name : List ℕ) (x : ℤ) (mode h : ℕ)
    → IsValid s
    → s.library_mutex ≡ false
    → IsFileName name
    → lookup s name ≡ some x
    → has_flag mode tfs_o_trunc ≡ false
    → Found s.fs_params.max_open_files_count (free_handle s) h
    → tfs_open mutex (path name) mode s ≡ ok (pos h) (with_existing s x mode h)
unfolding tfs_open
tfs_open-state mutex s name x mode h v free_mutex file there keep room =
    let r : Tfs = record s { library_mutex = true } in
    let w : IsValid r = relock-IsValid true v in
    locked-ok mutex minus_one (tfs_open_body (path name) mode) s
      (with_handle r h (file_entry x (start_of s x mode))) (pos h) free_mutex
      (tfs_open_body-existing r w name file x there mode h keep room) refl

pub with_existing-IsValid :
    (s : Tfs) (name : List ℕ) (x : ℤ) (mode h : ℕ)
    → IsValid s
    → IsFileName name
    → lookup s name ≡ some x
    → has_flag mode tfs_o_trunc ≡ false
    → Found s.fs_params.max_open_files_count (free_handle s) h
    → IsValid (with_existing s x mode h)
with_existing-IsValid s name x mode h v file there keep room =
    relock-IsValid {s = with_handle s h (file_entry x (start_of s x mode))} false
      (reopened-IsValid s v name file x there mode h keep room)

pub with_existing-IsOpen :
    (s : Tfs) (x : ℤ) (mode h : ℕ)
    → h < s.fs_params.max_open_files_count
    → IsOpen (with_existing s x mode h) h
with_existing-IsOpen s x mode h below = record {
  below = below;
  in_use = ap is_free (update_self s.free_open_file_entries h taken);
}

-- tfs_open without TFS_O_TRUNC of a name that is there returns the first free handle, at the end of
-- the file with TFS_O_APPEND and else at its start, and that handle is open; no name and no file
-- changes, the state stays well formed and the mutex is free again.
pub tfs_open-existing :
    (mutex : Mutex) (s : Tfs) (name : List ℕ) (x : ℤ) (mode h : ℕ)
    → IsValid s
    → s.library_mutex ≡ false
    → IsFileName name
    → lookup s name ≡ some x
    → has_flag mode tfs_o_trunc ≡ false
    → Found s.fs_params.max_open_files_count (free_handle s) h
    → (s' : Tfs) × (tfs_open mutex (path name) mode s ≡ ok (pos h) s')
      × IsValid s'
      × (s'.library_mutex ≡ false)
      × IsOpen s' h
      × (s'.open_file_table h ≡ file_entry x (start_of s x mode))
      × ((t : List ℕ) → (lookup s' t ≡ lookup s t) × (view s' t ≡ view s t))
tfs_open-existing mutex s name x mode h v free_mutex file there keep room =
    let r : Tfs = record s { library_mutex = true } in
    let w : IsValid r = relock-IsValid true v in
    let s' : Tfs = with_handle r h (file_entry x (start_of s x mode)) in
    (
      with_existing s x mode h,
      tfs_open-state mutex s name x mode h v free_mutex file there keep room,
      relock-IsValid {s = s'} false (reopened-IsValid r w name file x there mode h keep room),
      refl,
      record {
        below = room.below;
        in_use = ap is_free (update_self s.free_open_file_entries h taken);
      },
      update_self s.open_file_table h (file_entry x (start_of s x mode)),
      λ t. (refl, refl),
    )

-- The state without a handle.
abbrev pub closed : Tfs → ℕ → Tfs
closed s h = record s { free_open_file_entries = update s.free_open_file_entries h free }

pub closed-IsValid : (s : Tfs) (h : ℕ) → IsValid s → IsValid (closed s h)
closed-IsValid s h v = record {
  root = record {
    alive = r.alive;
    inodes_fit = r.inodes_fit;
    blocks_fit = r.blocks_fit;
    opens_fit = r.opens_fit;
    block_fits = r.block_fits;
    block_there = r.block_there;
    root_there = r.root_there;
    block_zero = r.block_zero;
    root_taken = r.root_taken;
    root_type = r.root_type;
    root_size = r.root_size;
    root_block = r.root_block;
  };
  blocks = record {
    sizes = v.blocks.sizes;
    valid = v.blocks.valid;
    in_use = v.blocks.in_use;
    apart = v.blocks.apart;
  };
  directory = v.directory;
  linked = record {
    entries = λ j p u. file (v.linked.entries j p u);
    handles = λ k p q. file (v.linked.handles k p (open_before k q));
    offsets = λ k p q. v.linked.offsets k p (open_before k q);
  };
}
  where
    r : HasRoot s
    r = v.root

    file : {x : ℤ} → IsFileInode s x → IsFileInode (closed s h) x
    file g = record { valid = g.valid; in_use = g.in_use; file = g.file }

    open_before :
        (k : ℕ)
        → is_free (update s.free_open_file_entries h free k) ≡ false
        → is_free (s.free_open_file_entries k) ≡ false
    open_before k q = ground arith

tfs_close_body-open :
    (s : Tfs) (h : ℕ) → IsOpen s h → tfs_close_body (pos h) s ≡ ok (pos 0) (closed s h)
unfolding tfs_close_body remove_from_open_file_table
tfs_close_body-open s h o =
    rw (get_open_file_entry-open s h o)
      (rw (lt→ltb _ _ o.below, always_assert) (rw (o.in_use, always_assert) refl))

-- tfs_close of an open handle returns 0 and frees the handle; no other handle is freed or taken, every
-- entry of the open file table keeps its file and its offset, no file changes, the state stays well
-- formed and the mutex is free again.
pub tfs_close-closes :
    (mutex : Mutex) (s : Tfs) (h : ℕ)
    → IsValid s
    → s.library_mutex ≡ false
    → IsOpen s h
    → (s' : Tfs) × (tfs_close mutex (pos h) s ≡ ok (pos 0) s')
      × IsValid s'
      × (s'.library_mutex ≡ false)
      × (free_handle s' h ≡ true)
      × ((k : ℕ) → h ≢ k → free_handle s' k ≡ free_handle s k)
      × ((k : ℕ) → s'.open_file_table k ≡ s.open_file_table k)
      × ((t : List ℕ) → view s' t ≡ view s t)
unfolding tfs_close
tfs_close-closes mutex s h v free_mutex open_handle =
    let r : Tfs = record s { library_mutex = true } in
    let w : IsValid r = relock-IsValid true v in
    let o : IsOpen r h = record { below = open_handle.below; in_use = open_handle.in_use } in
    (
      record (closed r h) { library_mutex = false },
      locked-ok mutex minus_one (tfs_close_body (pos h)) s (closed r h) (pos 0) free_mutex
          (tfs_close_body-open r h o) refl,
      relock-IsValid {s = closed r h} false (closed-IsValid r h w),
      refl,
      ap is_free (update_self s.free_open_file_entries h free),
      λ k ne. ap is_free (update_ne s.free_open_file_entries h free k ne),
      λ k. refl,
      λ t. refl,
    )
