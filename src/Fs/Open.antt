-- ===== src/Fs/Open.antt =====
-- tfs_open in a well formed state, where the file is to be created.
use proj_so.Prelude.{
  ℕ, ◌-◌, ◌^◌, ◌≤◌, ◌<◌, ◌≡◌, refl, sym, ap, ◌∙◌, ◌≢◌, inl, inr, Bool, true, false, List, none,
  some, arith, ltb, lt→ltb, ◌==◌, Option-cases, Found, find_index_of_Found, update, update_self,
  fun_ext, ℕ_discrete, [], is_minus_one, length, InRange, to_int-pos, ℤ, pos, minus_one, index, ok,
}
use proj_so.Fs.State.{
  Tfs, Inode, t_file, taken, is_free, max_dir_entries, max_file_name, OpenFileEntry,
}
use proj_so.Fs.Inodes.{inode_alloc, inode_create}
use proj_so.Fs.Directory.{d_inumber, fill_entry, add_dir_entry}
use proj_so.Fs.Directory.Entries.{IsFileName, d_inumber-fill_entry_self, d_inumber-fill_entry_ne}
use proj_so.Fs.Memory.Laws.{read_bytes-zero}
use proj_so.Fs.Directory.Layout.{unused, Absent}
use proj_so.Fs.Directory.Fill.{NewNumber, fill_entry-IsDirectory}
use proj_so.Fs.Directory.Find.{Absent-of_lookup, dir_lookup-fill_self, dir_lookup-fill_ne}
use proj_so.Fs.OpenFiles.{add_to_open_file_table}
use proj_so.Fs.Mutex.{Mutex, locked-ok}
use proj_so.Fs.Operations.{tfs_o_creat, has_flag, open_new, tfs_open_body, tfs_open}
use proj_so.Fs.Invariant.{
  root_entries, IsFileInode, HasRoot, IsValid, relock-IsValid, lookup, contents, view,
  lookup-IsFileInode,
}
use proj_so.Fs.Lookup.{
  path, valid_pathname-path, inode_get-root, tfs_lookup-path, data_block_get-ok,
}
use proj_so.Fs.Update.{
  with_entries, with_handle, with_file, empty_file, with_entries-IsValid, contents-with_entries,
  with_handle-IsValid, with_file-IsValid, with_file-stays, contents-with_file,
  with_file-IsFileInode,
}

abbrev pub free_inode : Tfs → ℕ → Bool
free_inode s i = is_free (s.freeinode_ts i)

abbrev pub free_handle : Tfs → ℕ → Bool
free_handle s h = is_free (s.free_open_file_entries h)

abbrev pub file_entry : ℤ → ℕ → OpenFileEntry
file_entry x offset = record { of_inumber = x; of_offset = offset }

pub update_twice : (f : ℕ → Inode) (i : ℕ) (a b : Inode) → update (update f i a) i b ≡ update f i b
update_twice f i a b = fun_ext λ j. ground arith

pub inode_alloc-ok :
    (s : Tfs) (i : ℕ)
    → s.fs_params.max_inode_count ≤ 2 ^ 31
    → Found s.fs_params.max_inode_count (free_inode s) i
    → inode_alloc s ≡ ok (pos i) (record s { freeinode_ts = update s.freeinode_ts i taken })
unfolding inode_alloc
inode_alloc-ok s i fit found =
    rw (find_index_of_Found s.fs_params.max_inode_count (free_inode s) found, inode_alloc)
      (rw (to_int-pos i (omega (arith, found.below))))

pub inode_create-file :
    (s : Tfs) (i : ℕ)
    → HasRoot s
    → Found s.fs_params.max_inode_count (free_inode s) i
    → inode_create t_file s ≡ ok (pos i) (with_file s i)
unfolding inode_create
inode_create-file s i r found =
    let typed : Inode = record (s.inode_table i) { i_node_type = t_file } in
    rw (inode_alloc-ok s i r.inodes_fit found)
      (rw (update_self s.inode_table i typed, update_twice s.inode_table i typed empty_file) refl)

pub add_dir_entry-ok :
    (s : Tfs) (name : List ℕ) (x : ℤ) (j : ℕ)
    → HasRoot s
    → IsFileName name
    → Found (max_dir_entries s) (unused (root_entries s)) j
    → add_dir_entry 0 name x s ≡ ok (pos 0) (with_entries s (fill_entry (root_entries s) j name x))
unfolding add_dir_entry
add_dir_entry-ok s name x j r f found =
    let nonempty : (length name == 0) ≡ false = ground (arith, f.some_byte) in
    let short : ltb (max_file_name - 1) (length name) ≡ false = ground (arith, f.fits) in
    rw
      (
        nonempty,
        short,
        r.root_type,
        r.root_block,
        data_block_get-ok s (pos 0) (lt→ltb _ _ r.block_zero),
      )
      (rw (find_index_of_Found (max_dir_entries s) (unused (root_entries s)) found))

pub add_to_open_file_table-ok :
    (s : Tfs) (x : ℤ) (offset h : ℕ)
    → Found s.fs_params.max_open_files_count (free_handle s) h
    → add_to_open_file_table x offset s ≡ ok (pos h) (with_handle s h (file_entry x offset))
unfolding add_to_open_file_table
add_to_open_file_table-ok s x offset h found = rw (
  find_index_of_Found s.fs_params.max_open_files_count (free_handle s) found,
  add_to_open_file_table,
)

-- What is free for the new file: an inode, an entry of the directory, and a file handle.
pub record HasRoom (s : Tfs) (i j h : ℕ) : Type 0 where
  pub inode : Found s.fs_params.max_inode_count (free_inode s) i
  pub entry : Found (max_dir_entries s) (unused (root_entries s)) j
  pub handle : Found s.fs_params.max_open_files_count (free_handle s) h

-- The state after tfs_open has created the file.
abbrev pub listed : Tfs → List ℕ → ℕ → ℕ → Tfs
listed s name i j = with_entries (with_file s i) (fill_entry (root_entries s) j name (pos i))

abbrev pub created : Tfs → List ℕ → ℕ → ℕ → ℕ → Tfs
created s name i j h = with_handle (listed s name i j) h (file_entry (pos i) 0)

module _ (s : Tfs) (v : IsValid s) (name : List ℕ) (file : IsFileName name)
    (absent : lookup s name ≡ none) (i j h : ℕ) (room : HasRoom s i j h) where
  range : InRange (pos i)
  range = omega (arith, room.inode.below, v.root.inodes_fit)

  new : NewNumber (max_dir_entries s) (root_entries s) (pos i)
  new k q u e =
      let f = v.linked.entries k q u in
      let p : is_free (s.freeinode_ts i) ≡ false = rw e at f.in_use in
      let q' = room.inode.passes in cc

  gone : Absent (max_dir_entries s) (root_entries s) name
  gone = Absent-of_lookup (max_dir_entries s) (root_entries s) name file absent

  first : IsValid (with_file s i)
  first = with_file-IsValid s v i room.inode.passes

  born : IsFileInode (with_file s i) (pos i)
  born = with_file-IsFileInode s v i room.inode.passes room.inode.below

  listed-files :
      (k : ℕ)
      → k < max_dir_entries s
      → unused (fill_entry (root_entries s) j name (pos i)) k ≡ false
      → IsFileInode (with_file s i) (d_inumber (fill_entry (root_entries s) j name (pos i)) k)
  listed-files k q u = elim (ℕ_discrete j k) [
    | yes same ↦ rw (← same, d_inumber-fill_entry_self (root_entries s) j name (pos i) range) born
    | no other ↦
        let e = d_inumber-fill_entry_ne (root_entries s) j name (pos i) k other in
        rw e (
          with_file-stays s v i room.inode.passes (d_inumber (root_entries s) k)
            (v.linked.entries k q (sym (ap is_minus_one e) ∙ u)))
  ]

  pub listed-IsValid : IsValid (listed s name i j)
  listed-IsValid =
      with_entries-IsValid (with_file s i) (fill_entry (root_entries s) j name (pos i)) first
        (fill_entry-IsDirectory (max_dir_entries s) (root_entries s) j name (pos i) range file
          v.directory gone new room.entry refl)
        listed-files

  pub created-IsValid : IsValid (created s name i j h)
  created-IsValid =
      with_handle-IsValid (listed s name i j) h (file_entry (pos i) 0) listed-IsValid
        (record { valid = born.valid; in_use = born.in_use; file = born.file }) (omega arith)

  pub lookup-created : lookup (created s name i j h) name ≡ some (pos i)
  lookup-created =
      dir_lookup-fill_self (max_dir_entries s) (root_entries s) j name (pos i) range file
        v.directory gone new room.entry refl

  -- The new file is empty, and the others keep their bytes.
  pub view-created_self : view (created s name i j h) name ≡ some []
  view-created_self = rw (lookup-created, update_self s.inode_table i empty_file, read_bytes-zero)

  contents_stay :
      (y : ℤ) → IsFileInode s y → contents (created s name i j h) (index y) ≡ contents s (index y)
  contents_stay y f =
      contents-with_entries (with_file s i) (fill_entry (root_entries s) j name (pos i)) y first
        (with_file-stays s v i room.inode.passes y f)
      ∙ contents-with_file s v i room.inode.passes y f

  pub view-created_ne :
      (t : List ℕ) → IsFileName t → name ≢ t → view (created s name i j h) t ≡ view s t
  view-created_ne t f ne =
      rw
        (dir_lookup-fill_ne (max_dir_entries s) (root_entries s) j name (pos i) range file
          v.directory gone new room.entry refl t f ne)
        (elim (Option-cases (lookup s t)) [
          | inl e ↦ rw e
          | inr (y, e) ↦ rw e (ap some (contents_stay y (lookup-IsFileInode s v t f y e)))
        ])

  pub open_new-ok : open_new 0 (path name) s ≡ ok (pos h) (created s name i j h)
  unfolding open_new
  open_new-ok = rw (
    inode_create-file s i v.root room.inode,
    add_dir_entry-ok (with_file s i) name (pos i) j first.root file room.entry,
    add_to_open_file_table-ok (listed s name i j) (pos i) 0 h room.handle,
  )

  pub tfs_open_body-new :
      (mode : ℕ)
      → has_flag mode tfs_o_creat ≡ true
      → tfs_open_body (path name) mode s ≡ ok (pos h) (created s name i j h)
  unfolding tfs_open_body
  tfs_open_body-new mode flag =
      rw
        (
          valid_pathname-path name file,
          inode_get-root s v.root,
          tfs_lookup-path s v.root name file,
          absent,
        )
        (rw flag open_new-ok)

-- tfs_open with TFS_O_CREAT of a name that is not there returns the first free handle; the state
-- stays well formed, the mutex is free again, the handle stands at the start of an inode that was
-- free, the name is that of an empty file, and every other file keeps its bytes.
pub tfs_open-creates :
    (mutex : Mutex) (s : Tfs) (name : List ℕ) (mode i j h : ℕ)
    → IsValid s
    → s.library_mutex ≡ false
    → IsFileName name
    → lookup s name ≡ none
    → has_flag mode tfs_o_creat ≡ true
    → HasRoom s i j h
    → (s' : Tfs) × (tfs_open mutex (path name) mode s ≡ ok (pos h) s')
      × IsValid s'
      × (s'.library_mutex ≡ false)
      × (s'.open_file_table h ≡ file_entry (pos i) 0)
      × (lookup s' name ≡ some (pos i))
      × (view s' name ≡ some [])
      × ((t : List ℕ) → IsFileName t → name ≢ t → view s' t ≡ view s t)
unfolding tfs_open
tfs_open-creates mutex s name mode i j h v free_mutex file absent flag room =
    let r : Tfs = record s { library_mutex = true } in
    let w : IsValid r = relock-IsValid true v in
    let room' : HasRoom r i j h = record {
      inode = room.inode;
      entry = room.entry;
      handle = room.handle;
    } in
    let s' : Tfs = created r name i j h in
    (
      record s' { library_mutex = false },
      locked-ok mutex minus_one (tfs_open_body (path name) mode) s s' (pos h) free_mutex
          (tfs_open_body-new r w name file absent i j h room' mode flag) refl,
      relock-IsValid {s = s'} false (created-IsValid r w name file absent i j h room'),
      refl,
      update_self s.open_file_table h (file_entry (pos i) 0),
      lookup-created r w name file absent i j h room',
      view-created_self r w name file absent i j h room',
      view-created_ne r w name file absent i j h room',
    )
