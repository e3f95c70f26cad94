-- ===== src/Fs/Errors.antt =====
-- The calls of TécnicoFS that fail and change nothing.
use proj_so.Prelude.{
  ℕ, ◌≡◌, refl, sym, ap, ◌∙◌, ◌⊎◌, inl, inr, true, false, List, [], none, Bool-cases, index, ℤ,
  minus_one, M, ok,
}
use proj_so.Fs.State.{Tfs, is_free, valid_file_handle}
use proj_so.Fs.OpenFiles.{get_open_file_entry}
use proj_so.Fs.Mutex.{Mutex, locked, locked-ok}
use proj_so.Fs.Operations.{
  has_flag, tfs_o_creat, tfs_open_body, tfs_unlink_body, tfs_close_body, tfs_read_body,
  tfs_write_body, tfs_open, tfs_close, tfs_read, tfs_write, tfs_unlink,
}
use proj_so.Fs.Directory.Entries.{IsFileName}
use proj_so.Fs.Invariant.{IsValid, relock-IsValid, lookup}
use proj_so.Fs.Lookup.{path, valid_pathname-path, inode_get-root, tfs_lookup-path}

-- The handle is out of range or closed.
abbrev pub NotHandle : Tfs → ℤ → Type 0
NotHandle s h =
    (valid_file_handle s h ≡ false) ⊎ (is_free (s.free_open_file_entries (index h)) ≡ true)

-- A call that changes nothing under the mutex changes nothing.
locked-same :
    {A : Type 0} (mutex : Mutex) (failed : A) (work : M Tfs A) (s : Tfs) (result : A)
    → s.library_mutex ≡ false
    → work (record s { library_mutex = true }) ≡ ok result (record s { library_mutex = true })
    → locked mutex failed work s ≡ ok result s
locked-same mutex failed work s result unlocked run =
    locked-ok mutex failed work s (record s { library_mutex = true }) result unlocked run refl
    ∙ ap (λ b. ok result (record s { library_mutex = b })) (sym unlocked)

get_open_file_entry-none : (s : Tfs) (h : ℤ) → NotHandle s h → get_open_file_entry h s ≡ ok none s
unfolding get_open_file_entry
get_open_file_entry-none s h (inl e) = rw e refl
get_open_file_entry-none s h (inr e) = elim (Bool-cases (valid_file_handle s h)) [
  | inl v ↦ rw (v, get_open_file_entry) (rw (e, get_open_file_entry) refl)
  | inr v ↦ rw v refl
]

module _ (mutex : Mutex) (s : Tfs) (unlocked : s.library_mutex ≡ false) where
  -- tfs_close, tfs_read and tfs_write of a handle that is out of range or closed return -1 and change
  -- nothing.
  pub closed_handle_fails :
      (h : ℤ) (buffer : List ℕ) (len : ℕ)
      → NotHandle s h
      → (tfs_close mutex h s ≡ ok minus_one s)
        × (tfs_read mutex h len s ≡ ok (minus_one, []) s)
        × (tfs_write mutex h buffer len s ≡ ok minus_one s)
  unfolding tfs_close tfs_close_body tfs_read tfs_read_body tfs_write tfs_write_body
  closed_handle_fails h buffer len bad =
      let none_there = get_open_file_entry-none (record s { library_mutex = true }) h bad in
      (
        locked-same mutex minus_one (tfs_close_body h) s minus_one unlocked (rw none_there refl),
        locked-same mutex (minus_one, []) (tfs_read_body h len) s (minus_one, []) unlocked
            (rw none_there refl),
        locked-same mutex minus_one (tfs_write_body h buffer len) s minus_one unlocked
            (rw none_there refl),
      )

  -- In a well formed state, tfs_unlink of a name that is not there, and tfs_open of it without
  -- TFS_O_CREAT, return -1 and change nothing.
  pub missing_file_fails :
      (name : List ℕ) (mode : ℕ)
      → IsValid s
      → IsFileName name
      → lookup s name ≡ none
      → has_flag mode tfs_o_creat ≡ false
      → (tfs_unlink mutex (path name) s ≡ ok minus_one s)
        × (tfs_open mutex (path name) mode s ≡ ok minus_one s)
  unfolding tfs_unlink tfs_unlink_body tfs_open tfs_open_body
  missing_file_fails name mode valid file absent flag =
      let r : Tfs = record s { library_mutex = true } in
      let root = (relock-IsValid true valid).root in
      (
        locked-same mutex minus_one (tfs_unlink_body (path name)) s minus_one unlocked (
            rw
              (
                valid_pathname-path name file,
                inode_get-root r root,
                tfs_lookup-path r root name file,
                absent,
              )
              refl),
        locked-same mutex minus_one (tfs_open_body (path name) mode) s minus_one unlocked (
            rw
              (
                valid_pathname-path name file,
                inode_get-root r root,
                tfs_lookup-path r root name file,
                absent,
              )
              (rw flag refl)),
      )
