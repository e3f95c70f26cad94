-- ===== src/Fs/Reread.antt =====
-- tfs_open and a tfs_read of the whole file through the new handle.
use proj_so.Prelude.{
  ℕ, suc, ◌≤◌, ◌≡◌, refl, ap, ap₂, ◌∙◌, false, List, some, length, Found, update_self, ℤ, pos, ok,
}
use proj_so.Fs.State.{Tfs}
use proj_so.Fs.Mutex.{Mutex}
use proj_so.Fs.Operations.{has_flag, tfs_o_trunc, tfs_o_append, tfs_open, tfs_read}
use proj_so.Fs.Invariant.{IsValid, view, view_at}
use proj_so.Fs.Lookup.{path}
use proj_so.Fs.Open.{free_handle, file_entry}
use proj_so.Fs.Read.{tfs_read-reads}
use proj_so.Fs.Handles.{with_existing, tfs_open-state, with_existing-IsValid, with_existing-IsOpen}
use proj_so.Fs.Roundtrip.{available-all, bytes_read-all}
use proj_so.Fs.Append.{IsStored}

module _ (mutex : Mutex) (s : Tfs) (name : List ℕ) (x : ℤ) (bytes : List ℕ) (n mode : ℕ)
    (w : IsStored s name x bytes (suc n)) (keep : has_flag mode tfs_o_trunc ≡ false)
    (start : has_flag mode tfs_o_append ≡ false) where
  abbrev handle : ℕ
  handle = w.handles.0

  room : Found s.fs_params.max_open_files_count (free_handle s) handle
  room = w.handles.1

  abbrev opened : Tfs
  opened = with_existing s x mode handle

  entry : opened.open_file_table handle ≡ file_entry x 0
  entry = rw start (update_self s.open_file_table handle (file_entry x 0))

  pub read_whole_file :
      (len : ℕ)
      → length bytes ≤ len
      → (s₂ : Tfs) × (tfs_open mutex (path name) mode s ≡ ok (pos handle) opened)
        × (tfs_read mutex (pos handle) len opened ≡ ok (pos (length bytes), bytes) s₂)
        × IsValid s₂
        × (s₂.library_mutex ≡ false)
        × (view s₂ name ≡ some bytes)
  read_whole_file len enough =
      let (s₂, run, valid, unlocked, _, same) =
        tfs_read-reads mutex opened handle len
          (with_existing-IsValid s name x mode handle w.valid w.name_ok w.there keep room) refl
          (with_existing-IsOpen s x mode handle room.below) in
      (
        s₂,
        tfs_open-state mutex s name x mode handle w.valid w.unlocked w.name_ok w.there keep room,
        run
            ∙ ap₂ (λ (k : ℕ) (r : List ℕ). ok (pos k, r) s₂)
                (available-all opened handle len x bytes entry w.holds enough)
                (bytes_read-all opened handle len x bytes entry w.holds enough),
        valid,
        unlocked,
        same name ∙ ap (view_at s) w.there ∙ ap some w.holds,
      )
