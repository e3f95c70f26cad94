-- ===== src/Fs/Tests/Examples.antt =====
-- Applications of the theorems on the file system to small states.
use proj_so.Prelude.{
  ℕ, ◌+◌, ◌<◌, ◌≡◌, ◌≢◌, refl, true, false, List, [], none, some, pos, length, index, ok, arith,
  take, inl, inr, minus_one, update, ltb, if◌then◌else◌,
}
use proj_so.Fs.Memory.{read_bytes}
use proj_so.Fs.State.{Tfs, free, is_free}
use proj_so.Fs.Directory.Entries.{IsFileName}
use proj_so.Fs.Invariant.{IsValid, block_of, lookup, view}
use proj_so.Fs.Init.{tfs_init-starts}
use proj_so.Fs.Open.{free_handle, file_entry, tfs_open-creates}
use proj_so.Fs.Lookup.{path, IsOpen}
use proj_so.Fs.Operations.{
  tfs_default_params, tfs_init, tfs_open, tfs_close, tfs_write, tfs_read, tfs_unlink, tfs_o_creat,
  tfs_o_append,
}
use proj_so.Fs.Errors.{closed_handle_fails, missing_file_fails}
use proj_so.Fs.Roundtrip.{write_then_read, new_bytes, write_then_read-overwrite}
use proj_so.Fs.Twice.{tfs_init-twice}
use proj_so.Fs.Unlink.{tfs_unlink-removes, tfs_unlink-dangling}
use proj_so.Fs.Write.{offset_of}
use proj_so.Fs.Write.Call.{Wrote, count, tfs_write-writes}
use proj_so.Fs.Read.{available, bytes_read, tfs_read-reads}
use proj_so.Fs.Handles.{start_of, tfs_open-existing, tfs_close-closes}
use proj_so.Fs.Tests.{
  working_mutex, small, mallocs, unborn, name_a, text, started, with_a, with_text, opened_twice,
  closed_a, small-ParamsFit, name_a-IsFileName, started-IsValid, started-HasRoom, started-lookup,
  with_a-IsValid, with_a-IsOpen, with_a-room, with_text-IsValid, with_text-lookup, with_text-IsOpen,
  with_text-room, opened_twice-IsValid, opened_twice-IsOpen, closed_a-IsValid, closed_a-NotOpen,
}

tfs_init-starts_example :
    (s' : Tfs) × (tfs_init (some small) mallocs unborn ≡ ok (pos 0) s')
    × IsValid s'
    × (s'.library_mutex ≡ false)
    × ((h : ℕ) → h < 2 → free_handle s' h ≡ true)
    × ((t : List ℕ) → IsFileName t → view s' t ≡ none)
tfs_init-starts_example = tfs_init-starts unborn small mallocs refl small-ParamsFit refl

tfs_open-creates_example :
    (s' : Tfs) × (tfs_open working_mutex (path name_a) tfs_o_creat started ≡ ok (pos 0) s')
    × IsValid s'
    × (s'.library_mutex ≡ false)
    × (s'.open_file_table 0 ≡ file_entry (pos 1) 0)
    × (lookup s' name_a ≡ some (pos 1))
    × (view s' name_a ≡ some [])
    × ((t : List ℕ) → IsFileName t → name_a ≢ t → view s' t ≡ view started t)
tfs_open-creates_example =
    tfs_open-creates working_mutex started name_a tfs_o_creat 1 0 0 started-IsValid refl
      name_a-IsFileName started-lookup refl started-HasRoom

tfs_write-writes_example :
    (s' : Tfs) × (tfs_write working_mutex (pos 0) text 3 with_a ≡ ok (pos (count with_a 0 3)) s')
    × Wrote with_a s' 0 (take (count with_a 0 3) text)
tfs_write-writes_example =
    tfs_write-writes working_mutex with_a 0 text 3 with_a-IsValid refl with_a-IsOpen (omega arith)
      (omega arith) (inr (1, with_a-room))

tfs_read-reads_example :
    (s' : Tfs) × (tfs_read working_mutex (pos 1) 10 opened_twice
      ≡ ok (pos (available opened_twice 1 10), bytes_read opened_twice 1 10) s')
    × IsValid s'
    × (s'.library_mutex ≡ false)
    × (offset_of s' 1 ≡ offset_of opened_twice 1 + available opened_twice 1 10)
    × ((t : List ℕ) → view s' t ≡ view opened_twice t)
tfs_read-reads_example =
    tfs_read-reads working_mutex opened_twice 1 10 opened_twice-IsValid refl opened_twice-IsOpen

tfs_open-existing_example :
    (s' : Tfs) × (tfs_open working_mutex (path name_a) tfs_o_append with_text ≡ ok (pos 1) s')
    × IsValid s'
    × (s'.library_mutex ≡ false)
    × IsOpen s' 1
    × (s'.open_file_table 1 ≡ file_entry (pos 1) (start_of with_text (pos 1) tfs_o_append))
    × ((t : List ℕ) → (lookup s' t ≡ lookup with_text t) × (view s' t ≡ view with_text t))
tfs_open-existing_example =
    tfs_open-existing working_mutex with_text name_a (pos 1) tfs_o_append 1 with_text-IsValid refl
      name_a-IsFileName with_text-lookup refl with_text-room

tfs_close-closes_example :
    (s' : Tfs) × (tfs_close working_mutex (pos 0) with_text ≡ ok (pos 0) s')
    × IsValid s'
    × (s'.library_mutex ≡ false)
    × (free_handle s' 0 ≡ true)
    × ((k : ℕ) → 0 ≢ k → free_handle s' k ≡ free_handle with_text k)
    × ((k : ℕ) → s'.open_file_table k ≡ with_text.open_file_table k)
    × ((t : List ℕ) → view s' t ≡ view with_text t)
tfs_close-closes_example =
    tfs_close-closes working_mutex with_text 0 with_text-IsValid refl with_text-IsOpen

tfs_unlink-removes_example :
    (s' : Tfs) × (tfs_unlink working_mutex (path name_a) closed_a ≡ ok (pos 0) s')
    × IsValid s'
    × (s'.library_mutex ≡ false)
    × (view s' name_a ≡ none)
    × ((t : List ℕ) → IsFileName t → t ≢ name_a → view s' t ≡ view closed_a t)
    × (s'.freeinode_ts ≡ update closed_a.freeinode_ts 1 free)
    × (s'.free_blocks ≡ (
        if ltb 0 (closed_a.inode_table 1).i_size
        then update closed_a.free_blocks (block_of closed_a 1) free
        else closed_a.free_blocks))
tfs_unlink-removes_example =
    tfs_unlink-removes working_mutex closed_a name_a (pos 1) closed_a-IsValid refl name_a-IsFileName
      with_text-lookup closed_a-NotOpen

closed_handle_fails_example :
    (tfs_close working_mutex (pos 2) started ≡ ok minus_one started)
    × (tfs_read working_mutex (pos 2) 3 started ≡ ok (minus_one, []) started)
    × (tfs_write working_mutex (pos 2) text 3 started ≡ ok minus_one started)
closed_handle_fails_example =
    closed_handle_fails working_mutex started refl (pos 2) text 3 (inl refl)

missing_file_fails_example :
    (tfs_unlink working_mutex (path name_a) started ≡ ok minus_one started)
    × (tfs_open working_mutex (path name_a) tfs_o_append started ≡ ok minus_one started)
missing_file_fails_example =
    missing_file_fails working_mutex started refl name_a tfs_o_append started-IsValid
      name_a-IsFileName started-lookup refl

tfs_unlink-dangling_example :
    (s' : Tfs) × (tfs_unlink working_mutex (path name_a) with_text ≡ ok (pos 0) s')
    × (view s' name_a ≡ none)
    × ((t : List ℕ) → IsFileName t → t ≢ name_a → view s' t ≡ view with_text t)
    × IsOpen s' 0
    × (is_free (s'.freeinode_ts (index (s'.open_file_table 0).of_inumber)) ≡ true)
    × (¬ IsValid s')
tfs_unlink-dangling_example =
    tfs_unlink-dangling working_mutex with_text name_a (pos 1) 0 with_text-IsValid refl
      name_a-IsFileName with_text-lookup with_text-IsOpen refl

tfs_init-twice_example :
    (s' : Tfs) × (tfs_init (some tfs_default_params) mallocs started ≡ ok minus_one s')
    × (s'.fs_params ≡ tfs_default_params)
    × (s' ≡ record started { fs_params = tfs_default_params })
    × (¬ IsValid s')
unfolding tfs_default_params
tfs_init-twice_example =
    tfs_init-twice started tfs_default_params mallocs started-IsValid (λ e. omega arith)

write_then_read-overwrite_example :
    (s' : Tfs) × (write_then_read working_mutex name_a (pos 0) text 3 10 with_text
      ≡ ok (pos (length (new_bytes with_text 0 text 3)), new_bytes with_text 0 text 3) s')
    × IsValid s'
    × (s'.library_mutex ≡ false)
unfolding read_bytes
write_then_read-overwrite_example =
    write_then_read-overwrite working_mutex with_text name_a 0 1 text 3 10 with_text-IsValid refl
      name_a-IsFileName with_text-IsOpen with_text-lookup (omega arith) (omega arith)
      (inl (omega arith)) with_text-room (omega arith)
