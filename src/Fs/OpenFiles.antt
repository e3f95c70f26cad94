-- ===== src/Fs/OpenFiles.antt =====
-- The open file table: add_to_open_file_table, remove_from_open_file_table and get_open_file_entry
-- of fs/state.c.
use proj_so.Prelude.{
  ℕ, not, Option, none, some, if◌then◌else◌, update, find_index, ℤ, pos, minus_one, index, M, ok,
  ◌>>◌, always_assert, modify,
}
use proj_so.Fs.State.{Tfs, free, taken, is_free, valid_file_handle}

unfoldable pub add_to_open_file_table : ℤ → ℕ → M Tfs ℤ
add_to_open_file_table inumber offset s =
    elim (find_index s.fs_params.max_open_files_count (λ i. is_free (s.free_open_file_entries i))) [
      | none ↦ ok minus_one s
      | some i ↦ ok (pos i) (record s {
        free_open_file_entries = update s.free_open_file_entries i taken;
        open_file_table =
            update s.open_file_table i (record { of_inumber = inumber; of_offset = offset });
      })
    ]

unfoldable pub remove_from_open_file_table : ℤ → M Tfs (Unit {0})
remove_from_open_file_table fhandle = do
  always_assert (λ s. valid_file_handle s fhandle)
  always_assert (λ s. not (is_free (s.free_open_file_entries (index fhandle))))
  modify (λ s. record s {
    free_open_file_entries = update s.free_open_file_entries (index fhandle) free;
  })

-- NULL is `none`; the pointer to an entry is its index in the table.
unfoldable pub get_open_file_entry : ℤ → M Tfs (Option ℕ)
get_open_file_entry fhandle s =
    if not (valid_file_handle s fhandle)
    then ok none s
    else if is_free (s.free_open_file_entries (index fhandle))
    then ok none s
    else ok (some (index fhandle)) s
