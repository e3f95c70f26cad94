-- ===== src/Fs/Directory.antt =====
-- Directories: clear_dir_entry, add_dir_entry and find_in_dir of fs/state.c, over the bytes of the
-- directory's block, read as an array of `dir_entry_t`.
pub mod Entries
pub mod Layout
pub mod Fill
pub mod Find
use proj_so.Prelude.{
  ℕ, ◌+◌, ◌-◌, ◌*◌, Bool, true, false, not, ◌&&◌, ◌||◌, List, [], ◌∷◌, Option, none, some, ltb,
  ◌==◌, if◌then◌else◌, length, replicate, update, find_index, ℤ, pos, minus_one, is_minus_one, M,
  ok, and_then, ◌>>=◌, ◌>>◌, pure, gets, modify,
}
use proj_so.Fs.Memory.{
  Bytes, write_bytes, store_int, load_int, strcmp_eq, strncmp_eq, strncpy_bytes,
}
use proj_so.Fs.State.{Tfs, InodeType, t_file, t_directory, max_file_name, max_dir_entries}
use proj_so.Fs.Blocks.{data_block_get}

-- The fields of the `i`-th `dir_entry_t` of a block.
abbrev pub d_name_at : ℕ → ℕ
d_name_at i = i * 44

abbrev pub d_inumber_at : ℕ → ℕ
d_inumber_at i = i * 44 + 40

abbrev pub d_inumber : Bytes → ℕ → ℤ
d_inumber m i = load_int m (d_inumber_at i)

abbrev pub is_directory : InodeType → Bool
is_directory t_directory = true
is_directory t_file = false

-- The body of the loop of clear_dir_entry that ends it.
pub clear_entry : Bytes → ℕ → Bytes
clear_entry m i =
    write_bytes (store_int m (d_inumber_at i) minus_one) (d_name_at i) (replicate max_file_name 0)

-- The same for add_dir_entry.
pub fill_entry : Bytes → ℕ → List ℕ → ℤ → Bytes
fill_entry m i sub_name sub_inumber =
    write_bytes
      (write_bytes (store_int m (d_inumber_at i) sub_inumber) (d_name_at i)
        (strncpy_bytes sub_name (max_file_name - 1)))
      (d_name_at i + (max_file_name - 1)) (0 ∷ [])

unfoldable pub clear_dir_entry : ℕ → List ℕ → M Tfs ℤ
unfolding clear_entry
clear_dir_entry inode sub_name = do
  n ← gets (λ s. s.inode_table inode)
  if not (is_directory n.i_node_type) then pure minus_one else (do
    b ← data_block_get n.i_data_block
    slot ←
        gets (λ s.
          find_index (max_dir_entries s) (λ i. strcmp_eq (s.fs_data b) (d_name_at i) sub_name))
    elim slot [
      | none ↦ pure minus_one
      | some i ↦ (do
        modify (λ s. record s { fs_data = update s.fs_data b (clear_entry (s.fs_data b) i) })
        pure (pos 0))
    ])

unfoldable pub add_dir_entry : ℕ → List ℕ → ℤ → M Tfs ℤ
unfolding fill_entry
add_dir_entry inode sub_name sub_inumber =
    if length sub_name == 0 || ltb (max_file_name - 1) (length sub_name)
    then pure minus_one
    else (do
      n ← gets (λ s. s.inode_table inode)
      if not (is_directory n.i_node_type) then pure minus_one else (do
        b ← data_block_get n.i_data_block
        slot ←
            gets
              (λ s. find_index (max_dir_entries s) (λ i. is_minus_one (d_inumber (s.fs_data b) i)))
        elim slot [
          | none ↦ pure minus_one
          | some i ↦ (do
            modify (λ s. record s {
              fs_data = update s.fs_data b (fill_entry (s.fs_data b) i sub_name sub_inumber);
            })
            pure (pos 0))
        ]))

unfoldable pub find_in_dir : ℕ → List ℕ → M Tfs ℤ
find_in_dir inode sub_name = do
  n ← gets (λ s. s.inode_table inode)
  if not (is_directory n.i_node_type) then pure minus_one else (do
    b ← data_block_get n.i_data_block
    slot ← gets (λ s. find_index (max_dir_entries s) (λ i.
        not (is_minus_one (d_inumber (s.fs_data b) i))
        && strncmp_eq (s.fs_data b) (d_name_at i) sub_name max_file_name))
    elim slot [ none ↦ pure minus_one | some i ↦ gets (λ s. d_inumber (s.fs_data b) i) ])
