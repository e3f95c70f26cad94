-- ===== src/Fs/Inodes.antt =====
-- The inode table: inode_alloc, inode_create, inode_delete and inode_get of fs/state.c. The pointer
-- to an inode is its index in the table.
use proj_so.Prelude.{
  ℕ, zero, suc, not, none, some, ltb, if◌then◌else◌, update, find_index, ℤ, pos, negsuc, minus_one,
  is_minus_one, index, to_int, M, ok, fault, ◌>>=◌, ◌>>◌, pure, always_assert, gets, modify,
}
use proj_so.Fs.Memory.{Bytes, store_int}
use proj_so.Fs.State.{
  Tfs, Inode, InodeType, t_file, t_directory, free, taken, is_free, valid_inumber, max_dir_entries,
}
use proj_so.Fs.Blocks.{data_block_alloc, data_block_free, data_block_get}
use proj_so.Fs.Directory.{d_inumber_at}

unfoldable pub inode_alloc : M Tfs ℤ
inode_alloc s = elim (find_index s.fs_params.max_inode_count (λ i. is_free (s.freeinode_ts i))) [
  | none ↦ ok minus_one s
  | some i ↦ ok (to_int i) (record s { freeinode_ts = update s.freeinode_ts i taken })
]

-- An `int` used as the index of an array: a negative one is outside of it.
abbrev pub as_index : ℤ → M Tfs ℕ
as_index (pos n) s = ok n s
as_index (negsuc n) s = fault

-- Assignments to the fields of an inode.
abbrev pub set_inode : ℕ → (Inode → Inode) → M Tfs (Unit {0})
set_inode i f =
    modify (λ s. record s { inode_table = update s.inode_table i (f (s.inode_table i)) })

unfoldable pub inode_delete : ℤ → M Tfs (Unit {0})
inode_delete inumber = do
  always_assert (λ s. valid_inumber s inumber)
  always_assert (λ s. not (is_free (s.freeinode_ts (index inumber))))
  inode ← gets (λ s. s.inode_table (index inumber))
  if ltb 0 inode.i_size then data_block_free inode.i_data_block else pure tt
  modify (λ s. record s { freeinode_ts = update s.freeinode_ts (index inumber) free })

unfoldable pub inode_get : ℤ → M Tfs ℕ
inode_get inumber = do always_assert (λ s. valid_inumber s inumber); pure (index inumber)

-- `for (i = 0; i < n; i++) dir_entry[i].d_inumber = -1;`
unfoldable pub empty_entries : ℕ → Bytes → Bytes
empty_entries zero m = m
empty_entries (suc n) m = store_int (empty_entries n m) (d_inumber_at n) minus_one

-- The case T_DIRECTORY of inode_create, once the type is set.
unfoldable pub inode_create_directory : ℤ → ℕ → M Tfs ℤ
unfolding empty_entries
inode_create_directory inumber inode = do
  b ← data_block_alloc
  if is_minus_one b
      then (do
        set_inode inode (λ n. record n { i_size = 0; i_data_block = minus_one })
        inode_delete inumber
        pure minus_one)
      else (do
        size ← gets (λ s. s.fs_params.block_size)
        set_inode inode (λ n. record n { i_size = size; i_data_block = b })
        p ← data_block_get b
        modify (λ s. record s {
          fs_data = update s.fs_data p (empty_entries (max_dir_entries s) (s.fs_data p));
        })
        pure inumber)

abbrev inode_create_as : InodeType → ℤ → ℕ → M Tfs ℤ
inode_create_as t_directory inumber inode = inode_create_directory inumber inode
inode_create_as t_file inumber inode = do
  set_inode inode (λ n. record n { i_size = 0; i_data_block = minus_one })
  pure inumber

unfoldable pub inode_create : InodeType → M Tfs ℤ
inode_create i_type = do
  inumber ← inode_alloc
  if is_minus_one inumber then pure minus_one else (do
    inode ← as_index inumber
    set_inode inode (λ n. record n { i_node_type = i_type })
    inode_create_as i_type inumber inode)
