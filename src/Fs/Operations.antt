-- ===== src/Fs/Operations.antt =====
-- The entry points of TécnicoFS: fs/operations.c. A path is the list of its bytes, and is not NULL.
use proj_so.Prelude.{
  ℕ, ◌+◌, Bool, true, false, not, ◌&&◌, List, [], Option, none, some, ltb, leb, ◌==◌, if◌then◌else◌,
  length, get_or, take, drop, update, ℤ, pos, minus_one, is_minus_one, is_nonneg, is_zero, add_size,
  sub_size, to_ssize, bit_and, M, ok, fault, ◌>>=◌, ◌>>◌, pure, gets, modify,
}
use proj_so.Fs.Memory.{write_bytes, read_bytes}
use proj_so.Fs.State.{
  Tfs, TfsParams, Mallocs, t_file, t_directory, root_dir_inum, state_block_size, state_init,
  state_destroy,
}
use proj_so.Fs.Blocks.{data_block_alloc, data_block_free, data_block_get}
use proj_so.Fs.Inodes.{inode_create, inode_delete, inode_get, set_inode}
use proj_so.Fs.Directory.{find_in_dir, add_dir_entry, clear_dir_entry}
use proj_so.Fs.OpenFiles.{add_to_open_file_table, remove_from_open_file_table, get_open_file_entry}
use proj_so.Fs.Mutex.{Mutex, locked}

unfoldable pub tfs_default_params : TfsParams
tfs_default_params = record {
  max_inode_count = 64;
  max_block_count = 1024;
  max_open_files_count = 16;
  block_size = 1024;
}

abbrev or_default : Option TfsParams → TfsParams
or_default none = tfs_default_params
or_default (some params) = params

unfoldable pub tfs_init : Option TfsParams → Mallocs → M Tfs ℤ
tfs_init params_ptr mallocs = do
  code ← state_init (or_default params_ptr) mallocs
  if not (is_zero code) then pure minus_one else (do
    root ← inode_create t_directory
    if is_zero root then pure (pos 0) else pure minus_one)

unfoldable pub tfs_destroy : M Tfs ℤ
tfs_destroy = do code ← state_destroy; if is_zero code then pure (pos 0) else pure minus_one

abbrev pub slash : ℕ
slash = b'/'

abbrev pub valid_pathname : List ℕ → Bool
valid_pathname name = ltb 1 (length name) && get_or name 0 0 == slash

unfoldable pub tfs_lookup : List ℕ → ℕ → M Tfs ℤ
tfs_lookup name root_inode =
    if not (valid_pathname name) then pure minus_one else find_in_dir root_inode (drop 1 name)

-- TFS_O_CREAT, TFS_O_TRUNC and TFS_O_APPEND of utils/common.h, and the test `mode & flag`.
abbrev pub tfs_o_creat : ℕ
tfs_o_creat = 0b001

abbrev pub tfs_o_trunc : ℕ
tfs_o_trunc = 0b010

abbrev pub tfs_o_append : ℕ
tfs_o_append = 0b100

abbrev pub has_flag : ℕ → ℕ → Bool
has_flag mode flag = not (bit_and mode flag == 0)

-- The branch `mode & TFS_O_TRUNC` of tfs_open.
unfoldable pub truncate : ℕ → M Tfs (Unit {0})
truncate i = do
  inode ← gets (λ s. s.inode_table i)
  if ltb 0 inode.i_size
      then (do data_block_free inode.i_data_block; set_inode i (λ n. record n { i_size = 0 }))
      else pure tt

-- tfs_open, where the file is there.
unfoldable pub open_existing : ℤ → ℕ → M Tfs ℤ
open_existing inum mode = do
  i ← inode_get inum
  if has_flag mode tfs_o_trunc then truncate i else pure tt
  inode ← gets (λ s. s.inode_table i)
  add_to_open_file_table inum (if has_flag mode tfs_o_append then inode.i_size else 0)

-- tfs_open, where the file is to be created.
unfoldable pub open_new : ℕ → List ℕ → M Tfs ℤ
open_new root_dir_inode name = do
  inum ← inode_create t_file
  if is_minus_one inum then pure minus_one else (do
    code ← add_dir_entry root_dir_inode (drop 1 name) inum
    if is_minus_one code
        then (do inode_delete inum; pure minus_one)
        else add_to_open_file_table inum 0)

unfoldable pub tfs_open_body : List ℕ → ℕ → M Tfs ℤ
tfs_open_body name mode = if not (valid_pathname name) then pure minus_one else (do
  root_dir_inode ← inode_get root_dir_inum
  inum ← tfs_lookup name root_dir_inode
  if is_nonneg inum
      then open_existing inum mode
      else if has_flag mode tfs_o_creat
      then open_new root_dir_inode name
      else pure minus_one)

unfoldable pub tfs_close_body : ℤ → M Tfs ℤ
tfs_close_body fhandle = do
  file ← get_open_file_entry fhandle
  elim file [
    | none ↦ pure minus_one
    | some _ ↦ (do remove_from_open_file_table fhandle; pure (pos 0))
  ]

-- `memcpy(block + offset, buffer, n)`, which must stay inside the block and the buffer.
unfoldable pub copy_in : ℕ → ℕ → List ℕ → ℕ → M Tfs (Unit {0})
copy_in block offset buffer n s =
    if leb (offset + n) s.fs_params.block_size && leb n (length buffer)
    then ok tt (record s {
      fs_data = update s.fs_data block (write_bytes (s.fs_data block) offset (take n buffer));
    })
    else fault

-- `memcpy(buffer, block + offset, n)`
unfoldable pub copy_out : ℕ → ℕ → ℕ → M Tfs (List ℕ)
copy_out block offset n s =
    if leb (offset + n) s.fs_params.block_size
    then ok (read_bytes (s.fs_data block) offset n) s
    else fault

-- `file->of_offset += n`
abbrev pub advance : ℕ → ℕ → Tfs → Tfs
advance file n s = record s {
  open_file_table = update s.open_file_table file (record (s.open_file_table file) {
    of_offset = add_size (s.open_file_table file).of_offset n;
  });
}

-- An empty file gets a block before the first write. The result tells whether there is one.
unfoldable pub ensure_block : ℕ → M Tfs Bool
ensure_block i = do
  inode ← gets (λ s. s.inode_table i)
  if inode.i_size == 0
      then (do
        bnum ← data_block_alloc
        if is_minus_one bnum
            then pure false
            else (do set_inode i (λ n. record n { i_data_block = bnum }); pure true))
      else pure true

-- `if (file->of_offset > inode->i_size) inode->i_size = file->of_offset;`
abbrev pub grow_to : ℕ → ℕ → M Tfs (Unit {0})
grow_to i offset =
    set_inode i (λ n. record n { i_size = if ltb n.i_size offset then offset else n.i_size })

-- tfs_write, once the handle, the inode and the number of bytes are known.
unfoldable pub write_at : ℕ → ℕ → List ℕ → ℕ → M Tfs ℤ
write_at file i buffer n = do
  there ← ensure_block i
  if not there then pure minus_one else (do
    inode ← gets (λ s. s.inode_table i)
    block ← data_block_get inode.i_data_block
    offset ← gets (λ s. (s.open_file_table file).of_offset)
    copy_in block offset buffer n
    modify (advance file n)
    offset' ← gets (λ s. (s.open_file_table file).of_offset)
    grow_to i offset'
    pure (to_ssize n))

-- How many bytes tfs_write writes.
abbrev pub clip : ℕ → ℕ → ℕ → ℕ
clip block_size offset to_write =
    if ltb block_size (add_size to_write offset) then sub_size block_size offset else to_write

unfoldable pub tfs_write_body : ℤ → List ℕ → ℕ → M Tfs ℤ
tfs_write_body fhandle buffer to_write = do
  entry ← get_open_file_entry fhandle
  elim entry [
    | none ↦ pure minus_one
    | some file ↦ (do
      f ← gets (λ s. s.open_file_table file)
      i ← inode_get f.of_inumber
      block_size ← state_block_size
      let n = clip block_size f.of_offset to_write
      if ltb 0 n then write_at file i buffer n else pure (to_ssize n))
  ]

-- tfs_read, once the handle, the inode and the number of bytes are known.
unfoldable pub read_at : ℕ → ℕ → ℕ → M Tfs (ℤ × List ℕ)
read_at file i n = do
  inode ← gets (λ s. s.inode_table i)
  block ← data_block_get inode.i_data_block
  offset ← gets (λ s. (s.open_file_table file).of_offset)
  bytes ← copy_out block offset n
  modify (advance file n)
  pure (to_ssize n, bytes)

-- The result is what tfs_read returns, and the bytes that it puts into the buffer.
unfoldable pub tfs_read_body : ℤ → ℕ → M Tfs (ℤ × List ℕ)
tfs_read_body fhandle len = do
  entry ← get_open_file_entry fhandle
  elim entry [
    | none ↦ pure (minus_one, [])
    | some file ↦ (do
      f ← gets (λ s. s.open_file_table file)
      i ← inode_get f.of_inumber
      inode ← gets (λ s. s.inode_table i)
      let left = sub_size inode.i_size f.of_offset
      let to_read = if ltb len left then len else left
      if ltb 0 to_read then read_at file i to_read else pure (to_ssize to_read, []))
  ]

unfoldable pub tfs_unlink_body : List ℕ → M Tfs ℤ
tfs_unlink_body target = if not (valid_pathname target) then pure minus_one else (do
  root_dir_inode ← inode_get root_dir_inum
  inum ← tfs_lookup target root_dir_inode
  if is_minus_one inum then pure minus_one else (do
    inode_delete inum
    code ← clear_dir_entry root_dir_inode (drop 1 target)
    if is_minus_one code then pure minus_one else pure (pos 0)))

module _ (mutex : Mutex) where
  unfoldable pub tfs_open : List ℕ → ℕ → M Tfs ℤ
  tfs_open name mode = locked mutex minus_one (tfs_open_body name mode)

  unfoldable pub tfs_close : ℤ → M Tfs ℤ
  tfs_close fhandle = locked mutex minus_one (tfs_close_body fhandle)

  unfoldable pub tfs_write : ℤ → List ℕ → ℕ → M Tfs ℤ
  tfs_write fhandle buffer to_write =
      locked mutex minus_one (tfs_write_body fhandle buffer to_write)

  unfoldable pub tfs_read : ℤ → ℕ → M Tfs (ℤ × List ℕ)
  tfs_read fhandle len = locked mutex (minus_one, []) (tfs_read_body fhandle len)

  unfoldable pub tfs_unlink : List ℕ → M Tfs ℤ
  tfs_unlink target = locked mutex minus_one (tfs_unlink_body target)
