-- ===== src/Fs/State.antt =====
-- The state of TécnicoFS: the types of fs/state.h and fs/operations.h, the static variables of
-- fs/state.c with the library's mutex of fs/operations.c, and state_init and state_destroy.
use proj_so.Prelude.{
  ℕ, zero, suc, ◌/◌, Bool, true, false, ◌&&◌, Option, none, some, update, if◌then◌else◌, ltb, ℤ,
  pos, negsuc, minus_one, M, ok,
}
use proj_so.Fs.Memory.{Bytes}

pub record TfsParams : Type 0 where
  pub max_inode_count : ℕ
  pub max_block_count : ℕ
  pub max_open_files_count : ℕ
  pub block_size : ℕ

pub data InodeType : Type 0 where
  t_file t_directory : InodeType

pub record Inode : Type 0 where
  pub i_node_type : InodeType
  pub i_size : ℕ
  pub i_data_block : ℤ

pub data AllocationState : Type 0 where
  free taken : AllocationState

abbrev pub is_free : AllocationState → Bool
is_free free = true
is_free taken = false

pub record OpenFileEntry : Type 0 where
  pub of_inumber : ℤ
  pub of_offset : ℕ

-- `live` is `inode_table != NULL`; `library_mutex` is whether the mutex is held.
pub record Tfs : Type 0 where
  pub fs_params : TfsParams
  pub live : Bool
  pub inode_table : ℕ → Inode
  pub freeinode_ts : ℕ → AllocationState
  pub fs_data : ℕ → Bytes
  pub free_blocks : ℕ → AllocationState
  pub open_file_table : ℕ → OpenFileEntry
  pub free_open_file_entries : ℕ → AllocationState
  pub library_mutex : Bool

-- MAX_FILE_NAME and ROOT_DIR_INUM of fs/config.h
abbrev pub max_file_name : ℕ
max_file_name = 40

abbrev pub root_dir_inum : ℤ
root_dir_inum = pos 0

-- MAX_DIR_ENTRIES: a `dir_entry_t` is a name and an `int`, 44 bytes.
abbrev pub max_dir_entries : Tfs → ℕ
max_dir_entries s = s.fs_params.block_size / 44

abbrev pub valid_inumber : Tfs → ℤ → Bool
valid_inumber s (pos n) = ltb n s.fs_params.max_inode_count
valid_inumber s (negsuc n) = false

abbrev pub valid_block_number : Tfs → ℤ → Bool
valid_block_number s (pos n) = ltb n s.fs_params.max_block_count
valid_block_number s (negsuc n) = false

abbrev pub valid_file_handle : Tfs → ℤ → Bool
valid_file_handle s (pos n) = ltb n s.fs_params.max_open_files_count
valid_file_handle s (negsuc n) = false

unfoldable pub state_block_size : M Tfs ℕ
state_block_size s = ok s.fs_params.block_size s

-- What the six calls of malloc in state_init return: NULL, or memory with any contents.
pub record Mallocs : Type 0 where
  pub inode_table : Option (ℕ → Inode)
  pub freeinode_ts : Option (ℕ → AllocationState)
  pub fs_data : Option (ℕ → Bytes)
  pub free_blocks : Option (ℕ → AllocationState)
  pub open_file_table : Option (ℕ → OpenFileEntry)
  pub free_open_file_entries : Option (ℕ → AllocationState)

-- `for (i = 0; i < n; i++) table[i] = FREE;`
unfoldable pub free_all : ℕ → (ℕ → AllocationState) → ℕ → AllocationState
free_all zero table = table
free_all (suc n) table = update (free_all n table) n free

abbrev pub is_some {ℓ} : {A : Type ℓ} → Option A → Bool
is_some none = false
is_some (some a) = true

abbrev pub or_old {ℓ} : {A : Type ℓ} → Option A → A → A
or_old none old = old
or_old (some new) old = new

abbrev pub all_allocated : Mallocs → Bool
all_allocated h =
    is_some h.inode_table
    && is_some h.freeinode_ts
    && is_some h.fs_data
    && is_some h.free_blocks
    && is_some h.open_file_table
    && is_some h.free_open_file_entries

-- The state with the arrays that malloc gave. `live` tells whether inode_table is a pointer; where
-- another array is NULL the old one stays in its place, so after such a failure, on which state_init
-- returns -1, the model says nothing about that array.
abbrev pub with_arrays : Mallocs → Tfs → Tfs
with_arrays h s = record s {
  live = is_some h.inode_table;
  inode_table = or_old h.inode_table s.inode_table;
  freeinode_ts = or_old h.freeinode_ts s.freeinode_ts;
  fs_data = or_old h.fs_data s.fs_data;
  free_blocks = or_old h.free_blocks s.free_blocks;
  open_file_table = or_old h.open_file_table s.open_file_table;
  free_open_file_entries = or_old h.free_open_file_entries s.free_open_file_entries;
}

abbrev pub with_free_tables : Tfs → Tfs
with_free_tables s = record s {
  freeinode_ts = free_all s.fs_params.max_inode_count s.freeinode_ts;
  free_blocks = free_all s.fs_params.max_block_count s.free_blocks;
  free_open_file_entries = free_all s.fs_params.max_open_files_count s.free_open_file_entries;
}

unfoldable pub state_init : TfsParams → Mallocs → M Tfs ℤ
state_init params h s =
    let s' = record s { fs_params = params } in
    if s.live
    then ok minus_one s'
    else if all_allocated h
    then ok (pos 0) (with_free_tables (with_arrays h s'))
    else ok minus_one (with_arrays h s')

unfoldable pub state_destroy : M Tfs ℤ
state_destroy s = ok (pos 0) (record s { live = false })
