-- ===== src/Fs/Invariant.antt =====
-- When the state of TécnicoFS is well formed, between two calls and inside one, and what it then
-- stands for: a map from file names to their bytes.
use proj_so.Prelude.{
  ap, ◌∙◌, ℕ, ◌^◌, ◌≤◌, ◌<◌, ◌≡◌, refl, ◌≢◌, Bool, true, false, List, Option, none, some, arith, ℤ,
  pos, negsuc, index, is_minus_one, is_nonneg,
}
use proj_so.Fs.Memory.{Bytes, read_bytes}
use proj_so.Fs.State.{
  Tfs, t_file, t_directory, is_free, valid_inumber, valid_block_number, max_dir_entries,
}
use proj_so.Fs.Directory.{d_inumber}
use proj_so.Fs.Directory.Entries.{IsFileName}
use proj_so.Fs.Directory.Layout.{unused, IsDirectory}
use proj_so.Fs.Directory.Find.{dir_lookup, Listed-of_lookup}

abbrev pub InodeTaken : Tfs → ℕ → Type 0
InodeTaken s i = is_free (s.freeinode_ts i) ≡ false

-- An inode with contents.
abbrev pub Filled : Tfs → ℕ → Type 0
Filled s i = 0 < (s.inode_table i).i_size

abbrev pub block_of : Tfs → ℕ → ℕ
block_of s i = index (s.inode_table i).i_data_block

-- The block of the root directory.
abbrev pub root_entries : Tfs → Bytes
root_entries s = s.fs_data 0

-- The number is that of an inode in use that is a file.
pub record IsFileInode (s : Tfs) (x : ℤ) : Type 0 where
  pub valid : valid_inumber s x ≡ true
  pub in_use : InodeTaken s (index x)
  pub file : (s.inode_table (index x)).i_node_type ≡ t_file

-- The inodes in use have blocks of their own.
pub record BlocksOwned (s : Tfs) : Type 0 where
  pub sizes :
      (i : ℕ)
      → i < s.fs_params.max_inode_count
      → InodeTaken s i
      → (s.inode_table i).i_size ≤ s.fs_params.block_size
  pub valid :
      (i : ℕ)
      → i < s.fs_params.max_inode_count
      → InodeTaken s i
      → Filled s i
      → valid_block_number s (s.inode_table i).i_data_block ≡ true
  pub in_use :
      (i : ℕ)
      → i < s.fs_params.max_inode_count
      → InodeTaken s i
      → Filled s i
      → is_free (s.free_blocks (block_of s i)) ≡ false
  pub apart :
      (i j : ℕ)
      → i < s.fs_params.max_inode_count
      → j < s.fs_params.max_inode_count
      → InodeTaken s i
      → InodeTaken s j
      → Filled s i
      → Filled s j
      → block_of s i ≡ block_of s j
      → i ≡ j

-- Every number in the root directory, and every open file, is a file in use, and no open file is
-- past the end of its file.
pub record IsLinked (s : Tfs) : Type 0 where
  pub entries :
      (j : ℕ)
      → j < max_dir_entries s
      → unused (root_entries s) j ≡ false
      → IsFileInode s (d_inumber (root_entries s) j)
  pub handles :
      (h : ℕ)
      → h < s.fs_params.max_open_files_count
      → is_free (s.free_open_file_entries h) ≡ false
      → IsFileInode s (s.open_file_table h).of_inumber
  pub offsets :
      (h : ℕ)
      → h < s.fs_params.max_open_files_count
      → is_free (s.free_open_file_entries h) ≡ false
      → (s.open_file_table h).of_offset
        ≤ (s.inode_table (index (s.open_file_table h).of_inumber)).i_size

-- The sizes that the casts to `int` and `ssize_t` allow, and the root directory in inode 0 and
-- block 0.
pub record HasRoot (s : Tfs) : Type 0 where
  pub alive : s.live ≡ true
  pub inodes_fit : s.fs_params.max_inode_count ≤ 2 ^ 31
  pub blocks_fit : s.fs_params.max_block_count ≤ 2 ^ 31
  pub opens_fit : s.fs_params.max_open_files_count ≤ 2 ^ 31
  pub block_fits : s.fs_params.block_size < 2 ^ 62
  pub block_there : 0 < s.fs_params.block_size
  pub root_there : 0 < s.fs_params.max_inode_count
  pub block_zero : 0 < s.fs_params.max_block_count
  pub root_taken : InodeTaken s 0
  pub root_type : (s.inode_table 0).i_node_type ≡ t_directory
  pub root_size : (s.inode_table 0).i_size ≡ s.fs_params.block_size
  pub root_block : (s.inode_table 0).i_data_block ≡ pos 0

pub record IsValid (s : Tfs) : Type 0 where
  pub root : HasRoot s
  pub blocks : BlocksOwned s
  pub directory : IsDirectory (max_dir_entries s) (root_entries s)
  pub linked : IsLinked s

-- The number that the root directory holds for a name.
abbrev pub lookup : Tfs → List ℕ → Option ℤ
lookup s name = dir_lookup (max_dir_entries s) (root_entries s) name

-- The bytes of a file.
abbrev pub contents : Tfs → ℕ → List ℕ
contents s i = read_bytes (s.fs_data (block_of s i)) 0 (s.inode_table i).i_size

-- The file system as a map from names to bytes.
abbrev pub view_at : Tfs → Option ℤ → Option (List ℕ)
view_at s none = none
view_at s (some x) = some (contents s (index x))

abbrev pub view : Tfs → List ℕ → Option (List ℕ)
view s name = view_at s (lookup s name)

-- No open file is the inode.
abbrev pub NotOpen : Tfs → ℤ → Type 0
NotOpen s x =
    (h : ℕ)
    → h < s.fs_params.max_open_files_count
    → is_free (s.free_open_file_entries h) ≡ false
    → (s.open_file_table h).of_inumber ≢ x

pub IsFileInode-pos : {s : Tfs} (x : ℤ) → IsFileInode s x → x ≡ pos (index x)
IsFileInode-pos (pos n) f = refl
IsFileInode-pos (negsuc n) f = let e = f.valid in cc

pub IsFileInode-lt : {s : Tfs} (x : ℤ) → IsFileInode s x → index x < s.fs_params.max_inode_count
IsFileInode-lt (pos n) f = let e = f.valid in ground arith
IsFileInode-lt (negsuc n) f = let e = f.valid in cc

pub IsFileInode-number : {s : Tfs} (x : ℤ) → IsFileInode s x → is_minus_one x ≡ false
IsFileInode-number (pos n) f = refl
IsFileInode-number (negsuc n) f = let e = f.valid in cc

pub IsFileInode-nonneg : {s : Tfs} (x : ℤ) → IsFileInode s x → is_nonneg x ≡ true
IsFileInode-nonneg (pos n) f = refl
IsFileInode-nonneg (negsuc n) f = let e = f.valid in cc

-- A file is not the root directory.
pub IsFileInode-ne_root : {s : Tfs} (x : ℤ) → HasRoot s → IsFileInode s x → 0 ≢ index x
IsFileInode-ne_root {s} x r f e =
    let p : (s.inode_table 0).i_node_type ≡ t_file = rw e f.file in let q = r.root_type in cc

-- A state that differs in the mutex alone is as well formed.
pub relock-IsValid : {s : Tfs} (b : Bool) → IsValid s → IsValid (record s { library_mutex = b })
relock-IsValid {s} b v = record {
  root = record {
    alive = r.alive;
    inodes_fit = r.inodes_fit;
    blocks_fit = r.blocks_fit;
    opens_fit = r.opens_fit;
    block_fits = r.block_fits;
    block_there = r.block_there;
    root_there = r.root_there;
    block_zero = r.block_zero;
    root_taken = r.root_taken;
    root_type = r.root_type;
    root_size = r.root_size;
    root_block = r.root_block;
  };
  blocks = record {
    sizes = v.blocks.sizes;
    valid = v.blocks.valid;
    in_use = v.blocks.in_use;
    apart = v.blocks.apart;
  };
  directory = v.directory;
  linked = record {
    entries = λ j h u. file (v.linked.entries j h u);
    handles = λ h p q. file (v.linked.handles h p q);
    offsets = v.linked.offsets;
  };
}
  where
    r : HasRoot s
    r = v.root

    file : {x : ℤ} → IsFileInode s x → IsFileInode (record s { library_mutex = b }) x
    file f = record { valid = f.valid; in_use = f.in_use; file = f.file }

-- The block of a file with contents is not the root's.
pub block_not_root :
    (s : Tfs)
    → IsValid s
    → (y : ℤ) → IsFileInode s y
    → Filled s (index y)
    → 0 ≢ block_of s (index y)
block_not_root s v y f q e =
    let r = v.root in
    let b0 : block_of s 0 ≡ 0 = ap index r.root_block in
    IsFileInode-ne_root y r f (
      v.blocks.apart 0 (index y) r.root_there (IsFileInode-lt y f) r.root_taken f.in_use
        (omega (arith, r.root_size, r.block_there)) q (b0 ∙ e))

-- What the root directory holds for a name is a file in use.
pub lookup-IsFileInode :
    (s : Tfs)
    → IsValid s
    → (t : List ℕ) → IsFileName t
    → (y : ℤ) → lookup s t ≡ some y
    → IsFileInode s y
lookup-IsFileInode s v t f y e =
    let (k, l, number) = Listed-of_lookup (max_dir_entries s) (root_entries s) t f y e in
    rw (← number) (v.linked.entries k l.below l.used)
