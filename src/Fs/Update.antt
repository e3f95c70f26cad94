-- ===== src/Fs/Update.antt =====
-- The changes that the calls make to a well formed state one after the other: another content of the
-- root directory, an entry of the open file table, a new inode. Each keeps the state well formed.
use proj_so.Prelude.{
  ℕ, ◌≤◌, ◌<◌, ◌≡◌, sym, ap, ◌∙◌, ◌≢◌, true, false, arith, lt→ltb, ℕ_discrete, update, update_self,
  update_ne, ℤ, pos, minus_one, index,
}
use proj_so.Fs.Memory.{Bytes}
use proj_so.Fs.Memory.Laws.{read_bytes_cong}
use proj_so.Fs.State.{Tfs, Inode, t_file, taken, is_free, max_dir_entries, OpenFileEntry}
use proj_so.Fs.Directory.{d_inumber}
use proj_so.Fs.Directory.Layout.{unused, IsDirectory}
use proj_so.Fs.Invariant.{
  InodeTaken, Filled, block_of, root_entries, IsFileInode, BlocksOwned, HasRoot, IsValid, contents,
  block_not_root,
}

-- The state with another content of the root directory.
abbrev pub with_entries : Tfs → Bytes → Tfs
with_entries s m = record s { fs_data = update s.fs_data 0 m }

-- The state with another entry in the open file table, which is taken.
abbrev pub with_handle : Tfs → ℕ → OpenFileEntry → Tfs
with_handle s h e = record s {
  free_open_file_entries = update s.free_open_file_entries h taken;
  open_file_table = update s.open_file_table h e;
}

abbrev pub empty_file : Inode
empty_file = record { i_node_type = t_file; i_size = 0; i_data_block = minus_one }

-- The state with a new empty file.
abbrev pub with_file : Tfs → ℕ → Tfs
with_file s i = record s {
  freeinode_ts = update s.freeinode_ts i taken;
  inode_table = update s.inode_table i empty_file;
}

pub with_entries-HasRoot : (s : Tfs) (m : Bytes) → HasRoot s → HasRoot (with_entries s m)
with_entries-HasRoot s m r = record {
  alive = r.alive;
  inodes_fit = r.inodes_fit;
  blocks_fit = r.blocks_fit;
  opens_fit = r.opens_fit;
  block_fits = r.block_fits;
  block_there = r.block_there;
  root_there = r.root_there;
  block_zero = r.block_zero;
  root_taken = r.root_taken;
  root_type = r.root_type;
  root_size = r.root_size;
  root_block = r.root_block;
}

pub with_entries-IsValid :
    (s : Tfs) (m : Bytes)
    → IsValid s
    → IsDirectory (max_dir_entries s) m
    → ((j : ℕ) → j < max_dir_entries s → unused m j ≡ false → IsFileInode s (d_inumber m j))
    → IsValid (with_entries s m)
with_entries-IsValid s m v d files = record {
  root = with_entries-HasRoot s m v.root;
  blocks = record {
    sizes = v.blocks.sizes;
    valid = v.blocks.valid;
    in_use = v.blocks.in_use;
    apart = v.blocks.apart;
  };
  directory = d;
  linked = record {
    entries = λ j h u. file (files j h u);
    handles = λ h p q. file (v.linked.handles h p q);
    offsets = v.linked.offsets;
  };
}
  where
    file : {x : ℤ} → IsFileInode s x → IsFileInode (with_entries s m) x
    file f = record { valid = f.valid; in_use = f.in_use; file = f.file }

-- The bytes of the files do not stand in the block of the directory.
pub contents-with_entries :
    (s : Tfs) (m : Bytes) (y : ℤ)
    → IsValid s
    → IsFileInode s y
    → contents (with_entries s m) (index y) ≡ contents s (index y)
contents-with_entries s m y v g =
    read_bytes_cong _ _ 0 (s.inode_table (index y)).i_size
      (λ q. update_ne s.fs_data 0 m (block_of s (index y)) (block_not_root s v y g q))

pub with_handle-IsValid :
    (s : Tfs) (h : ℕ) (e : OpenFileEntry)
    → IsValid s
    → IsFileInode s e.of_inumber
    → e.of_offset ≤ (s.inode_table (index e.of_inumber)).i_size
    → IsValid (with_handle s h e)
with_handle-IsValid s h e v f fits = record {
  root = record {
    alive = r.alive;
    inodes_fit = r.inodes_fit;
    blocks_fit = r.blocks_fit;
    opens_fit = r.opens_fit;
    block_fits = r.block_fits;
    block_there = r.block_there;
    root_there = r.root_there;
    block_zero = r.block_zero;
    root_taken = r.root_taken;
    root_type = r.root_type;
    root_size = r.root_size;
    root_block = r.root_block;
  };
  blocks = record {
    sizes = v.blocks.sizes;
    valid = v.blocks.valid;
    in_use = v.blocks.in_use;
    apart = v.blocks.apart;
  };
  directory = v.directory;
  linked = record {
    entries = λ j p u. file (v.linked.entries j p u);
    handles = λ k p q. elim (ℕ_discrete h k) [
      | yes same ↦ rw (← same, update_self s.open_file_table h e) (file f)
      | no other ↦ rw (update_ne s.open_file_table h e k other) (
          file (
            v.linked.handles k p
              (sym (ap is_free (update_ne s.free_open_file_entries h taken k other)) ∙ q)))
    ];
    offsets = λ k p q. elim (ℕ_discrete h k) [
      | yes same ↦ rw (← same, update_self s.open_file_table h e) fits
      | no other ↦ rw (update_ne s.open_file_table h e k other) (
          v.linked.offsets k p
            (sym (ap is_free (update_ne s.free_open_file_entries h taken k other)) ∙ q))
    ];
  };
}
  where
    r : HasRoot s
    r = v.root

    file : {x : ℤ} → IsFileInode s x → IsFileInode (with_handle s h e) x
    file g = record { valid = g.valid; in_use = g.in_use; file = g.file }

module _ (s : Tfs) (v : IsValid s) (i : ℕ) (unborn : is_free (s.freeinode_ts i) ≡ true) where
  pub file_elsewhere : (y : ℤ) → IsFileInode s y → i ≢ index y
  file_elsewhere y f e =
      let p : is_free (s.freeinode_ts (index y)) ≡ true = rw e at unborn in let q = f.in_use in cc

  pub with_file-stays : (y : ℤ) → IsFileInode s y → IsFileInode (with_file s i) y
  with_file-stays y f =
      let ne = file_elsewhere y f in
      record {
        valid = f.valid;
        in_use = ap is_free (update_ne s.freeinode_ts i taken (index y) ne) ∙ f.in_use;
        file =
            ap (λ (n : Inode). n.i_node_type) (update_ne s.inode_table i empty_file (index y) ne)
            ∙ f.file;
      }

  pub contents-with_file :
      (y : ℤ) → IsFileInode s y → contents (with_file s i) (index y) ≡ contents s (index y)
  contents-with_file y f = rw (update_ne s.inode_table i empty_file (index y) (file_elsewhere y f))

  pub not_root : i ≢ 0
  not_root e =
      let p : is_free (s.freeinode_ts 0) ≡ true = rw e at unborn in let q = v.root.root_taken in cc

  same_root : update s.inode_table i empty_file 0 ≡ s.inode_table 0
  same_root = update_ne s.inode_table i empty_file 0 not_root

  with_file-HasRoot : HasRoot (with_file s i)
  with_file-HasRoot = record {
    alive = r.alive;
    inodes_fit = r.inodes_fit;
    blocks_fit = r.blocks_fit;
    opens_fit = r.opens_fit;
    block_fits = r.block_fits;
    block_there = r.block_there;
    root_there = r.root_there;
    block_zero = r.block_zero;
    root_taken = ap is_free (update_ne s.freeinode_ts i taken 0 not_root) ∙ r.root_taken;
    root_type = rw same_root r.root_type;
    root_size = rw same_root r.root_size;
    root_block = rw same_root r.root_block;
  }
    where
      r : HasRoot s
      r = v.root

  -- An inode in use with contents is not the new one.
  Filled-before :
      (k : ℕ)
      → InodeTaken (with_file s i) k
      → Filled (with_file s i) k
      → (i ≢ k) × InodeTaken s k × Filled s k
  Filled-before k t q = ground arith

  with_file-BlocksOwned : BlocksOwned (with_file s i)
  with_file-BlocksOwned = record {
    sizes = λ k h t. elim (ℕ_discrete i k) [
      | yes same ↦ rw (← same, update_self s.inode_table i empty_file) (omega arith)
      | no other ↦
          rw (update_ne s.inode_table i empty_file k other)
            (b.sizes k h (sym (ap is_free (update_ne s.freeinode_ts i taken k other)) ∙ t))
    ];
    valid = λ k h t q.
        let (other, t', q') = Filled-before k t q in
        rw (update_ne s.inode_table i empty_file k other) (b.valid k h t' q');
    in_use = λ k h t q.
        let (other, t', q') = Filled-before k t q in
        rw (update_ne s.inode_table i empty_file k other) (b.in_use k h t' q');
    apart = λ k l hk hl tk tl qk ql e.
        let (ok', tk', qk') = Filled-before k tk qk in
        let (ol', tl', ql') = Filled-before l tl ql in
        b.apart k l hk hl tk' tl' qk' ql' (
          sym
            (ap (λ (n : Inode). index n.i_data_block) (update_ne s.inode_table i empty_file k ok'))
          ∙ e
          ∙ ap (λ (n : Inode). index n.i_data_block) (update_ne s.inode_table i empty_file l ol'));
  }
    where
      b : BlocksOwned s
      b = v.blocks

  pub with_file-IsValid : IsValid (with_file s i)
  with_file-IsValid = record {
    root = with_file-HasRoot;
    blocks = with_file-BlocksOwned;
    directory = v.directory;
    linked = record {
      entries = λ j h u. with_file-stays (d_inumber (root_entries s) j) (v.linked.entries j h u);
      handles = λ h p q. with_file-stays (s.open_file_table h).of_inumber (v.linked.handles h p q);
      offsets = λ h p q.
          rw
            (update_ne s.inode_table i empty_file (index (s.open_file_table h).of_inumber)
              (file_elsewhere (s.open_file_table h).of_inumber (v.linked.handles h p q)))
            (v.linked.offsets h p q);
    };
  }

  -- The new inode is a file.
  pub with_file-IsFileInode : i < s.fs_params.max_inode_count → IsFileInode (with_file s i) (pos i)
  with_file-IsFileInode h = record {
    valid = lt→ltb _ _ h;
    in_use = ap is_free (update_self s.freeinode_ts i taken);
    file = ap (λ (n : Inode). n.i_node_type) (update_self s.inode_table i empty_file);
  }
