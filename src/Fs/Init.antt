-- ===== src/Fs/Init.antt =====
-- tfs_init: the first state of TécnicoFS is well formed and has no file.
use proj_so.Prelude.{
  ℕ, zero, suc, ◌^◌, ◌≤◌, ◌<◌, ◌≡◌, refl, sym, ap, ◌∙◌, inl, true, false, List, none, some, arith,
  lt→ltb, ℕ_discrete, Found, update, update_self, update_ne, pos, minus_one, is_minus_one, ok,
}
use proj_so.Fs.Memory.{Bytes, store_int}
use proj_so.Fs.Memory.Laws.{load_int-SameFrom, load_int-store_int, store_int-SameFrom}
use proj_so.Fs.State.{
  Tfs, TfsParams, Mallocs, Inode, AllocationState, t_directory, free, taken, is_free, is_some,
  or_old, free_all, all_allocated, with_arrays, with_free_tables, max_dir_entries, state_init,
}
use proj_so.Fs.Inodes.{empty_entries, inode_create_directory, inode_create}
use proj_so.Fs.Directory.{d_inumber, d_inumber_at}
use proj_so.Fs.Directory.Entries.{IsFileName}
use proj_so.Fs.Directory.Layout.{unused}
use proj_so.Fs.Directory.Find.{dir_lookup-Absent}
use proj_so.Fs.Operations.{tfs_init}
use proj_so.Fs.Invariant.{lookup, InodeTaken, IsValid, view, root_entries}
use proj_so.Fs.Lookup.{data_block_get-ok}
use proj_so.Fs.Open.{inode_alloc-ok, free_inode, free_handle, update_twice}
use proj_so.Fs.Write.{data_block_alloc-ok, free_block}

free_all-lt :
    (n : ℕ) (table : ℕ → AllocationState) (j : ℕ) → j < n → is_free (free_all n table j) ≡ true
unfolding free_all
free_all-lt zero table j h = absurd (omega arith)
free_all-lt (suc n) table j h = elim (ℕ_discrete n j) [
  | yes e ↦ rw (← e) (ap is_free (update_self (free_all n table) n free))
  | no ne ↦
      ap is_free (update_ne (free_all n table) n free j ne) ∙ free_all-lt n table j (omega arith)
]

d_inumber-empty_entries :
    (n : ℕ) (m : Bytes) (j : ℕ) → j < n → d_inumber (empty_entries n m) j ≡ minus_one
unfolding empty_entries
d_inumber-empty_entries zero m j h = absurd (omega arith)
d_inumber-empty_entries (suc n) m j h = elim (ℕ_discrete n j) [
  | yes e ↦
      rw (← e) (load_int-store_int (empty_entries n m) (d_inumber_at n) minus_one (omega arith))
  | no ne ↦
      load_int-SameFrom (store_int (empty_entries n m) (d_inumber_at n) minus_one)
        (empty_entries n m) (d_inumber_at j)
        (store_int-SameFrom (empty_entries n m) (d_inumber_at n) minus_one (d_inumber_at j) 4
          (inl (omega arith)))
      ∙ d_inumber-empty_entries n m j (omega arith)
]

-- The sizes for which the casts of the code lose nothing, with room for the root directory.
pub record ParamsFit (p : TfsParams) : Type 0 where
  pub inodes : p.max_inode_count ≤ 2 ^ 31
  pub blocks : p.max_block_count ≤ 2 ^ 31
  pub opens : p.max_open_files_count ≤ 2 ^ 31
  pub block : p.block_size < 2 ^ 62
  pub some_inode : 0 < p.max_inode_count
  pub some_block : 0 < p.max_block_count
  pub some_byte : 0 < p.block_size

abbrev root_inode : ℕ → Inode
root_inode size = record { i_node_type = t_directory; i_size = size; i_data_block = pos 0 }

-- The state after the root directory is created in inode 0 and block 0 of an empty file system.
abbrev pub rooted : Tfs → Tfs
rooted s = record s {
  freeinode_ts = update s.freeinode_ts 0 taken;
  free_blocks = update s.free_blocks 0 taken;
  inode_table = update s.inode_table 0 (root_inode s.fs_params.block_size);
  fs_data = update s.fs_data 0 (empty_entries (max_dir_entries s) (s.fs_data 0));
}

pub record IsEmpty (s : Tfs) : Type 0 where
  pub alive : s.live ≡ true
  pub fit : ParamsFit s.fs_params
  pub inodes : (i : ℕ) → i < s.fs_params.max_inode_count → is_free (s.freeinode_ts i) ≡ true
  pub blocks : (b : ℕ) → b < s.fs_params.max_block_count → is_free (s.free_blocks b) ≡ true
  pub handles :
      (h : ℕ) → h < s.fs_params.max_open_files_count → is_free (s.free_open_file_entries h) ≡ true

module _ (s : Tfs) (e : IsEmpty s) where
  inode_create-root : inode_create t_directory s ≡ ok (pos 0) (rooted s)
  unfolding inode_create inode_create_directory
  inode_create-root =
      let fit = e.fit in
      let typed : Inode = record (s.inode_table 0) { i_node_type = t_directory } in
      let s₁ : Tfs = record s {
        freeinode_ts = update s.freeinode_ts 0 taken;
        inode_table = update s.inode_table 0 typed;
      } in
      let i : Found s.fs_params.max_inode_count (free_inode s) 0 = record {
        below = fit.some_inode;
        passes = e.inodes 0 fit.some_inode;
        first = λ j q. absurd (omega arith);
      } in
      let b : Found s.fs_params.max_block_count (free_block s) 0 = record {
        below = fit.some_block;
        passes = e.blocks 0 fit.some_block;
        first = λ j q. absurd (omega arith);
      } in
      let s₂ : Tfs = record s₁ {
        free_blocks = update s.free_blocks 0 taken;
        inode_table = update s₁.inode_table 0 (root_inode s.fs_params.block_size);
      } in
      rw (inode_alloc-ok s 0 fit.inodes i) (
        rw (data_block_alloc-ok s₁ 0 fit.blocks b) (
          rw (data_block_get-ok s₂ (pos 0) (lt→ltb _ _ fit.some_block))
            (rw (update_twice s.inode_table 0 typed (root_inode s.fs_params.block_size)) refl)))

  root_taken_only : (i : ℕ) → i < s.fs_params.max_inode_count → InodeTaken (rooted s) i → 0 ≡ i
  root_taken_only i h t = elim (ℕ_discrete 0 i) [
    | yes same ↦ same
    | no ne ↦
        let p : is_free (s.freeinode_ts i) ≡ false =
          sym (ap is_free (update_ne s.freeinode_ts 0 taken i ne)) ∙ t in
        let q = e.inodes i h in cc
  ]

  pub all_unused : (j : ℕ) → j < max_dir_entries s → unused (root_entries (rooted s)) j ≡ true
  all_unused j h = ap is_minus_one (d_inumber-empty_entries (max_dir_entries s) (s.fs_data 0) j h)

  pub rooted-IsValid : IsValid (rooted s)
  rooted-IsValid = record {
    root = record {
      alive = e.alive;
      inodes_fit = fit.inodes;
      blocks_fit = fit.blocks;
      opens_fit = fit.opens;
      block_fits = fit.block;
      block_there = fit.some_byte;
      root_there = fit.some_inode;
      block_zero = fit.some_block;
      root_taken = refl;
      root_type = refl;
      root_size = refl;
      root_block = refl;
    };
    blocks = record {
      sizes = λ i h t. rw (← root_taken_only i h t) (omega arith);
      valid = λ i h t q. rw (← root_taken_only i h t) (lt→ltb _ _ fit.some_block);
      in_use = λ i h t q. rw (← root_taken_only i h t) refl;
      apart = λ i j hi hj ti tj qi qj eq. sym (root_taken_only i hi ti) ∙ root_taken_only j hj tj;
    };
    directory = record {
      one_name = λ j k name hj hk uj uk f nj nk. let q = all_unused j hj in cc;
      one_number = λ j k hj hk uj uk eq. let q = all_unused j hj in cc;
      gaps = λ j k jk hk uk uj. let q = all_unused k hk in cc;
    };
    linked = record {
      entries = λ j h u. let q = all_unused j h in cc;
      handles = λ h p q. let r = e.handles h p in cc;
      offsets = λ h p q. let r = e.handles h p in cc;
    };
  }
    where
      fit : ParamsFit s.fs_params
      fit = e.fit

  pub lookup-rooted : (t : List ℕ) → IsFileName t → lookup (rooted s) t ≡ none
  lookup-rooted t f =
      dir_lookup-Absent (max_dir_entries s) (root_entries (rooted s)) t f
        (λ j q u. let p = all_unused j q in cc)

  pub view-rooted : (t : List ℕ) → IsFileName t → view (rooted s) t ≡ none
  view-rooted t f = rw (lookup-rooted t f) refl

-- The state when state_init has returned 0.
abbrev pub initialised : Tfs → TfsParams → Mallocs → Tfs
initialised s p m = with_free_tables (with_arrays m (record s { fs_params = p }))

inode_table_there : (m : Mallocs) → all_allocated m ≡ true → is_some m.inode_table ≡ true
inode_table_there m h = ground arith

pub initialised-IsEmpty :
    (s : Tfs) (p : TfsParams) (m : Mallocs)
    → ParamsFit p
    → all_allocated m ≡ true
    → IsEmpty (initialised s p m)
initialised-IsEmpty s p m fit all = record {
  alive = inode_table_there m all;
  fit = fit;
  inodes = free_all-lt p.max_inode_count (or_old m.freeinode_ts s.freeinode_ts);
  blocks = free_all-lt p.max_block_count (or_old m.free_blocks s.free_blocks);
  handles =
      free_all-lt p.max_open_files_count (or_old m.free_open_file_entries s.free_open_file_entries);
}

-- tfs_init, of a file system that is not live and whose arrays malloc provides with any contents,
-- returns 0: the state is well formed, no handle is open, and there is no file.
pub tfs_init-starts :
    (s : Tfs) (p : TfsParams) (m : Mallocs)
    → s.live ≡ false
    → ParamsFit p
    → all_allocated m ≡ true
    → (s' : Tfs) × (tfs_init (some p) m s ≡ ok (pos 0) s')
      × IsValid s'
      × (s'.library_mutex ≡ s.library_mutex)
      × ((h : ℕ) → h < p.max_open_files_count → free_handle s' h ≡ true)
      × ((t : List ℕ) → IsFileName t → view s' t ≡ none)
unfolding tfs_init state_init
tfs_init-starts s p m dead fit all =
    let e : IsEmpty (initialised s p m) = initialised-IsEmpty s p m fit all in
    (
      rooted (initialised s p m),
      rw dead (rw all (rw (inode_create-root (initialised s p m) e) refl)),
      rooted-IsValid (initialised s p m) e,
      refl,
      e.handles,
      view-rooted (initialised s p m) e,
    )
