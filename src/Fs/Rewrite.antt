-- ===== src/Fs/Rewrite.antt =====
-- A write to a file in a well formed state: its block, its size and the offset of one handle change.
use proj_so.Prelude.{
  ℕ, ◌≤◌, ◌<◌, ◌≡◌, refl, sym, ap, subst, ◌∙◌, ◌≢◌, inl, inr, true, false, List, some, arith,
  ℕ_discrete, Option-cases, update, update_self, update_ne, ℤ, pos, index,
}
use proj_so.Fs.Memory.{Bytes, read_bytes}
use proj_so.Fs.Memory.Laws.{read_bytes_cong}
use proj_so.Fs.State.{
  Tfs, Inode, t_file, AllocationState, is_free, valid_block_number, OpenFileEntry,
}
use proj_so.Fs.Directory.Entries.{IsFileName}
use proj_so.Fs.Directory.{d_inumber}
use proj_so.Fs.Invariant.{
  InodeTaken, Filled, block_of, root_entries, IsFileInode, IsFileInode-pos, IsFileInode-lt,
  IsFileInode-ne_root, BlocksOwned, HasRoot, IsValid, lookup, contents, view, lookup-IsFileInode,
}

-- What a write leaves behind: the size and the block of the inode, the bytes of the block, which
-- blocks are taken, and the offset of the handle.
pub record Written : Type 0 where
  pub size : ℕ
  pub block : ℤ
  pub bytes : Bytes
  pub blocks : ℕ → AllocationState
  pub offset : ℕ

abbrev pub inode_after : Tfs → ℕ → Written → Inode
inode_after s i w = record (s.inode_table i) { i_size = w.size; i_data_block = w.block }

abbrev pub handle_after : Tfs → ℕ → Written → OpenFileEntry
handle_after s h w = record (s.open_file_table h) { of_offset = w.offset }

abbrev pub written : Tfs → ℕ → ℕ → Written → Tfs
written s h i w = record s {
  free_blocks = w.blocks;
  inode_table = update s.inode_table i (inode_after s i w);
  fs_data = update s.fs_data (index w.block) w.bytes;
  open_file_table = update s.open_file_table h (handle_after s h w);
}

-- The block belongs to the inode alone, and the write does not shrink the file.
pub record Owns (s : Tfs) (i : ℕ) (w : Written) : Type 0 where
  pub valid : valid_block_number s w.block ≡ true
  pub not_root : 0 ≢ index w.block
  pub alone :
      (k : ℕ)
      → k < s.fs_params.max_inode_count
      → InodeTaken s k
      → Filled s k
      → i ≢ k
      → block_of s k ≢ index w.block
  pub taken : is_free (w.blocks (index w.block)) ≡ false
  pub keeps : (c : ℕ) → is_free (s.free_blocks c) ≡ false → is_free (w.blocks c) ≡ false
  pub fits : w.size ≤ s.fs_params.block_size
  pub grows : (s.inode_table i).i_size ≤ w.size
  pub inside : w.offset ≤ w.size

module _ (s : Tfs) (v : IsValid s) (h : ℕ) (x : ℤ) (f : IsFileInode s x) (w : Written)
    (o : Owns s (index x) w) (points : (s.open_file_table h).of_inumber ≡ x) where
  abbrev after : Tfs
  after = written s h (index x) w

  root_stays : index x ≢ 0
  root_stays e = IsFileInode-ne_root x v.root f (sym e)

  inode_self : after.inode_table (index x) ≡ inode_after s (index x) w
  inode_self = update_self s.inode_table (index x) (inode_after s (index x) w)

  inode_ne : (k : ℕ) → index x ≢ k → after.inode_table k ≡ s.inode_table k
  inode_ne k ne = update_ne s.inode_table (index x) (inode_after s (index x) w) k ne

  written-HasRoot : HasRoot after
  written-HasRoot = record {
    alive = r.alive;
    inodes_fit = r.inodes_fit;
    blocks_fit = r.blocks_fit;
    opens_fit = r.opens_fit;
    block_fits = r.block_fits;
    block_there = r.block_there;
    root_there = r.root_there;
    block_zero = r.block_zero;
    root_taken = r.root_taken;
    root_type = rw (inode_ne 0 root_stays) r.root_type;
    root_size = rw (inode_ne 0 root_stays) r.root_size;
    root_block = rw (inode_ne 0 root_stays) r.root_block;
  }
    where
      r : HasRoot s
      r = v.root

  pub written-stays : (y : ℤ) → IsFileInode s y → IsFileInode after y
  written-stays y g = record { valid = g.valid; in_use = g.in_use; file = type }
    where
      type : (after.inode_table (index y)).i_node_type ≡ t_file
      type = elim (ℕ_discrete (index x) (index y)) [
        | yes e ↦ rw (← e, inode_self) f.file
        | no ne ↦ rw (inode_ne (index y) ne) g.file
      ]

  written-BlocksOwned : BlocksOwned after
  written-BlocksOwned = record {
    sizes = λ k p t. elim (ℕ_discrete (index x) k) [
      | yes e ↦ rw (← e, inode_self) o.fits
      | no ne ↦ rw (inode_ne k ne) (b.sizes k p t)
    ];
    valid = λ k p t q. elim (ℕ_discrete (index x) k) [
      | yes e ↦ rw (← e, inode_self) o.valid
      | no ne ↦ rw (inode_ne k ne) (b.valid k p t (rw (inode_ne k ne) at q))
    ];
    in_use = λ k p t q. elim (ℕ_discrete (index x) k) [
      | yes e ↦ rw (← e, inode_self) o.taken
      | no ne ↦
          rw (inode_ne k ne) (o.keeps (block_of s k) (b.in_use k p t (rw (inode_ne k ne) at q)))
    ];
    apart = λ k l pk pl tk tl qk ql e. elim (ℕ_discrete (index x) k) [
      | yes ek ↦ elim (ℕ_discrete (index x) l) [
        | yes el ↦ sym ek ∙ el
        | no nl ↦ absurd (clash k l pl tl ek nl (rw (inode_ne l nl) at ql) e)
      ]
      | no nk ↦ elim (ℕ_discrete (index x) l) [
        | yes el ↦ absurd (clash l k pk tk el nk (rw (inode_ne k nk) at qk) (sym e))
        | no nl ↦
            b.apart k l pk pl tk tl (rw (inode_ne k nk) at qk) (rw (inode_ne l nl) at ql)
              (rw (inode_ne k nk, inode_ne l nl) at e)
      ]
    ];
  }
    where
      b : BlocksOwned s
      b = v.blocks

      clash :
          (k l : ℕ)
          → l < s.fs_params.max_inode_count
          → InodeTaken s l
          → index x ≡ k
          → index x ≢ l
          → Filled s l
          → block_of after k ≡ block_of after l
          → ⊥
      clash k l pl tl ek nl ql e =
          let here : block_of after k ≡ index w.block =
            ap (λ a. block_of after a) (sym ek)
            ∙ ap (λ (n : Inode). index n.i_data_block) inode_self in
          let there : block_of after l ≡ block_of s l =
            ap (λ (n : Inode). index n.i_data_block) (inode_ne l nl) in
          o.alone l pl tl ql nl (sym there ∙ sym e ∙ here)

  same_entries : root_entries after ≡ root_entries s
  same_entries = update_ne s.fs_data (index w.block) w.bytes 0 (λ e. o.not_root (sym e))

  offsets_after :
      (k : ℕ)
      → k < s.fs_params.max_open_files_count
      → is_free (s.free_open_file_entries k) ≡ false
      → (after.open_file_table k).of_offset
        ≤ (after.inode_table (index (after.open_file_table k).of_inumber)).i_size
  offsets_after k p q = elim (ℕ_discrete h k) [
    | yes e ↦
        rw (← e, update_self s.open_file_table h (handle_after s h w), points, inode_self) o.inside
    | no ne ↦
        rw (update_ne s.open_file_table h (handle_after s h w) k ne)
          (elim (ℕ_discrete (index x) (index (s.open_file_table k).of_inumber)) [
            | yes same ↦
                let old = v.linked.offsets k p q in
                let grows = o.grows in
                let old' : (s.open_file_table k).of_offset ≤ (s.inode_table (index x)).i_size =
                  rw same old in
                rw (← same, inode_self) (omega arith)
            | no other ↦
                rw (inode_ne (index (s.open_file_table k).of_inumber) other)
                  (v.linked.offsets k p q)
          ])
  ]

  handles_after :
      (k : ℕ)
      → k < s.fs_params.max_open_files_count
      → is_free (s.free_open_file_entries k) ≡ false
      → IsFileInode after (after.open_file_table k).of_inumber
  handles_after k p q = elim (ℕ_discrete h k) [
    | yes e ↦
        rw (← e, update_self s.open_file_table h (handle_after s h w))
          (subst (λ y. IsFileInode after y) (sym points) (written-stays x f))
    | no ne ↦
        rw (update_ne s.open_file_table h (handle_after s h w) k ne)
          (written-stays (s.open_file_table k).of_inumber (v.linked.handles k p q))
  ]

  pub written-IsValid : IsValid after
  written-IsValid = record {
    root = written-HasRoot;
    blocks = written-BlocksOwned;
    directory = rw same_entries v.directory;
    linked = record {
      entries = λ j p u. rw same_entries (
          written-stays (d_inumber (root_entries s) j)
            (v.linked.entries j p (rw same_entries at u)));
      handles = handles_after;
      offsets = offsets_after;
    };
  }

  -- The file has the bytes that were written, and no other file changes.
  pub contents-written_self : contents after (index x) ≡ read_bytes w.bytes 0 w.size
  contents-written_self = rw (inode_self, update_self s.fs_data (index w.block) w.bytes)

  pub contents-written_ne :
      (y : ℤ)
      → IsFileInode s y
      → index x ≢ index y
      → contents after (index y) ≡ contents s (index y)
  contents-written_ne y g ne = rw (inode_ne (index y) ne) (
      read_bytes_cong _ _ 0 (s.inode_table (index y)).i_size (λ q.
        update_ne s.fs_data (index w.block) w.bytes (block_of s (index y))
          (λ e. o.alone (index y) (IsFileInode-lt y g) g.in_use q ne (sym e))))

  pub lookup-written : (t : List ℕ) → lookup after t ≡ lookup s t
  lookup-written t = rw same_entries refl

  pub view-written_ne : (t : List ℕ) → IsFileName t → lookup s t ≢ some x → view after t ≡ view s t
  view-written_ne t g ne = rw (lookup-written t) (elim (Option-cases (lookup s t)) [
    | inl e ↦ rw e
    | inr (y, e) ↦
        let k = lookup-IsFileInode s v t g y e in
        rw e (
          ap some (
            contents-written_ne y k (λ same.
              ne (
                e
                ∙ ap some (IsFileInode-pos y k ∙ ap pos (sym same) ∙ sym (IsFileInode-pos x f))))))
  ])
