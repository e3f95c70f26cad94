-- ===== src/Fs/Read.antt =====
-- tfs_read and tfs_close in a well formed state, and tfs_open of a file that is there.
use proj_so.Prelude.{
  ℕ, ◌+◌, ◌-◌, ◌≤◌, ◌<◌, ◌≡◌, refl, sym, ap, subst, ◌∙◌, inl, inr, true, false, List, [], arith,
  ltb, ltb→lt, if◌then◌else◌, ℕ_discrete, Bool-cases, fun_ext, update, update_self, update_ne, take,
  drop, min, ℤ, pos, minus_one, index, add_size, sub_size, to_ssize-pos, ok,
}
use proj_so.Fs.Memory.{Bytes, read_bytes}
use proj_so.Fs.Memory.Laws.{take-read_bytes, drop-read_bytes}
use proj_so.Fs.State.{Tfs, AllocationState, OpenFileEntry, taken, is_free}
use proj_so.Fs.Mutex.{Mutex, locked-ok}
use proj_so.Fs.Operations.{copy_out, read_at, tfs_read_body, tfs_read}
use proj_so.Fs.Invariant.{
  block_of, Filled, IsFileInode, IsFileInode-lt, IsValid, relock-IsValid, contents, view,
}
use proj_so.Fs.Lookup.{IsOpen, get_open_file_entry-open, inode_get-ok, data_block_get-ok}
use proj_so.Fs.Update.{with_handle-IsValid}
use proj_so.Fs.Write.{offset_of, size_of, add_size-exact}
use proj_so.Fs.Write.Call.{inum_of}

-- The number of bytes that tfs_read reads, and which.
abbrev pub available : Tfs → ℕ → ℕ → ℕ
available s h len = min len (size_of s (index (inum_of s h)) - offset_of s h)

abbrev pub bytes_read : Tfs → ℕ → ℕ → List ℕ
bytes_read s h len =
    take (available s h len) (drop (offset_of s h) (contents s (index (inum_of s h))))

-- The state with another offset of a handle.
abbrev pub with_offset : Tfs → ℕ → ℕ → Tfs
with_offset s h offset = record s {
  open_file_table =
      update s.open_file_table h (record (s.open_file_table h) { of_offset = offset });
}

is_taken : (a : AllocationState) → is_free a ≡ false → a ≡ taken
is_taken a h = ground arith

still_taken :
    (s : Tfs) (h : ℕ)
    → IsOpen s h
    → update s.free_open_file_entries h taken ≡ s.free_open_file_entries
still_taken s h o = fun_ext λ k. elim (ℕ_discrete h k) [
  | yes e ↦
      rw (← e, update_self s.free_open_file_entries h taken)
        (sym (is_taken (s.free_open_file_entries h) o.in_use))
  | no ne ↦ update_ne s.free_open_file_entries h taken k ne
]

module _ (s : Tfs) (v : IsValid s) (h : ℕ) (open_handle : IsOpen s h) where
  abbrev x : ℤ
  x = inum_of s h

  f : IsFileInode s x
  f = v.linked.handles h open_handle.below open_handle.in_use

  with_offset-IsValid :
      (offset : ℕ) → offset ≤ size_of s (index x) → IsValid (with_offset s h offset)
  with_offset-IsValid offset fits =
      subst
        (λ (t : ℕ → AllocationState).
          IsValid (record (with_offset s h offset) { free_open_file_entries = t }))
        (still_taken s h open_handle)
        (with_handle-IsValid s h (record (s.open_file_table h) { of_offset = offset }) v f fits)

  module _ (len : ℕ) where
    abbrev n : ℕ
    n = available s h len

    offset-le : offset_of s h ≤ size_of s (index x)
    offset-le = v.linked.offsets h open_handle.below open_handle.in_use

    size-le : size_of s (index x) ≤ s.fs_params.block_size
    size-le = v.blocks.sizes (index x) (IsFileInode-lt x f) f.in_use

    to_read :
        (if ltb len (sub_size (size_of s (index x)) (offset_of s h))
          then len
          else sub_size (size_of s (index x)) (offset_of s h))
        ≡ n
    to_read = ground (arith, offset-le, size-le, v.root.block_fits)

    -- The bytes that are copied are those of the file behind the offset.
    copied : read_bytes (s.fs_data (block_of s (index x))) (offset_of s h) n ≡ bytes_read s h len
    copied =
        let m : Bytes = s.fs_data (block_of s (index x)) in
        let offset : ℕ = offset_of s h in
        let left : ℕ = size_of s (index x) - offset in
        let e : 0 + offset ≡ offset = omega arith in
        sym (
          ap (take n) (drop-read_bytes m 0 offset (size_of s (index x)))
          ∙ ap (λ (a : ℕ). take n (read_bytes m a left)) e
          ∙ take-read_bytes m offset n left (omega arith))

    copy_out-ok : copy_out (block_of s (index x)) (offset_of s h) n s ≡ ok (bytes_read s h len) s
    unfolding copy_out
    copy_out-ok = rw (← copied) (ground (arith, offset-le, size-le))

    read_at-ok :
        0 < n
        → read_at h (index x) n s
          ≡ ok (pos n, bytes_read s h len) (with_offset s h (offset_of s h + n))
    unfolding read_at
    read_at-ok more =
        let full : Filled s (index x) = omega arith in
        let exact : add_size (offset_of s h) n ≡ offset_of s h + n =
          add_size-exact (offset_of s h) n (omega (arith, offset-le, size-le, v.root.block_fits)) in
        rw
          (
            data_block_get-ok s (s.inode_table (index x)).i_data_block
                (v.blocks.valid (index x) (IsFileInode-lt x f) f.in_use full),
            copy_out-ok,
          )
          (rw (to_ssize-pos n (omega (arith, size-le, v.root.block_fits)), exact) refl)

    no_move : n ≡ 0 → with_offset s h (offset_of s h + n) ≡ s
    no_move e =
        let same : offset_of s h + n ≡ offset_of s h = omega arith in
        rw same (
          ap (λ (t : ℕ → OpenFileEntry). record s { open_file_table = t })
            (fun_ext λ k. elim (ℕ_discrete h k) [
              | yes p ↦ rw (← p, update_self s.open_file_table h (s.open_file_table h))
              | no p ↦ update_ne s.open_file_table h (s.open_file_table h) k p
            ]))

    nothing : n ≡ 0 → bytes_read s h len ≡ []
    nothing e = rw e

    tfs_read_body-ok :
        tfs_read_body (pos h) len s
        ≡ ok (pos n, bytes_read s h len) (with_offset s h (offset_of s h + n))
    unfolding tfs_read_body
    tfs_read_body-ok =
        rw (get_open_file_entry-open s h open_handle, inode_get-ok s x f.valid, to_read)
          (elim (Bool-cases (ltb 0 n)) [
            | inl more ↦ rw more (read_at-ok (ltb→lt 0 n more))
            | inr done ↦
                let none_left : n ≡ 0 = ground arith in
                rw (done, no_move none_left, nothing none_left, none_left)
                  (rw (to_ssize-pos 0 (omega arith)) refl)
          ])

-- tfs_read of an open handle returns the bytes of the file from the handle's offset on, at most
-- `len`, with their number; the offset moves behind them, no file changes, the state stays well
-- formed and the mutex is free again.
pub tfs_read-reads :
    (mutex : Mutex) (s : Tfs) (h len : ℕ)
    → IsValid s
    → s.library_mutex ≡ false
    → IsOpen s h
    → (s' : Tfs) × (tfs_read mutex (pos h) len s
        ≡ ok (pos (available s h len), bytes_read s h len) s')
      × IsValid s'
      × (s'.library_mutex ≡ false)
      × (offset_of s' h ≡ offset_of s h + available s h len)
      × ((t : List ℕ) → view s' t ≡ view s t)
unfolding tfs_read
tfs_read-reads mutex s h len v free_mutex open_handle =
    let r : Tfs = record s { library_mutex = true } in
    let w : IsValid r = relock-IsValid true v in
    let o : IsOpen r h = record { below = open_handle.below; in_use = open_handle.in_use } in
    let offset : ℕ = offset_of s h + available s h len in
    let s' : Tfs = with_offset r h offset in
    (
      record s' { library_mutex = false },
      locked-ok mutex (minus_one, []) (tfs_read_body (pos h) len) s s'
          (pos (available s h len), bytes_read s h len) free_mutex (tfs_read_body-ok r w h o len)
          refl,
      relock-IsValid {s = s'} false
          (with_offset-IsValid r w h o offset (omega (arith, offset-le r w h o len))),
      refl,
      ap (λ (entry : OpenFileEntry). entry.of_offset)
          (update_self s.open_file_table h (record (s.open_file_table h) { of_offset = offset })),
      λ t. refl,
    )
