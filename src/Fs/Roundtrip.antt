-- ===== src/Fs/Roundtrip.antt =====
-- What one handle writes, another reads.
use proj_so.Prelude.{
  ℕ, ◌^◌, ◌≤◌, ◌<◌, false, ◌≡◌, refl, sym, ap, ap₂, subst, ◌∙◌, List, some, arith, length, take,
  drop, take_whole, Found, ℤ, pos, index, M, ok, ◌>>=◌, ◌>>◌,
}
use proj_so.Fs.Memory.Laws.{overwrite, length-read_bytes}
use proj_so.Fs.State.{Tfs, TfsParams, AllocationState, is_free, OpenFileEntry}
use proj_so.Fs.Mutex.{Mutex}
use proj_so.Fs.Directory.Entries.{IsFileName}
use proj_so.Fs.Operations.{tfs_open, tfs_write, tfs_read}
use proj_so.Fs.Invariant.{IsValid, block_of, lookup, contents, view, view_at}
use proj_so.Fs.Lookup.{path, IsOpen}
use proj_so.Fs.Open.{free_handle, file_entry}
use proj_so.Fs.Write.{offset_of, size_of}
use proj_so.Fs.Write.Call.{count, inum_of, HasBlock, tfs_write-writes}
use proj_so.Fs.Read.{available, bytes_read, tfs_read-reads}
use proj_so.Fs.Handles.{tfs_open-existing}

-- Write through one handle, open the file again, and read it there.
pub write_then_read : Mutex → List ℕ → ℤ → List ℕ → ℕ → ℕ → M Tfs (ℤ × List ℕ)
write_then_read mutex name fhandle buffer to_write len = do
  tfs_write mutex fhandle buffer to_write
  f ← tfs_open mutex (path name) 0
  tfs_read mutex f len

-- The bytes of the file after the write.
abbrev pub new_bytes : Tfs → ℕ → List ℕ → ℕ → List ℕ
new_bytes s h buffer len =
    overwrite (contents s (index (inum_of s h))) (offset_of s h) (take (count s h len) buffer)

some_injective : {A : Type 0} (a b : A) → some a ≡ some b → a ≡ b
some_injective a b e = cc

-- A handle at the start of a file whose bytes are known reads them.
module _ (s : Tfs) (k len : ℕ) (x : ℤ) (bytes : List ℕ)
    (entry : s.open_file_table k ≡ file_entry x 0) (same : contents s (index x) ≡ bytes)
    (enough : length bytes ≤ len) where
  size : size_of s (index x) ≡ length bytes
  size = sym (length-read_bytes (s.fs_data (block_of s (index x))) 0 _) ∙ ap length same

  inum : inum_of s k ≡ x
  inum = ap (λ (e : OpenFileEntry). e.of_inumber) entry

  offset : offset_of s k ≡ 0
  offset = ap (λ (e : OpenFileEntry). e.of_offset) entry

  pub available-all : available s k len ≡ length bytes
  available-all = omega (arith, offset, ap (λ y. size_of s (index y)) inum ∙ size, enough)

  pub bytes_read-all : bytes_read s k len ≡ bytes
  bytes_read-all =
      ap (λ (n : ℕ). take n (drop (offset_of s k) (contents s (index (inum_of s k))))) available-all
      ∙ ap (λ (n : ℕ). take (length bytes) (drop n (contents s (index (inum_of s k))))) offset
      ∙ ap (take (length bytes)) (ap (λ y. contents s (index y)) inum ∙ same)
      ∙ take_whole (length bytes) bytes (omega arith)

contents-same :
    (s s' : Tfs) (name : List ℕ) (x : ℤ)
    → lookup s name ≡ some x
    → lookup s' name ≡ lookup s name
    → view s' name ≡ view s name
    → contents s' (index x) ≡ contents s (index x)
contents-same s s' name x e numbers views =
    some_injective (contents s' (index x)) (contents s (index x))
      (sym (ap (view_at s') (numbers ∙ e)) ∙ views ∙ ap (view_at s) e)

room-same :
    (s s' : Tfs) (k : ℕ)
    → s'.fs_params ≡ s.fs_params
    → s'.free_open_file_entries ≡ s.free_open_file_entries
    → Found s.fs_params.max_open_files_count (free_handle s) k
    → Found s'.fs_params.max_open_files_count (free_handle s') k
room-same s s' k params handles f = record {
  below = subst (λ (p : TfsParams). k < p.max_open_files_count) (sym params) f.below;
  passes = ap (λ (t : ℕ → AllocationState). is_free (t k)) handles ∙ f.passes;
  first = λ j q. ap (λ (t : ℕ → AllocationState). is_free (t j)) handles ∙ f.first j q;
}

-- tfs_write through one handle, then tfs_open of the same file and tfs_read there with room for the
-- whole file, return the file's bytes with those written put over them at the first handle's offset;
-- the state stays well formed and the mutex is free again. The file has a block or there is a free
-- one, the buffer holds the bytes to write, and there is a free handle.
pub write_then_read-overwrite :
    (mutex : Mutex) (s : Tfs) (name : List ℕ) (h k : ℕ) (buffer : List ℕ) (to_write len : ℕ)
    → IsValid s
    → s.library_mutex ≡ false
    → IsFileName name
    → IsOpen s h
    → lookup s name ≡ some (inum_of s h)
    → to_write ≤ length buffer
    → to_write < 2 ^ 62
    → HasBlock s (index (inum_of s h))
    → Found s.fs_params.max_open_files_count (free_handle s) k
    → length (new_bytes s h buffer to_write) ≤ len
    → (s' : Tfs) × (write_then_read mutex name (pos h) buffer to_write len s
        ≡ ok (pos (length (new_bytes s h buffer to_write)), new_bytes s h buffer to_write) s')
      × IsValid s'
      × (s'.library_mutex ≡ false)
unfolding write_then_read
write_then_read-overwrite mutex s name h k buffer to_write len v unlocked file o there given small
      block room enough =
    let (s₁, run₁, w) = tfs_write-writes mutex s h buffer to_write v unlocked o given small block in
    let there₁ : lookup s₁ name ≡ some (inum_of s h) = w.numbers name ∙ there in
    let room₁ = room-same s s₁ k w.params w.handles room in
    let (s₂, run₂, v₂, unlocked₂, o₂, entry, same) =
      tfs_open-existing mutex s₁ name (inum_of s h) 0 k w.valid (w.mutex ∙ unlocked) file there₁
        refl room₁ in
    let bytes : contents s₂ (index (inum_of s h)) ≡ new_bytes s h buffer to_write =
      contents-same s₁ s₂ name (inum_of s h) there₁ (same name).0 (same name).1 ∙ w.file in
    let (s₃, run₃, v₃, unlocked₃, _, _) = tfs_read-reads mutex s₂ k len v₂ unlocked₂ o₂ in
    (
      s₃,
      rw run₁ (
          rw run₂ (
            run₃
            ∙ ap₂ (λ (n : ℕ) (b : List ℕ). ok (pos n, b) s₃)
                (available-all s₂ k len (inum_of s h) (new_bytes s h buffer to_write) entry bytes
                  enough)
                (bytes_read-all s₂ k len (inum_of s h) (new_bytes s h buffer to_write) entry bytes
                  enough))),
      v₃,
      unlocked₃,
    )
