-- ===== src/Fs/Append.antt =====
-- tfs_open with TFS_O_APPEND and a tfs_write through the new handle.
use proj_so.Prelude.{
  ℕ, zero, suc, ◌+◌, ◌≤◌, ◌<◌, ◌≡◌, refl, sym, ap, ◌∙◌, inl, false, List, [], ◌++◌, some, arith,
  length, length-append, take, drop_beyond, take_whole, append-nil, length-take, Found, update,
  update_self, ℤ, pos, index, ok, subst,
}
use proj_so.Fs.Memory.Laws.{overwrite, length-read_bytes}
use proj_so.Fs.State.{Tfs, TfsParams, AllocationState, taken, is_free, OpenFileEntry}
use proj_so.Fs.Mutex.{Mutex}
use proj_so.Fs.Directory.Entries.{IsFileName}
use proj_so.Fs.Operations.{tfs_o_append, tfs_open, tfs_write}
use proj_so.Fs.Invariant.{IsValid, block_of, lookup, contents}
use proj_so.Fs.Lookup.{path}
use proj_so.Fs.Open.{free_handle, file_entry}
use proj_so.Fs.Write.{size_of, offset_of}
use proj_so.Fs.Write.Call.{HasBlock, inum_of, count, Wrote, tfs_write-writes}
use proj_so.Fs.Handles.{with_existing, tfs_open-state, with_existing-IsValid, with_existing-IsOpen}

-- As many free handles, found one after the other.
abbrev pub Supply : ℕ → (ℕ → AllocationState) → ℕ → Type 0
Supply bound table zero = Unit
Supply bound table (suc n) =
    (h : ℕ) × Found bound (λ i. is_free (table i)) h × Supply bound (update table h taken) n

-- A file with these bytes, and handles for so many further calls of tfs_open.
pub record IsStored (s : Tfs) (name : List ℕ) (x : ℤ) (bytes : List ℕ) (n : ℕ) : Type 0 where
  pub valid : IsValid s
  pub unlocked : s.library_mutex ≡ false
  pub name_ok : IsFileName name
  pub there : lookup s name ≡ some x
  pub holds : contents s (index x) ≡ bytes
  pub block : HasBlock s (index x)
  pub handles : Supply s.fs_params.max_open_files_count s.free_open_file_entries n

pub IsStored-size :
    (s : Tfs) (name : List ℕ) (x : ℤ) (bytes : List ℕ) (n : ℕ)
    → IsStored s name x bytes n
    → size_of s (index x) ≡ length bytes
IsStored-size s name x bytes n w =
    sym (length-read_bytes (s.fs_data (block_of s (index x))) 0 (size_of s (index x)))
    ∙ ap length w.holds

overwrite_end : (xs ys : List ℕ) → overwrite xs (length xs) ys ≡ xs ++ ys
overwrite_end xs ys =
    ap (λ r. take (length xs) xs ++ (ys ++ r))
      (drop_beyond (length xs + length ys) xs (omega arith))
    ∙ ap (λ r. r ++ (ys ++ [])) (take_whole (length xs) xs (omega arith))
    ∙ ap (λ r. xs ++ r) (append-nil ys)

module _ (mutex : Mutex) (s : Tfs) (name : List ℕ) (x : ℤ) (bytes : List ℕ) (n : ℕ)
    (w : IsStored s name x bytes (suc n)) where
  abbrev handle : ℕ
  handle = w.handles.0

  room : Found s.fs_params.max_open_files_count (free_handle s) handle
  room = w.handles.1

  abbrev opened : Tfs
  opened = with_existing s x tfs_o_append handle

  entry : opened.open_file_table handle ≡ file_entry x (size_of s (index x))
  entry = update_self s.open_file_table handle (file_entry x (size_of s (index x)))

  inum : inum_of opened handle ≡ x
  inum = ap (λ (e : OpenFileEntry). e.of_inumber) entry

  offset : offset_of opened handle ≡ length bytes
  offset = ap (λ (e : OpenFileEntry). e.of_offset) entry ∙ IsStored-size s name x bytes (suc n) w

  module _ (buffer : List ℕ) (len : ℕ) (given : len ≤ length buffer) (some_bytes : 0 < len)
      (fits : length bytes + len ≤ s.fs_params.block_size) where
    whole : count opened handle len ≡ len
    whole = omega (arith, offset)

    abbrev new_bytes : List ℕ
    new_bytes = bytes ++ take len buffer

    module _ (s₂ : Tfs)
        (done : Wrote opened s₂ handle (take (count opened handle len) buffer)) where
      written : contents s₂ (index x) ≡ new_bytes
      written =
          subst
            (λ (z : ℤ).
              contents s₂ (index z)
              ≡ overwrite (contents opened (index z)) (offset_of opened handle)
                  (take (count opened handle len) buffer))
            inum done.file
          ∙ ap
              (λ (k : ℕ).
                overwrite (contents s (index x)) (offset_of opened handle) (take k buffer))
              whole
          ∙ ap (λ (b : List ℕ). overwrite b (offset_of opened handle) (take len buffer)) w.holds
          ∙ ap (λ (k : ℕ). overwrite bytes k (take len buffer)) offset
          ∙ overwrite_end bytes (take len buffer)

      grown : 0 < size_of s₂ (index x)
      grown = omega (
        arith,
        length-read_bytes (s₂.fs_data (block_of s₂ (index x))) 0 (size_of s₂ (index x)),
        ap length written,
        length-append bytes (take len buffer),
        length-take len buffer,
      )

      stored : IsStored s₂ name x new_bytes n
      stored = record {
        valid = done.valid;
        unlocked = done.mutex;
        name_ok = w.name_ok;
        there = done.numbers name ∙ w.there;
        holds = written;
        block = inl grown;
        handles =
            rw (ap (λ (p : TfsParams). p.max_open_files_count) done.params, done.handles)
              w.handles.2;
      }

    -- The two calls, for a message that fits into the file's block.
    pub append_to_file :
        (s₂ : Tfs) × (tfs_open mutex (path name) tfs_o_append s ≡ ok (pos handle) opened)
        × (tfs_write mutex (pos handle) buffer len opened ≡ ok (pos len) s₂)
        × IsStored s₂ name x new_bytes n
        × (s₂.fs_params ≡ s.fs_params)
    append_to_file =
        let (s₂, run, done) =
          tfs_write-writes mutex opened handle buffer len
            (with_existing-IsValid s name x tfs_o_append handle w.valid w.name_ok w.there refl room)
            refl (with_existing-IsOpen s x tfs_o_append handle room.below) given
            (omega (arith, w.valid.root.block_fits))
            (subst (λ (z : ℤ). HasBlock opened (index z)) (sym inum) w.block) in
        (
          s₂,
          tfs_open-state mutex s name x tfs_o_append handle w.valid w.unlocked w.name_ok w.there
              refl room,
          run ∙ ap (λ (k : ℕ). ok (pos k) s₂) whole,
          stored s₂ done,
          done.params,
        )
