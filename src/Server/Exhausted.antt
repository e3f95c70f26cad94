-- ===== src/Server/Exhausted.antt =====
-- A publisher's message when no file handle is left.
use proj_so.Prelude.{
  ℕ, suc, ◌≤◌, ◌<◌, ◌≡◌, refl, ap, ◌∙◌, true, false, List, [], ◌∷◌, some, none, arith, ◌==◌, length,
  find_index, update, update_self, ℤ, index, pos, minus_one, M, ok, blocks,
}
use proj_so.Fs.State.{Tfs}
use proj_so.Fs.OpenFiles.{add_to_open_file_table}
use proj_so.Fs.Mutex.{Mutex, locked-ok}
use proj_so.Fs.Directory.Entries.{IsFileName}
use proj_so.Fs.Operations.{tfs_o_append, open_existing, tfs_open_body, tfs_open}
use proj_so.Fs.Invariant.{IsValid, relock-IsValid, lookup, lookup-IsFileInode, IsFileInode-nonneg}
use proj_so.Fs.Lookup.{path, valid_pathname-path, inode_get-root, inode_get-ok, tfs_lookup-path}
use proj_so.Fs.Open.{free_handle}
use proj_so.Wire.System.{ReadAnswer, got, next_read, try_read-got}
use proj_so.Server.State.{Calls, Server, lock_box}
use proj_so.Server.Finish.{no_handle, ended, finish_client_session-ends}
use proj_so.Server.Publisher.{
  message_length, read_over, store_message, handle_messages_from_publisher,
}
use proj_so.Server.Store.{IsOnBox}

-- Every handle is in use.
abbrev pub NoHandles : Tfs → Type 0
NoHandles s = find_index s.fs_params.max_open_files_count (free_handle s) ≡ none

add_to_open_file_table-full :
    (s : Tfs) (x : ℤ) (offset : ℕ)
    → NoHandles s
    → add_to_open_file_table x offset s ≡ ok minus_one s
unfolding add_to_open_file_table
add_to_open_file_table-full s x offset full = rw (full, add_to_open_file_table) refl

module _ (s : Tfs) (v : IsValid s) (name : List ℕ) (file : IsFileName name) (x : ℤ)
    (there : lookup s name ≡ some x) (full : NoHandles s) where
  tfs_open_body-no_handles : tfs_open_body (path name) tfs_o_append s ≡ ok minus_one s
  unfolding tfs_open_body open_existing
  tfs_open_body-no_handles =
      let f = lookup-IsFileInode s v name file x there in
      rw
        (
          valid_pathname-path name file,
          inode_get-root s v.root,
          tfs_lookup-path s v.root name file,
          there,
        )
        (rw (IsFileInode-nonneg x f) (
          rw (inode_get-ok s x f.valid)
            (add_to_open_file_table-full s x (s.inode_table (index x)).i_size full)))

tfs_open-NoHandles :
    (mutex : Mutex) (s : Tfs) (name : List ℕ) (x : ℤ)
    → IsValid s
    → s.library_mutex ≡ false
    → IsFileName name
    → lookup s name ≡ some x
    → NoHandles s
    → tfs_open mutex (path name) tfs_o_append s ≡ ok minus_one (record s { library_mutex = false })
unfolding tfs_open
tfs_open-NoHandles mutex s name x v free_mutex file there full =
    let r : Tfs = record s { library_mutex = true } in
    locked-ok mutex minus_one (tfs_open_body (path name) tfs_o_append) s r minus_one free_mutex
      (tfs_open_body-no_handles r (relock-IsValid true v) name file x there full) refl

-- The message is not stored, and the box stays locked.
store_message-fails :
    (calls : Calls) (s : Server) (c b k : ℕ) (name : List ℕ) (x : ℤ) (bytes message : List ℕ)
    (limit : ℕ) (cs : List ℤ) (rest : M Server ℤ)
    → IsOnBox s c b name x bytes 0 limit
    → NoHandles s.broker.fs
    → no_handle (s.clients c) ≡ false
    → s.system.closes ≡ pos k ∷ cs
    → (s' : Server) × (store_message calls c b message rest s ≡ ok minus_one s')
      × (s'.box_locks b ≡ true)
unfolding store_message lock_box
store_message-fails calls s c b k name x bytes message limit cs rest w full ready close_ok =
    let t : Tfs = record s.broker.fs { library_mutex = false } in
    let s₁ : Server = record s {
      broker = record s.broker { fs = t };
      box_locks = update s.box_locks b true;
    } in
    let opens : tfs_open calls.mutex (s.broker.boxes b).box_name tfs_o_append s.broker.fs
        ≡ ok minus_one t =
      ap (λ (r : List ℕ). tfs_open calls.mutex r tfs_o_append s.broker.fs) w.named
      ∙ tfs_open-NoHandles calls.mutex s.broker.fs name x w.stored.valid w.stored.unlocked
          w.stored.name_ok w.stored.there full in
    (
      ended s₁ c cs,
      rw w.free (rw opens (rw (finish_client_session-ends s₁ c k cs close_ok ready) refl)),
      update_self s.box_locks b true,
    )

-- A message of a publisher when every file handle is in use, as after as many messages as there are
-- handles: handle_messages_from_publisher returns -1, on which the session closes the server, and it
-- leaves the box locked, so that any other session that locks the box waits for ever. The file is
-- well formed, the session has a number in box_fd and its pipe closes.
pub handles_run_out :
    (calls : Calls) (s : Server) (c b k fuel op : ℕ) (name : List ℕ) (x : ℤ)
    (bytes m buffer : List ℕ) (limit : ℕ) (a rest : List ReadAnswer) (cs : List ℤ)
    → IsOnBox s c b name x bytes 0 limit
    → NoHandles s.broker.fs
    → no_handle (s.clients c) ≡ false
    → s.system.closes ≡ pos k ∷ cs
    → next_read s.system.reads ≡ some (got (op ∷ []), a)
    → next_read a ≡ some (got m, rest)
    → 0 < length m
    → length m ≤ message_length
    → (s' : Server) × (handle_messages_from_publisher calls c (suc fuel) buffer s ≡ ok minus_one s')
      × (lock_box b s' ≡ blocks)
unfolding handle_messages_from_publisher lock_box
handles_run_out calls s c b k fuel op name x bytes m buffer limit a rest cs w full ready close_ok e₁
      e₂ more fits =
    let s₀ : Server = record s { system = record s.system { reads = rest } } in
    let w₀ : IsOnBox s₀ c b name x bytes 0 limit = record {
      box = w.box;
      free = w.free;
      named = w.named;
      stored = w.stored;
      counted = w.counted;
      limit_ok = w.limit_ok;
    } in
    let (s', run, held) =
      store_message-fails calls s₀ c b k name x bytes (read_over m buffer) limit cs
        (handle_messages_from_publisher calls c fuel (read_over m buffer)) w₀ full ready close_ok in
    let some_bytes : (length m == 0) ≡ false = ground arith in
    (
      s',
      rw (try_read-got 1 s.system (op ∷ []) a (omega arith) e₁) (
          rw (try_read-got message_length (record s.system { reads = a }) m rest fits e₂)
            (rw some_bytes (rw w.box run))),
      rw held refl,
    )
