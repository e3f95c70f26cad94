-- ===== src/Server/Creation.antt =====
-- handle_tfs_create_box when it succeeds.
use proj_so.Prelude.{
  ℕ, ◌≤◌, ◌≡◌, refl, sym, ap, subst, ◌∙◌, true, false, List, [], ◌∷◌, ◌++◌, none, some, arith,
  length, Found, find_index_of_Found, update, update_self, ℤ, pos, ok,
}
use proj_so.Fs.State.{Tfs}
use proj_so.Fs.Invariant.{IsValid, lookup, view}
use proj_so.Fs.Lookup.{path}
use proj_so.Fs.Directory.Entries.{IsFileName}
use proj_so.Fs.Operations.{tfs_o_creat, tfs_open}
use proj_so.Fs.Open.{HasRoom, tfs_open-creates}
use proj_so.Wire.System.{WriteAnswer, Accepts, sys_open}
use proj_so.Wire.Request.{box_name_length, op_create_box, op_create_box_answer}
use proj_so.Broker.Boxes.{Broker, max_boxes, find_box, get_box, create_box}
use proj_so.Broker.Table.{IsTable}
use proj_so.Broker.Create.{create_box-adds}
use proj_so.Server.State.{Calls, Client, Server, equals, lock_boxes, unlock_boxes}
use proj_so.Server.Finish.{
  no_handle, ended, left_table, finish_client_session-ends, left_table-idle,
}
use proj_so.Server.Sending.{to_pipe, after_sending}
use proj_so.Server.Answers.{answer_frames, answer_lengths, write_answer-wrote}
use proj_so.Server.Requests.{answer_ok, create_unlocked_box, try_create, handle_tfs_create_box}

-- The table does not depend on the files.
pub IsTable-fs : (t : Broker) (fs : Tfs) → IsTable t → IsTable (record t { fs = fs })
IsTable-fs t fs table = record {
  unnamed = table.unnamed;
  named = table.named;
  unique = table.unique;
}

module _ (calls : Calls) (works : calls.memory ≡ true) (s : Server) (t : Broker) (name : List ℕ)
    (i : ℕ) (few : equals s.broker.num_boxes max_boxes ≡ false)
    (absent : find_box s.broker name ≡ none) (room : Found max_boxes s.broker.free_boxes i)
    (run : create_box true name s.broker ≡ ok (pos 0) t) where
  -- The state after the tests and create_box.
  abbrev with_new : Server
  with_new = record s { broker = t; box_locks = update s.box_locks i false }

  try_create-ok : try_create calls name s ≡ ok answer_ok with_new
  unfolding try_create create_unlocked_box get_box
  try_create-ok = rw few (
      rw absent
        (rw (find_index_of_Found max_boxes s.broker.free_boxes room) (rw works (rw run refl))))

-- A request for a new box whose name begins with a slash and fits, with memory, a free slot and a file,
-- over a pipe that opens, takes all writes and closes: handle_tfs_create_box returns 0 and answers
-- with the code 0 and no error message; get_box finds the name in the first free slot, its file is
-- there and empty, the table stays well formed, and boxes_lock is free again.
pub create_box_answers :
    (calls : Calls) (s : Server) (c : ℕ) (name : List ℕ) (i ino j h p k : ℕ) (os cs : List ℤ)
    (rest : List WriteAnswer)
    → calls.memory ≡ true
    → s.boxes_lock ≡ false
    → (s.clients c).opcode ≡ op_create_box
    → (s.clients c).box_name ≡ path name
    → IsTable s.broker
    → IsFileName name
    → length (path name) ≤ box_name_length
    → equals s.broker.num_boxes max_boxes ≡ false
    → find_box s.broker (path name) ≡ none
    → Found max_boxes s.broker.free_boxes i
    → IsValid s.broker.fs
    → s.broker.fs.library_mutex ≡ false
    → lookup s.broker.fs name ≡ none
    → HasRoom s.broker.fs ino j h
    → s.system.opens ≡ pos p ∷ os
    → s.system.closes ≡ pos k ∷ cs
    → Accepts s.system.writes answer_lengths rest
    → (s' : Server) × (handle_tfs_create_box calls c s ≡ ok (pos 0) s')
      × (find_box s'.broker (path name) ≡ some i)
      × (view s'.broker.fs name ≡ some [])
      × IsTable s'.broker
      × IsValid s'.broker.fs
      × (s'.boxes_lock ≡ false)
      × (s'.system.sent
          ≡ s.system.sent ++ to_pipe (pos p) (answer_frames op_create_box_answer answer_ok))
unfolding handle_tfs_create_box lock_boxes unlock_boxes sys_open
create_box_answers calls s c name i ino j h p k os cs rest works unlocked op named table file fits
      few absent room valid free_mutex no_file spare open_ok close_ok accepted =
    let (t, run, table', found, _, _, _, same_fs) =
      create_box-adds s.broker (path name) i table (omega arith) fits absent room in
    let (f, made, valid', _, _, _, empty, _) =
      tfs_open-creates calls.mutex s.broker.fs name tfs_o_creat ino j h valid free_mutex file
        no_file refl spare in
    let s₀ : Server = record s { boxes_lock = true } in
    let created : try_create calls (s.clients c).box_name s₀
        ≡ ok answer_ok (with_new calls works s₀ t (path name) i few absent room run) =
      ap (λ (r : List ℕ). try_create calls r s₀) named
      ∙ try_create-ok calls works s₀ t (path name) i few absent room run in
    let opens : tfs_open calls.mutex (s.clients c).box_name tfs_o_creat t.fs ≡ ok (pos h) f =
      ap (λ (r : List ℕ). tfs_open calls.mutex r tfs_o_creat t.fs) named
      ∙ ap (tfs_open calls.mutex (path name) tfs_o_creat) same_fs
      ∙ made in
    let k₁ : ℕ → Client = update s.clients c (record (s.clients c) { client_pipe = pos p }) in
    let k₂ : ℕ → Client = update k₁ c (record (k₁ c) { box_fd = pos h }) in
    let s₃ : Server = record s {
      boxes_lock = false;
      broker = record t { fs = f };
      box_locks = update s.box_locks i false;
      clients = k₂;
      system = record s.system { opens = os };
    } in
    let s₄ : Server =
      after_sending s₃ (pos p) (answer_frames op_create_box_answer answer_ok) rest in
    let client : k₂ c ≡ record (s.clients c) { client_pipe = pos p; box_fd = pos h } =
      update_self k₁ c (record (k₁ c) { box_fd = pos h })
      ∙ ap (λ (y : Client). record y { box_fd = pos h })
          (update_self s.clients c (record (s.clients c) { client_pipe = pos p })) in
    let op' : (k₂ c).opcode ≡ op_create_box = ap (λ (y : Client). y.opcode) client ∙ op in
    let ready : no_handle (k₂ c) ≡ false = ap no_handle client ∙ rw op refl in
    let idle : left_table (k₂ c) (k₂ c).box (record t { fs = f }) ≡ record t { fs = f } =
      left_table-idle (k₂ c) (k₂ c).box (record t { fs = f }) (rw op' refl) (rw op' refl) in
    (
      ended s₄ c cs,
      rw unlocked (
          rw created (
            rw open_ok (
              rw opens (
                write_answer-wrote (pos p) op_create_box_answer answer_ok _ s₃ rest accepted
                ∙ finish_client_session-ends s₄ c k cs close_ok ready)))),
      ap (λ (y : Broker). find_box y (path name)) idle ∙ found,
      ap (λ (y : Broker). view y.fs name) idle ∙ empty,
      subst IsTable (sym idle) (IsTable-fs t f table'),
      subst (λ (y : Broker). IsValid y.fs) (sym idle) valid',
      refl,
      refl,
    )
