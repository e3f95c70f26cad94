-- ===== src/Server/Removal.antt =====
-- handle_tfs_remove_box of a box that no other session uses.
use proj_so.Prelude.{
  ℕ, zero, suc, ◌+◌, ◌≡◌, ◌≢◌, refl, sym, ap, subst, ◌∙◌, true, false, inl, inr, Bool-cases, List,
  ◌∷◌, ◌++◌, none, some, arith, ◌==◌, if◌then◌else◌, update, update_self, update_ne, ℕ_discrete, ℤ,
  pos, minus_one, is_minus_one, ok,
}
use proj_so.Fs.Invariant.{IsValid, lookup, view}
use proj_so.Fs.Lookup.{path}
use proj_so.Fs.Directory.Entries.{IsFileName}
use proj_so.Wire.System.{WriteAnswer, Accepts, sys_open}
use proj_so.Wire.Request.{op_remove_box, op_remove_box_answer}
use proj_so.Broker.Boxes.{Broker, str_eq, find_box, get_box, remove_box}
use proj_so.Broker.Table.{IsTable}
use proj_so.Broker.Remove.{remove_box-runs}
use proj_so.Server.State.{Calls, Client, Server, lock_boxes, unlock_boxes}
use proj_so.Server.Session.{finish_client_session}
use proj_so.Server.Finish.{
  no_handle, ended, closed_pipe, finish_client_session-ends, finish_client_session-refuses,
  left_table-idle,
}
use proj_so.Server.Sending.{to_pipe, after_sending}
use proj_so.Server.Answers.{answer_frames, answer_lengths, write_answer-wrote}
use proj_so.Server.Requests.{answer_ok, finish_sessions, remove_for_all, handle_tfs_remove_box}

-- No session but `c` has this box.
abbrev pub NotUsed : Server → ℕ → List ℕ → Type 0
NotUsed s c name = (i : ℕ) → i ≢ c → str_eq (s.clients i).box_name name ≡ false

finish_sessions-none :
    (c : ℕ) (name : List ℕ) (left i : ℕ) (s : Server)
    → NotUsed s c name
    → finish_sessions c name left i s ≡ ok true s
unfolding finish_sessions
finish_sessions-none c name zero i s h = refl
finish_sessions-none c name (suc left) i s h = elim (ℕ_discrete i c) [
  | yes e ↦
      let same : (i == c) ≡ true = ground arith in
      elim (Bool-cases (str_eq (s.clients i).box_name name)) [
        | inl q ↦ rw (q, same) (finish_sessions-none c name left (i + 1) s h)
        | inr q ↦ rw q (finish_sessions-none c name left (i + 1) s h)
      ]
  | no ne ↦ rw (h i ne) (finish_sessions-none c name left (i + 1) s h)
]

-- What finish_client_session returns to a request that removes a box.
abbrev pub end_code : ℤ → ℤ
end_code box_fd = if is_minus_one box_fd then minus_one else pos 0

-- The last step: the table is the same in both cases.
finish_remover :
    (s : Server) (c k : ℕ) (cs : List ℤ)
    → (s.clients c).opcode ≡ op_remove_box
    → s.system.closes ≡ pos k ∷ cs
    → (s' : Server) × (finish_client_session c s ≡ ok (end_code (s.clients c).box_fd) s')
      × (s'.broker ≡ s.broker)
      × (s'.boxes_lock ≡ s.boxes_lock)
      × (s'.system.sent ≡ s.system.sent)
finish_remover s c k cs op close_ok = elim (Bool-cases (is_minus_one (s.clients c).box_fd)) [
  | inl e ↦
      let stuck : no_handle (s.clients c) ≡ true = rw (op, e) refl in
      (
        closed_pipe s cs,
        finish_client_session-refuses s c k cs close_ok stuck ∙ rw e refl,
        refl,
        refl,
        refl,
      )
  | inr e ↦
      let ready : no_handle (s.clients c) ≡ false = rw (op, e) refl in
      (
        ended s c cs,
        finish_client_session-ends s c k cs close_ok ready ∙ rw e refl,
        left_table-idle (s.clients c) (s.clients c).box s.broker (rw op refl) (rw op refl),
        refl,
        refl,
      )
]

-- A request to remove a box whose file is there, open or not, in a well formed file system, and that no
-- other session uses, over a pipe that opens, takes all writes and closes: handle_tfs_remove_box answers
-- with the code 0 and no error message; neither get_box nor the file system finds the name any more,
-- every other slot keeps its box and every other file its bytes, the table stays well formed, and
-- boxes_lock is free again. It returns 0 only if the session has a number
-- in box_fd: it returns -1, on which the session closes the server, when box_fd is -1, as every
-- finished session leaves it.
pub remove_box_answers :
    (calls : Calls) (s : Server) (c : ℕ) (name : List ℕ) (i : ℕ) (x : ℤ) (p k : ℕ) (os cs : List ℤ)
    (rest : List WriteAnswer)
    → s.boxes_lock ≡ false
    → (s.clients c).opcode ≡ op_remove_box
    → (s.clients c).box_name ≡ path name
    → NotUsed s c (path name)
    → IsTable s.broker
    → find_box s.broker (path name) ≡ some i
    → IsValid s.broker.fs
    → s.broker.fs.library_mutex ≡ false
    → IsFileName name
    → lookup s.broker.fs name ≡ some x
    → s.system.opens ≡ pos p ∷ os
    → s.system.closes ≡ pos k ∷ cs
    → Accepts s.system.writes answer_lengths rest
    → (s' : Server) × (handle_tfs_remove_box calls c s ≡ ok (end_code (s.clients c).box_fd) s')
      × (find_box s'.broker (path name) ≡ none)
      × (view s'.broker.fs name ≡ none)
      × ((j : ℕ) → i ≢ j → s'.broker.boxes j ≡ s.broker.boxes j)
      × ((t : List ℕ) → IsFileName t → t ≢ name → view s'.broker.fs t ≡ view s.broker.fs t)
      × IsTable s'.broker
      × (s'.boxes_lock ≡ false)
      × (s'.system.sent
          ≡ s.system.sent ++ to_pipe (pos p) (answer_frames op_remove_box_answer answer_ok))
unfolding handle_tfs_remove_box remove_for_all lock_boxes unlock_boxes sys_open get_box
remove_box_answers calls s c name i x p k os cs rest unlocked op named alone table found valid
      free_mutex file there open_ok close_ok accepted =
    let (t, run, table', gone, no_file, boxes, files) =
      remove_box-runs calls.mutex s.broker name i x table found valid free_mutex file there in
    let k₁ : ℕ → Client = update s.clients c (record (s.clients c) { client_pipe = pos p }) in
    let client : k₁ c ≡ record (s.clients c) { client_pipe = pos p } =
      update_self s.clients c (record (s.clients c) { client_pipe = pos p }) in
    let s₁ : Server = record s {
      boxes_lock = true;
      clients = k₁;
      system = record s.system { opens = os };
    } in
    let here : find_box s.broker (s.clients c).box_name ≡ some i =
      ap (find_box s.broker) named ∙ found in
    let others : NotUsed s₁ c (s.clients c).box_name = λ j ne.
      let e : k₁ j ≡ s.clients j =
        update_ne s.clients c (record (s.clients c) { client_pipe = pos p }) j (λ q. ne (sym q)) in
      ap (λ (y : Client). str_eq y.box_name (s.clients c).box_name) e
      ∙ ap (str_eq (s.clients j).box_name) named
      ∙ alone j ne in
    let removed = ap (λ (r : List ℕ). remove_box calls.mutex r s.broker) named ∙ run in
    let s₂ : Server =
      record (after_sending (record s₁ { broker = t }) (pos p)
        (answer_frames op_remove_box_answer answer_ok) rest) { boxes_lock = false } in
    let (s₃, end, broker, lock, sent) =
      finish_remover s₂ c k cs (ap (λ (y : Client). y.opcode) client ∙ op) close_ok in
    (
      s₃,
      rw unlocked (
          rw open_ok (
            rw here (
              rw (finish_sessions-none c (s.clients c).box_name s.max_sessions 0 s₁ others) (
                rw removed (
                  write_answer-wrote (pos p) op_remove_box_answer answer_ok _
                    (record s₁ { broker = t }) rest accepted
                  ∙ end
                  ∙ ap (λ (y : Client). ok (end_code y.box_fd) s₃) client))))),
      ap (λ (y : Broker). find_box y (path name)) broker ∙ gone,
      ap (λ (y : Broker). view y.fs name) broker ∙ no_file,
      λ j ne. ap (λ (y : Broker). y.boxes j) broker ∙ boxes j ne,
      λ u f ne. ap (λ (y : Broker). view y.fs u) broker ∙ files u f ne,
      subst IsTable (sym broker) table',
      lock,
      sent,
    )
