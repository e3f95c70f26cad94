-- ===== src/Server/Publishing.antt =====
-- A publisher's session, from its first message to the end of its pipe.
use proj_so.Prelude.{
  ℕ, zero, suc, ◌+◌, ◌≤◌, ◌<◌, ◌≡◌, refl, sym, ap, subst, ◌∙◌, true, false, List, [], ◌∷◌, ◌++◌,
  Option, some, arith, ◌==◌, length, length-append, append-nil, append_assoc, drop_beyond,
  update_self, update_ne, ◌≢◌, ℤ, pos, is_zero, sub_size, ok,
}
use proj_so.Fs.Append.{IsStored}
use proj_so.Wire.System.{System, ReadAnswer, got, next_read, Delivers, try_read-got}
use proj_so.Wire.Text.{text_of}
use proj_so.Wire.Request.{op_regist_pub, op_publisher}
use proj_so.Wire.Serve.{All}
use proj_so.Broker.Boxes.{Box, Broker}
use proj_so.Server.State.{Calls, Client, Server, with_box}
use proj_so.Server.Session.{left_box, finished}
use proj_so.Fs.Lookup.{path}
use proj_so.Server.Finish.{no_handle, ended, left_table, finish_client_session-ends}
use proj_so.Server.Publisher.{
  message_length, read_over, pipe_closed, finish_and_return, handle_messages_from_publisher,
}
use proj_so.Server.Store.{IsOnBox, stored_text, store_message-stores}

-- What a publisher sends: a code and a buffer for each message.
abbrev pub publisher_frames : List (List ℕ) → List (List ℕ)
publisher_frames [] = []
publisher_frames (m ∷ ms) = (op_publisher ∷ []) ∷ m ∷ publisher_frames ms

-- What the box keeps of them.
abbrev pub stored_all : List (List ℕ) → List ℕ
stored_all [] = []
stored_all (m ∷ ms) = stored_text m ++ stored_all ms

abbrev pub IsFull : List ℕ → Type 0
IsFull m = length m ≡ message_length

pub whole_buffer : (m buffer : List ℕ) → IsFull m → IsFull buffer → read_over m buffer ≡ m
whole_buffer m buffer h e =
    ap (λ r. m ++ r) (drop_beyond (length m) buffer (omega arith)) ∙ append-nil m

abbrev with_reads : Server → List ReadAnswer → Server
with_reads s reads = record s { system = record s.system { reads = reads } }

abbrev publishers : Server → ℕ → ℕ
publishers s b = (s.broker.boxes b).n_publishers

module _ (calls : Calls) (works : is_zero calls.broadcast ≡ true) (c b : ℕ) (name : List ℕ) (x : ℤ)
    (limit : ℕ) where
  reads_change :
      (s : Server) (bytes : List ℕ) (n : ℕ) (reads : List ReadAnswer)
      → IsOnBox s c b name x bytes n limit
      → IsOnBox (with_reads s reads) c b name x bytes n limit
  reads_change s bytes n reads w = record {
    box = w.box;
    free = w.free;
    named = w.named;
    stored = w.stored;
    counted = w.counted;
    limit_ok = w.limit_ok;
  }

  -- One round of the loop.
  one_round :
      (fuel n : ℕ) (m buffer bytes : List ℕ) (s : Server) (a a' : List ReadAnswer)
      → IsOnBox s c b name x bytes (suc n) limit
      → IsFull m
      → IsFull buffer
      → length bytes + length (stored_text m) ≤ limit
      → next_read s.system.reads ≡ some (got (op_publisher ∷ []), a)
      → next_read a ≡ some (got m, a')
      → (s' : Server) × (handle_messages_from_publisher calls c (suc fuel) buffer s
          ≡ handle_messages_from_publisher calls c fuel m s')
        × IsOnBox s' c b name x (bytes ++ stored_text m) n limit
        × (s'.clients ≡ s.clients)
        × (s'.system ≡ record s.system { reads = a' })
        × (publishers s' b ≡ publishers s b)
  unfolding handle_messages_from_publisher
  one_round fuel n m buffer bytes s a a' w full filled fits e e' =
      let s₀ : Server = with_reads s a' in
      let (s', run, w', changes) =
        store_message-stores calls works s₀ c b name x bytes n limit
          (reads_change s bytes (suc n) a' w) m
          (omega (arith, fits, length-append (text_of m) (0 ∷ []))) in
      let some_bytes : (length m == 0) ≡ false = ground arith in
      (
        s',
        rw (try_read-got 1 s.system (op_publisher ∷ []) a (omega arith) e) (
            rw (try_read-got message_length (record s.system { reads = a }) m a' (omega arith) e') (
              rw some_bytes (
                rw (w.box, whole_buffer m buffer full filled)
                  (run (handle_messages_from_publisher calls c fuel m))))),
        w',
        changes.clients,
        changes.system,
        ap (λ (k : Box). k.n_publishers) changes.box,
      )

  -- All rounds, and the end of the pipe.
  every_round :
      (ms : List (List ℕ)) (fuel n : ℕ) (buffer bytes : List ℕ) (s : Server)
      (mid rest : List ReadAnswer)
      → IsOnBox s c b name x bytes (length ms + n) limit
      → All IsFull ms
      → IsFull buffer
      → length bytes + length (stored_all ms) ≤ limit
      → length ms < fuel
      → Delivers s.system.reads (publisher_frames ms) mid
      → next_read mid ≡ some (got [], rest)
      → (s' : Server) × (handle_messages_from_publisher calls c fuel buffer s ≡ pipe_closed c s')
        × IsOnBox s' c b name x (bytes ++ stored_all ms) n limit
        × (s'.clients ≡ s.clients)
        × (s'.system ≡ record s.system { reads = rest })
        × (publishers s' b ≡ publishers s b)
  unfolding handle_messages_from_publisher
  every_round ms zero n buffer bytes s mid rest w full filled fits h d e = absurd (omega arith)
  every_round [] (suc fuel) n buffer bytes s mid rest w full filled fits h d e =
      let r : Server = with_reads s rest in
      let none_left : length {A = List ℕ} [] + n ≡ n = omega arith in
      let w₀ = subst (λ (k : ℕ). IsOnBox s c b name x bytes k limit) none_left w in
      (
        r,
        rw (try_read-got 1 s.system [] rest (omega arith) (ap next_read d ∙ e)) refl,
        subst (λ (l : List ℕ). IsOnBox r c b name x l n limit) (sym (append-nil bytes))
            (reads_change s bytes n rest w₀),
        refl,
        refl,
        refl,
      )
  every_round (m ∷ ms) (suc fuel) n buffer bytes s mid rest w (f, full) filled fits h
        (a, e₁, (a', e₂, d)) e =
      let more : length (m ∷ ms) + n ≡ suc (length ms + n) = omega arith in
      let w₀ = subst (λ (k : ℕ). IsOnBox s c b name x bytes k limit) more w in
      let both = length-append (stored_text m) (stored_all ms) in
      let joined = length-append bytes (stored_text m) in
      let (s₁, run₁, w₁, clients₁, system₁, publishers₁) =
        one_round fuel (length ms + n) m buffer bytes s a a' w₀ f filled (omega (arith, both)) e₁
          e₂ in
      let d₁ : Delivers s₁.system.reads (publisher_frames ms) mid =
        subst (λ (y : System). Delivers y.reads (publisher_frames ms) mid) (sym system₁) d in
      let (s₂, run₂, w₂, clients₂, system₂, publishers₂) =
        every_round ms fuel n m (bytes ++ stored_text m) s₁ mid rest w₁ full f
          (omega (arith, both, joined)) (omega arith) d₁ e in
      (
        s₂,
        run₁ ∙ run₂,
        subst (λ (l : List ℕ). IsOnBox s₂ c b name x l n limit)
            (append_assoc bytes (stored_text m) (stored_all ms)) w₂,
        clients₂ ∙ clients₁,
        system₂ ∙ ap (λ (y : System). record y { reads = rest }) system₁,
        publishers₂ ∙ publishers₁,
      )

abbrev publisher_leaves : Box → Box
publisher_leaves = left_box op_regist_pub

pub pipe_closed-some :
    (s : Server) (c b : ℕ)
    → (s.clients c).box ≡ some b
    → pipe_closed c s ≡ finish_and_return c (pos 0) s
unfolding pipe_closed
pipe_closed-some s c b e = rw (e, pipe_closed) refl

-- A publisher's session on a box whose file is well formed: for messages of MESSAGE_LENGTH bytes each,
-- which come over the pipe in order, with any interruptions between, and then the end of the pipe, with
-- room for all in the block and a free handle for each, handle_messages_from_publisher returns 0 and
-- has appended to the file the text of each message with a terminator, in order; the box's size is the
-- length of the file, its mutex is free, and it has one publisher less; its name, the other sessions
-- and what went into other pipes stay as they are. The session has a number in
-- box_fd and its pipe closes, and pthread_cond_broadcast succeeds. One number of fuel for each message,
-- and one for the end, are enough.
pub publisher_appends :
    (calls : Calls) (s : Server) (c b k : ℕ) (name : List ℕ) (x : ℤ) (bytes : List ℕ)
    (ms : List (List ℕ)) (fuel n limit : ℕ) (buffer : List ℕ) (mid rest : List ReadAnswer)
    (cs : List ℤ)
    → is_zero calls.broadcast ≡ true
    → IsOnBox s c b name x bytes (length ms + n) limit
    → (s.clients c).opcode ≡ op_regist_pub
    → no_handle (s.clients c) ≡ false
    → s.system.closes ≡ pos k ∷ cs
    → All IsFull ms
    → IsFull buffer
    → length bytes + length (stored_all ms) ≤ limit
    → length ms < fuel
    → Delivers s.system.reads (publisher_frames ms) mid
    → next_read mid ≡ some (got [], rest)
    → (s' : Server) × (handle_messages_from_publisher calls c fuel buffer s ≡ ok (pos 0) s')
      × IsStored s'.broker.fs name x (bytes ++ stored_all ms) n
      × ((s'.broker.boxes b).box_size ≡ length (bytes ++ stored_all ms))
      × (s'.box_locks b ≡ false)
      × ((s'.broker.boxes b).n_publishers ≡ sub_size (s.broker.boxes b).n_publishers 1)
      × ((s'.broker.boxes b).box_name ≡ path name)
      × (s'.broker.fs.fs_params.block_size ≡ limit)
      × ((d : ℕ) → c ≢ d → s'.clients d ≡ s.clients d)
      × (s'.system ≡ record s.system { reads = rest; closes = cs })
publisher_appends calls s c b k name x bytes ms fuel n limit buffer mid rest cs works w op ready
      close_ok full filled fits h d e =
    let (t, run, w', clients, system, same) =
      every_round calls works c b name x limit ms fuel n buffer bytes s mid rest w full filled fits
        h d e in
    let close_ok' : t.system.closes ≡ pos k ∷ cs =
      ap (λ (y : System). y.closes) system ∙ close_ok in
    let client : t.clients c ≡ s.clients c = ap (λ (f : ℕ → Client). f c) clients in
    let ready' : no_handle (t.clients c) ≡ false = ap no_handle client ∙ ready in
    let op' : (t.clients c).opcode ≡ op_regist_pub = ap (λ (y : Client). y.opcode) client ∙ op in
    let table : left_table (t.clients c) (t.clients c).box t.broker
        ≡ with_box b publisher_leaves t.broker =
      ap (λ (o : Option ℕ). left_table (t.clients c) o t.broker) w'.box
      ∙ ap (λ (o : ℕ). with_box b (left_box o) t.broker) op' in
    let box : (left_table (t.clients c) (t.clients c).box t.broker).boxes b
        ≡ publisher_leaves (t.broker.boxes b) =
      ap (λ (y : Broker). y.boxes b) table
      ∙ update_self t.broker.boxes b (publisher_leaves (t.broker.boxes b)) in
    (
      ended t c cs,
      run
          ∙ pipe_closed-some t c b w'.box
          ∙ rw (finish_client_session-ends t c k cs close_ok' ready') refl,
      subst (λ (y : Broker). IsStored y.fs name x (bytes ++ stored_all ms) n) (sym table) w'.stored,
      ap (λ (y : Box). y.box_size) box ∙ w'.counted,
      w'.free,
      ap (λ (y : Box). y.n_publishers) box ∙ ap (λ (y : ℕ). sub_size y 1) same,
      ap (λ (y : Box). y.box_name) box ∙ w'.named,
      ap (λ (y : Broker). y.fs.fs_params.block_size) table ∙ w'.limit_ok,
      λ d ne.
          update_ne t.clients c (finished (t.clients c)) d ne
          ∙ ap (λ (f : ℕ → Client). f d) clients,
      ap (λ (y : System). record y { closes = cs }) system,
    )
