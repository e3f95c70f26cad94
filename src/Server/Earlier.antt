-- ===== src/Server/Earlier.antt =====
-- handle_messages_until_now: a new subscriber gets the messages that its box holds.
use proj_so.Prelude.{
  append-nil, ◌⊎◌, inl, inr, ℕ, zero, suc, ◌^◌, ◌≤◌, ◌<◌, ◌≡◌, refl, sym, ap, ◌∙◌, true, false,
  List, [], ◌∷◌, ◌++◌, none, some, arith, ◌==◌, length, length-append, update, update_self, ℤ, pos,
  index, is_zero, add_size, sub_size, ok,
}
use proj_so.Fs.State.{Tfs}
use proj_so.Fs.Invariant.{view, view_at, lookup-IsFileInode, IsFileInode-lt}
use proj_so.Fs.Handles.{with_existing}
use proj_so.Fs.Lookup.{path}
use proj_so.Fs.Operations.{tfs_o_creat, tfs_open, tfs_read}
use proj_so.Fs.Append.{IsStored-size}
use proj_so.Fs.Reread.{read_whole_file}
use proj_so.Wire.System.{WriteAnswer, Accepts}
use proj_so.Wire.Serve.{All}
use proj_so.Server.State.{Calls, Client, Server, lock_box, unlock_box}
use proj_so.Server.Sending.{to_pipe, after_sending}
use proj_so.Server.Store.{IsOnBox}
use proj_so.Server.Subscriber.{box_size_limit, unread, send_until_now, handle_messages_until_now}
use proj_so.Server.CatchUp.{
  IsText, joined, subscriber_frames, frame_lengths, send_strings-sends, length-joined,
}

-- Nothing is left to read.
abbrev Exhausted : Server → ℕ → ℕ → Type 0
Exhausted s b c = unread b c s ≡ 0

positive : (n : ℕ) → 0 < n → is_zero (pos n) ≡ false
positive zero h = absurd (omega arith)
positive (suc n) h = refl

module _ (calls : Calls) (b c : ℕ) where
  pub stops_when_done :
      (fuel : ℕ) (s : Server) → Exhausted s b c → send_until_now calls b c (suc fuel) s ≡ ok none s
  unfolding send_until_now
  stops_when_done fuel s e = let z : (unread b c s == 0) ≡ true = rw e refl in rw z refl

  -- The state after a round that reads the whole file.
  abbrev after_round : Server → Tfs → List (List ℕ) → List WriteAnswer → Server
  after_round s t ts rest =
      let s₁ : Server = record s { broker = record s.broker { fs = t } } in
      let s₂ : Server = after_sending s₁ (s.clients c).client_pipe (subscriber_frames ts) rest in
      record s₂ {
        clients =
            update s.clients c (record (s.clients c) {
              offset = add_size (s.clients c).offset (length (joined ts));
            });
      }

  one_round :
      (fuel : ℕ) (s : Server) (t : Tfs) (ts : List (List ℕ)) (rest : List WriteAnswer)
      → 0 < unread b c s
      → tfs_read calls.mutex (s.clients c).box_fd box_size_limit s.broker.fs
        ≡ ok (pos (length (joined ts)), joined ts) t
      → 0 < length (joined ts)
      → All IsText ts
      → Accepts s.system.writes (frame_lengths ts) rest
      → send_until_now calls b c (suc fuel) s
        ≡ send_until_now calls b c fuel (after_round s t ts rest)
  unfolding send_until_now
  one_round fuel s t ts rest some_left read some_bytes texts accepted =
      let z : (unread b c s == 0) ≡ false = ground arith in
      let nonzero : is_zero (pos (length (joined ts))) ≡ false =
        positive (length (joined ts)) some_bytes in
      let s₁ : Server = record s { broker = record s.broker { fs = t } } in
      rw z (
        rw read (
          rw nonzero (
            rw
              (send_strings-sends (s.clients c).client_pipe ts (length (joined ts)) s₁ rest texts
                (length-joined ts) accepted)
              refl)))

module _ (calls : Calls) (s : Server) (c b h : ℕ) (at_start : (s.clients c).offset ≡ 0)
    (rest : List WriteAnswer) where
  -- The state before the loop.
  abbrev opened : Tfs → Server
  opened t = record s {
    broker = record s.broker { fs = t };
    clients = update s.clients c (record (s.clients c) { box_fd = pos h });
    box_locks = update s.box_locks b true;
  }

  opened_client : (t : Tfs) → (opened t).clients c ≡ record (s.clients c) { box_fd = pos h }
  opened_client t = update_self s.clients c (record (s.clients c) { box_fd = pos h })

  left_at_start : (t : Tfs) → unread b c (opened t) ≡ sub_size (s.broker.boxes b).box_size 0
  left_at_start t =
      ap (λ (k : Client). sub_size (s.broker.boxes b).box_size k.offset) (opened_client t)
      ∙ ap (sub_size (s.broker.boxes b).box_size) at_start

  abbrev Caught : List (List ℕ) → Tfs → Tfs → Server → Type 0
  Caught ts t t' s' =
      (s'.system.sent ≡ s.system.sent ++ to_pipe (s.clients c).client_pipe (subscriber_frames ts))
      × ((s'.clients c).offset ≡ length (joined ts))
      × (s'.broker.boxes ≡ s.broker.boxes)
      × ((s'.broker.fs ≡ t) ⊎ (s'.broker.fs ≡ t'))

  read_whole :
      (ts : List (List ℕ)) (t t' : Tfs) (fuel : ℕ)
      → (s.broker.boxes b).box_size ≡ length (joined ts)
      → length (joined ts) < 2 ^ 64
      → All IsText ts
      → Accepts s.system.writes (frame_lengths ts) rest
      → tfs_read calls.mutex (pos h) box_size_limit t ≡ ok (pos (length (joined ts)), joined ts) t'
      → (s' : Server) × (send_until_now calls b c (suc (suc fuel)) (opened t) ≡ ok none s')
        × Caught ts t t' s'
  read_whole [] t t' fuel counted small texts accepted run = (
    opened t,
    stops_when_done calls b c (suc fuel) (opened t)
        (left_at_start t ∙ ap (λ (k : ℕ). sub_size k 0) counted),
    (
      sym (append-nil s.system.sent),
      ap (λ (k : Client). k.offset) (opened_client t) ∙ at_start,
      refl,
      inl refl,
    ),
  )
  read_whole (u ∷ us) t t' fuel counted small texts accepted run =
      let ts : List (List ℕ) = u ∷ us in
      let some_bytes : 0 < length (joined ts) = omega (arith, length-append u (0 ∷ joined us)) in
      let exact : add_size 0 (length (joined ts)) ≡ length (joined ts) = omega arith in
      let s' : Server = after_round calls b c (opened t) t' ts rest in
      let offset : (s'.clients c).offset ≡ length (joined ts) =
        ap (λ (k : Client). k.offset)
          (update_self (opened t).clients c (record ((opened t).clients c) {
            offset = add_size ((opened t).clients c).offset (length (joined ts));
          }))
        ∙ ap (λ (k : ℕ). add_size k (length (joined ts)))
            (ap (λ (k : Client). k.offset) (opened_client t) ∙ at_start)
        ∙ exact in
      let sent : s'.system.sent
          ≡ s.system.sent ++ to_pipe (s.clients c).client_pipe (subscriber_frames ts) =
        ap (λ (k : Client). s.system.sent ++ to_pipe k.client_pipe (subscriber_frames ts))
          (opened_client t) in
      let left : 0 < unread b c (opened t) = omega (arith, left_at_start t) in
      let read : tfs_read calls.mutex ((opened t).clients c).box_fd box_size_limit t
          ≡ ok (pos (length (joined ts)), joined ts) t' =
        ap (λ (k : Client). tfs_read calls.mutex k.box_fd box_size_limit t) (opened_client t)
        ∙ run in
      let done : Exhausted s' b c = omega (arith, offset, counted) in
      (
        s',
        one_round calls b c (suc fuel) (opened t) t' ts rest left read some_bytes texts accepted
            ∙ stops_when_done calls b c fuel s' done,
        (sent, offset, refl, inr refl),
      )

-- A subscriber that registers on a box whose file holds texts, each with its terminator, gets them from
-- handle_messages_until_now all, each in a message of its own, in order: it returns 0 and sends just
-- these messages; the file stays as it is, the box's mutex is free again and the session's offset is
-- the length of the file. The session begins at offset 0, there is a free handle, the file is not
-- longer than BOX_SIZE, no text is longer than MESSAGE_LENGTH, and the pipe takes all writes. Two
-- rounds of the loop are enough.
pub until_now_sends_texts :
    (calls : Calls) (s : Server) (c b : ℕ) (name : List ℕ) (x : ℤ) (ts : List (List ℕ))
    (fuel n limit : ℕ) (rest : List WriteAnswer)
    → IsOnBox s c b name x (joined ts) (suc n) limit
    → limit ≤ box_size_limit
    → (s.clients c).box_name ≡ path name
    → (s.clients c).offset ≡ 0
    → All IsText ts
    → Accepts s.system.writes (frame_lengths ts) rest
    → (s' : Server) × (handle_messages_until_now calls (suc (suc fuel)) c b s ≡ ok (pos 0) s')
      × (s'.system.sent ≡ s.system.sent ++ to_pipe (s.clients c).client_pipe (subscriber_frames ts))
      × ((s'.clients c).offset ≡ length (joined ts))
      × (s'.box_locks b ≡ false)
      × (s'.broker.boxes ≡ s.broker.boxes)
      × (view s'.broker.fs name ≡ some (joined ts))
unfolding handle_messages_until_now lock_box unlock_box
until_now_sends_texts calls s c b name x ts fuel n limit rest w fits named at_start texts accepted =
    let f = lookup-IsFileInode s.broker.fs w.stored.valid name w.stored.name_ok x w.stored.there in
    let in_block = w.stored.valid.blocks.sizes (index x) (IsFileInode-lt x f) f.in_use in
    let size : length (joined ts) ≤ box_size_limit = omega (
      arith,
      in_block,
      w.limit_ok,
      IsStored-size s.broker.fs name x (joined ts) (suc n) w.stored,
    ) in
    let (t', open_ok, read_ok, _, _, kept) =
      read_whole_file calls.mutex s.broker.fs name x (joined ts) n tfs_o_creat w.stored refl refl
        box_size_limit size in
    let h : ℕ = w.stored.handles.0 in
    let t : Tfs = with_existing s.broker.fs x tfs_o_creat h in
    let (s', run, (sent, offset, boxes, file)) =
      read_whole calls s c b h at_start rest ts t t' fuel w.counted (omega arith) texts accepted
        read_ok in
    let open_here =
      ap (λ (r : List ℕ). tfs_open calls.mutex r tfs_o_creat s.broker.fs) named ∙ open_ok in
    (
      record s' { box_locks = update s'.box_locks b false },
      rw w.free (rw open_here (rw run refl)),
      sent,
      offset,
      update_self s'.box_locks b false,
      boxes,
      elim file [
        | inl same ↦
            ap (λ (y : Tfs). view y name) same
            ∙ ap (view_at s.broker.fs) w.stored.there
            ∙ ap some w.stored.holds
        | inr same ↦ ap (λ (y : Tfs). view y name) same ∙ kept
      ],
    )
