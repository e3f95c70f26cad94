-- ===== src/Server/Delivery.antt =====
-- From a publisher to a subscriber.
use proj_so.Prelude.{
  ℕ, suc, ◌+◌, ◌≤◌, ◌<◌, ◌≡◌, ◌≢◌, refl, sym, ap, subst, ◌∙◌, true, false, List, [], ◌∷◌, ◌++◌,
  some, arith, ◌==◌, inl, inr, Bool-cases, length, append_assoc, ℤ, pos, is_zero, M, ok, ◌>>◌,
}
use proj_so.Fs.Memory.Laws.{IsName}
use proj_so.Fs.Lookup.{path}
use proj_so.Fs.Append.{IsStored}
use proj_so.Wire.System.{System, ReadAnswer, WriteAnswer, got, next_read, Delivers, Accepts}
use proj_so.Wire.Text.{text_of}
use proj_so.Wire.Request.{op_regist_pub}
use proj_so.Wire.Serve.{All}
use proj_so.Broker.Boxes.{Box}
use proj_so.Server.State.{Calls, Client, Server}
use proj_so.Server.Sending.{to_pipe}
use proj_so.Server.Finish.{no_handle}
use proj_so.Server.Publisher.{handle_messages_from_publisher}
use proj_so.Server.Subscriber.{box_size_limit, handle_messages_until_now}
use proj_so.Server.Store.{IsOnBox, length-text_of}
use proj_so.Server.Publishing.{publisher_frames, stored_all, IsFull, publisher_appends}
use proj_so.Server.CatchUp.{IsText, joined, subscriber_frames, frame_lengths}
use proj_so.Server.Earlier.{until_now_sends_texts}

-- The texts of some messages.
abbrev pub texts_of : List (List ℕ) → List (List ℕ)
texts_of [] = []
texts_of (m ∷ ms) = text_of m ∷ texts_of ms

joined-texts_of : (ms : List (List ℕ)) → joined (texts_of ms) ≡ stored_all ms
joined-texts_of [] = refl
joined-texts_of (m ∷ ms) =
    ap (λ r. text_of m ++ (0 ∷ r)) (joined-texts_of ms)
    ∙ sym (append_assoc (text_of m) (0 ∷ []) (stored_all ms))

text_of-IsName : (m : List ℕ) → IsName (text_of m)
unfolding text_of
text_of-IsName [] = tt
text_of-IsName (c ∷ m) = elim (Bool-cases (c == 0)) [
  | inl e ↦ rw e tt
  | inr e ↦ let p : 0 < c = ground arith in rw e (p, text_of-IsName m)
]

texts_of-IsText : (ms : List (List ℕ)) → All IsFull ms → All IsText (texts_of ms)
texts_of-IsText [] v = tt
texts_of-IsText (m ∷ ms) (f, v) =
    ((text_of-IsName m, omega (arith, length-text_of m)), texts_of-IsText ms v)

-- A publisher's session, and then the first part of a subscriber's.
pub publish_then_catch_up : Calls → ℕ → ℕ → ℕ → ℕ → ℕ → List ℕ → M Server ℤ
publish_then_catch_up calls c d b fuel fuel' buffer = do
  handle_messages_from_publisher calls c fuel buffer
  handle_messages_until_now calls fuel' d b

-- What a publisher sends over its pipe, in messages of MESSAGE_LENGTH bytes, is what a subscriber of
-- the same box in another session, who comes later and whose client->offset is 0, finds in its pipe: the
-- text of each message, up to its first zero, in a message of its own, in the same order, and nothing
-- else; the subscriber's offset is then the size of the box. The box is empty and unlocked before, its
-- file is well formed with handles and a block for all, the publisher's session has a number in box_fd,
-- pthread_cond_broadcast and close succeed, and both pipes work, with any interruptions.
pub messages_are_delivered :
    (calls : Calls) (s : Server) (c d b k : ℕ) (name : List ℕ) (x : ℤ) (ms : List (List ℕ))
    (fuel n limit : ℕ) (buffer : List ℕ) (mid rest : List ReadAnswer) (cs : List ℤ)
    (taken : List WriteAnswer)
    → is_zero calls.broadcast ≡ true
    → c ≢ d
    → IsOnBox s c b name x [] (length ms + suc n) limit
    → limit ≤ box_size_limit
    → (s.clients c).opcode ≡ op_regist_pub
    → no_handle (s.clients c) ≡ false
    → s.system.closes ≡ pos k ∷ cs
    → All IsFull ms
    → IsFull buffer
    → length (stored_all ms) ≤ limit
    → length ms < fuel
    → Delivers s.system.reads (publisher_frames ms) mid
    → next_read mid ≡ some (got [], rest)
    → (s.clients d).box ≡ some b
    → (s.clients d).box_name ≡ path name
    → (s.clients d).offset ≡ 0
    → Accepts s.system.writes (frame_lengths (texts_of ms)) taken
    → (s' : Server) × (publish_then_catch_up calls c d b fuel 2 buffer s ≡ ok (pos 0) s')
      × (s'.system.sent
          ≡ s.system.sent ++ to_pipe (s.clients d).client_pipe (subscriber_frames (texts_of ms)))
      × ((s'.clients d).offset ≡ (s'.broker.boxes b).box_size)
unfolding publish_then_catch_up
messages_are_delivered calls s c d b k name x ms fuel n limit buffer mid rest cs taken works apart w
      fits op ready close_ok full filled room h arrives ends box named at_start accepted =
    let (s₁, run₁, stored, counted, unlocked, _, kept, limit_ok, others, system) =
      publisher_appends calls s c b k name x [] ms fuel (suc n) limit buffer mid rest cs works w op
        ready close_ok full filled (omega arith) h arrives ends in
    let same : s₁.clients d ≡ s.clients d = others d apart in
    let texts = joined-texts_of ms in
    let w₁ : IsOnBox s₁ d b name x (joined (texts_of ms)) (suc n) limit = record {
      box = ap (λ (y : Client). y.box) same ∙ box;
      free = unlocked;
      named = kept;
      stored = subst (λ (l : List ℕ). IsStored s₁.broker.fs name x l (suc n)) (sym texts) stored;
      counted = counted ∙ ap length (sym texts);
      limit_ok = limit_ok;
    } in
    let (s₂, run₂, sent, offset, _, boxes, _) =
      until_now_sends_texts calls s₁ d b name x (texts_of ms) 0 n limit taken w₁ fits
        (ap (λ (y : Client). y.box_name) same ∙ named)
        (ap (λ (y : Client). y.offset) same ∙ at_start) (texts_of-IsText ms full)
        (subst (λ (y : System). Accepts y.writes (frame_lengths (texts_of ms)) taken) (sym system)
          accepted) in
    (
      s₂,
      rw run₁ run₂,
      sent
          ∙ ap
              (λ (y : Client).
                s₁.system.sent ++ to_pipe y.client_pipe (subscriber_frames (texts_of ms)))
              same
          ∙ ap
              (λ (y : System).
                y.sent ++ to_pipe (s.clients d).client_pipe (subscriber_frames (texts_of ms)))
              system,
      offset ∙ sym (ap (λ (f : ℕ → Box). (f b).box_size) boxes ∙ w₁.counted),
    )
