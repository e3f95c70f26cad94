-- ===== src/Server/ListAnswer.antt =====
-- What handle_tfs_list_boxes sends.
use proj_so.Prelude.{
  ℕ, zero, suc, ◌+◌, ◌-◌, ◌<◌, ◌≡◌, refl, sym, ap, subst, ◌∙◌, Bool, true, false, inl, inr,
  Bool-cases, List, [], ◌∷◌, ◌++◌, some, arith, ◌==◌, if◌then◌else◌, length, length-append,
  append-nil, replicate, update, update_self, ℤ, pos, is_zero, ok,
}
use proj_so.Fs.Memory.{strncpy_bytes}
use proj_so.Fs.Memory.Laws.{length-strncpy_bytes}
use proj_so.Wire.System.{System, sys_open, WriteAnswer, wrote, Accepts}
use proj_so.Wire.Numbers.{u64_bytes, length-u64_bytes}
use proj_so.Wire.Request.{box_name_length, op_list_boxes, op_list_boxes_answer}
use proj_so.Broker.Boxes.{Box, Broker, max_boxes}
use proj_so.Server.State.{Calls, Client, Server, equals}
use proj_so.Server.Finish.{ended, finish_client_session-ends, left_table-list}
use proj_so.Server.Listing.{
  name_field, counters, flag, box_frame, list_slots, handle_tfs_list_boxes,
}
use proj_so.Server.Sending.{to_pipe, after_sending, write_pipe-wrote, after_sending-append}

-- The boxes in use from slot `i` on, in the slots that are left, in order.
unfoldable pub boxes_in_use : Broker → ℕ → ℕ → List Box
boxes_in_use t zero i = []
boxes_in_use t (suc left) i =
    let rest = boxes_in_use t left (i + 1) in if t.free_boxes i then rest else t.boxes i ∷ rest

-- An answer tells one box: the code, whether it is the last, the name in 31 bytes, and three numbers.
abbrev pub answer_frame : Bool → Box → List ℕ
answer_frame last box =
    op_list_boxes_answer ∷ flag last ∷ (strncpy_bytes box.box_name box_name_length ++ counters box)

abbrev pub is_last : List Box → Bool
is_last [] = true
is_last (b ∷ bs) = false

abbrev pub answer_frames : List Box → List (List ℕ)
answer_frames [] = []
answer_frames (b ∷ bs) = answer_frame (is_last bs) b ∷ answer_frames bs

pub length-counters : (box : Box) → length (counters box) ≡ 24
length-counters box = omega (
  arith,
  length-append (u64_bytes box.box_size)
      (u64_bytes box.n_publishers ++ u64_bytes box.n_subscribers),
  length-append (u64_bytes box.n_publishers) (u64_bytes box.n_subscribers),
  length-u64_bytes box.box_size,
  length-u64_bytes box.n_publishers,
  length-u64_bytes box.n_subscribers,
)

-- The bytes of an answer.
abbrev pub answer_length : ℕ
answer_length = 57

length-answer_frame : (last : Bool) (box : Box) → length (answer_frame last box) ≡ answer_length
length-answer_frame last box = omega (
  arith,
  length-append (strncpy_bytes box.box_name box_name_length) (counters box),
  length-strncpy_bytes box.box_name box_name_length,
  length-counters box,
)

name_field-named :
    (stale name : List ℕ)
    → 0 < length name
    → name_field stale name ≡ strncpy_bytes name box_name_length
name_field-named stale [] h = absurd (omega arith)
name_field-named stale (c ∷ name) h = refl

length_zero : (bs : List Box) → length bs ≡ 0 → bs ≡ []
length_zero [] e = refl
length_zero (b ∷ bs) e = absurd (omega arith)

-- Every box in use has a name.
abbrev pub Named : Broker → Type 0
Named t = (i : ℕ) → i < max_boxes → t.free_boxes i ≡ false → 0 < length (t.boxes i).box_name

last-is_last :
    (n count : ℕ) (last : Bool) (bs : List Box)
    → count + suc (length bs) ≡ n
    → (count < n → last ≡ false)
    → (if n == count + 1 then true else last) ≡ is_last bs
last-is_last n count last [] e q = ground arith
last-is_last n count last (b ∷ bs) e q =
    let differs : (n == count + 1) ≡ false = ground arith in rw (differs, q (omega arith)) refl

module _ (calls : Calls) (pipe : ℤ) (m : ℕ) (s : Server) (num : s.broker.num_boxes ≡ pos (suc m))
    (named : Named s.broker) where
  abbrev used_from : ℕ → ℕ → List Box
  used_from = boxes_in_use s.broker

  abbrev with_system : System → Server
  with_system y = record s { system = y }

  nonzero : is_zero s.broker.num_boxes ≡ false
  nonzero = ap is_zero num

  equals-num : (k : ℕ) → equals s.broker.num_boxes k ≡ (suc m == k)
  equals-num k = ap (λ (z : ℤ). equals z k) num

  frame :
      (i count : ℕ) (last : Bool) (bs : List Box)
      → i < max_boxes
      → s.broker.free_boxes i ≡ false
      → count + suc (length bs) ≡ suc m
      → (count < suc m → last ≡ false)
      → box_frame (calls.stale i) (if suc m == count + 1 then true else last) (s.broker.boxes i)
        ≡ answer_frame (is_last bs) (s.broker.boxes i)
  frame i count last bs h used c q =
      rw
        (
          last-is_last (suc m) count last bs c q,
          name_field-named (calls.stale i) (s.broker.boxes i).box_name (named i h used),
        )
        refl

  list_slots-sends :
      (left i count : ℕ) (last : Bool) (y : System) (rest : List WriteAnswer)
      → i + left ≡ max_boxes
      → count + length (used_from left i) ≡ suc m
      → (count < suc m → last ≡ false)
      → Accepts y.writes (replicate (length (used_from left i)) answer_length) rest
      → list_slots calls pipe left i count last (with_system y)
        ≡ ok true (after_sending (with_system y) pipe (answer_frames (used_from left i)) rest)
  unfolding list_slots boxes_in_use
  list_slots-sends zero i count last y rest h c q accepted = rw (append-nil y.sent, ← accepted) refl
  list_slots-sends (suc left) i count last y rest h c q accepted =
      elim (Bool-cases (s.broker.free_boxes i)) [
        | inl unused ↦
            let e : used_from (suc left) i ≡ used_from left (i + 1) = rw unused refl in
            let c' : count + length (used_from left (i + 1)) ≡ suc m = rw (← e) c in
            let accepted' =
              subst (λ bs. Accepts y.writes (replicate (length bs) answer_length) rest) e
                accepted in
            rw (unused, nonzero)
              (list_slots-sends left (i + 1) count last y rest (omega arith) c' q accepted')
        | inr used ↦
            let e : used_from (suc left) i ≡ s.broker.boxes i ∷ used_from left (i + 1) =
              rw used refl in
            let c' : count + suc (length (used_from left (i + 1))) ≡ suc m =
              omega (arith, ap length e, c) in
            let last' = if suc m == count + 1 then true else last in
            let buffer = answer_frame (is_last (used_from left (i + 1))) (s.broker.boxes i) in
            let (after, first, accepted') =
              subst (λ bs. Accepts y.writes (replicate (length bs) answer_length) rest) e
                accepted in
            let y' : System = (after_sending (with_system y) pipe (buffer ∷ []) after).system in
            rw (used, nonzero, equals-num (count + 1))
              (rw (frame i count last (used_from left (i + 1)) (omega arith) used c' q) (
                write_pipe-wrote false pipe buffer
                  (list_slots calls pipe left (i + 1) (count + 1) last') (with_system y) after
                  (first
                    ∙ ap (λ (k : ℕ). some (wrote k, after))
                        (sym (
                          length-answer_frame (is_last (used_from left (i + 1)))
                            (s.broker.boxes i))))
                ∙ list_slots-sends left (i + 1) (count + 1) last' y' rest (omega arith)
                    (omega arith) (λ more. ground arith) accepted'
                ∙ ap (ok true) (
                    after_sending-append (with_system y) pipe (buffer ∷ [])
                      (answer_frames (used_from left (i + 1))) after rest)))
      ]

-- The boxes in use, in the order of their slots.
abbrev pub in_use : Broker → List Box
in_use t = boxes_in_use t max_boxes 0

-- What handle_tfs_list_boxes leaves for its loop.
abbrev opened : Server → ℕ → ℕ → List ℤ → Server
opened s c p os = record s {
  clients = update s.clients c (record (s.clients c) { client_pipe = pos p });
  system = record s.system { opens = os };
}

-- With a box in use, with a name for each, with the counter at their number, and with a pipe that
-- opens, takes all writes and closes, handle_tfs_list_boxes returns 0, leaves the table as it is, and
-- sends one answer for each box in use, in the order of the slots, of which the last one, and no
-- other, is marked as the last.
pub list_boxes_answers :
    (calls : Calls) (s : Server) (c p k : ℕ) (os cs : List ℤ) (rest : List WriteAnswer)
    → (s.clients c).opcode ≡ op_list_boxes
    → s.broker.num_boxes ≡ pos (length (in_use s.broker))
    → 0 < length (in_use s.broker)
    → Named s.broker
    → s.system.opens ≡ pos p ∷ os
    → s.system.closes ≡ pos k ∷ cs
    → Accepts s.system.writes (replicate (length (in_use s.broker)) answer_length) rest
    → (s' : Server) × (handle_tfs_list_boxes calls c s ≡ ok (pos 0) s')
      × (s'.broker ≡ s.broker)
      × (s'.system.sent ≡ s.system.sent ++ to_pipe (pos p) (answer_frames (in_use s.broker)))
unfolding handle_tfs_list_boxes sys_open
list_boxes_answers calls s c p k os cs rest op num more named open_ok close_ok accepted =
    let n : ℕ = length (in_use s.broker) in
    let m : ℕ = n - 1 in
    let num' : s.broker.num_boxes ≡ pos (suc m) = num ∙ ap pos (omega arith) in
    let s₁ : Server = opened s c p os in
    let s₂ : Server = after_sending s₁ (pos p) (answer_frames (in_use s.broker)) rest in
    let client : s₁.clients c ≡ record (s.clients c) { client_pipe = pos p } =
      update_self s.clients c (record (s.clients c) { client_pipe = pos p }) in
    let op₂ : (s₂.clients c).opcode ≡ op_list_boxes = ap (λ (k : Client). k.opcode) client ∙ op in
    let run : list_slots calls (pos p) max_boxes 0 0 false s₁ ≡ ok true s₂ =
      list_slots-sends calls (pos p) m s₁ num' named max_boxes 0 0 false s₁.system rest refl
        (omega arith) (λ _. refl) accepted in
    (
      ended s₂ c cs,
      rw open_ok (
          rw (ap is_zero num')
            (rw run (rw (finish_client_session-ends s₂ c k cs close_ok (rw op₂ refl)) refl))),
      left_table-list (s₂.clients c) (s₂.clients c).box s₂.broker op₂,
      refl,
    )
