-- ===== src/Server/Failures.antt =====
-- Requests that bring the broker down.
use proj_so.Prelude.{
  ℕ, suc, ◌+◌, ◌≡◌, refl, sym, ap, inl, inr, Bool-cases, ◌∙◌, true, false, List, [], ◌∷◌, none,
  some, arith, ◌==◌, length, update, ℤ, pos, is_zero, ok,
}
use proj_so.Fs.Memory.Laws.{length-strncpy_bytes}
use proj_so.Wire.System.{WriteAnswer, wrote, broken, next_write, sys_open}
use proj_so.Wire.Request.{Request, server_closed, op_list_boxes}
use proj_so.Broker.Boxes.{Box, max_boxes}
use proj_so.Server.State.{Calls, Client, Server, equals, write_pipe}
use proj_so.Server.Listing.{name_field, empty_frame, list_slots, handle_tfs_list_boxes}
use proj_so.Server.Loop.{adopted, dispatch, client_session}
use proj_so.Server.Sending.{after_sending, write_pipe-wrote, write_pipe-broken}

-- The bytes of the answer when there are no boxes.
abbrev pub empty_answer_length : ℕ
empty_answer_length = 33

length-empty_frame :
    (stale : List ℕ) (box : Box) → length (empty_frame stale true box) ≡ empty_answer_length
length-empty_frame stale box = omega (arith, field box.box_name)
  where
    field : (name : List ℕ) → length (name_field stale name) ≡ 31
    field [] = length-strncpy_bytes (0 ∷ stale) 31
    field (c ∷ name) = length-strncpy_bytes (c ∷ name) 31

module _ (calls : Calls) (pipe : ℤ) where
  one_slot :
      (left i count : ℕ) (s : Server)
      → s.broker.num_boxes ≡ pos 0
      → list_slots calls pipe (suc left) i count true s
        ≡ write_pipe false pipe
            (empty_frame (calls.stale i) true (s.broker.boxes i))
            (list_slots calls pipe left (i + 1) (count + 1) true)
            s
  unfolding list_slots
  one_slot left i count s none_there =
      let z : is_zero s.broker.num_boxes ≡ true = ap is_zero none_there in
      let differs : (0 == count + 1) ≡ false = ground arith in
      let e : equals s.broker.num_boxes (count + 1) ≡ false =
        ap (λ (n : ℤ). equals n (count + 1)) none_there ∙ differs in
      elim (Bool-cases (s.broker.free_boxes i)) [
        | inl f ↦ rw (f, z, e) refl
        | inr f ↦ rw (f, z, e) refl
      ]

  -- The loop goes on after the first answer, into a pipe that is closed.
  list_slots-broken :
      (s : Server) (a rest : List WriteAnswer)
      → s.broker.num_boxes ≡ pos 0
      → next_write s.system.writes ≡ some (wrote empty_answer_length, a)
      → next_write a ≡ some (broken, rest)
      → list_slots calls pipe max_boxes 0 0 true s
        ≡ ok false (
            after_sending
              (after_sending s pipe (empty_frame (calls.stale 0) true (s.broker.boxes 0) ∷ []) a)
              pipe
              []
              rest)
  list_slots-broken s a rest none_there first second =
      let frame = empty_frame (calls.stale 0) true (s.broker.boxes 0) in
      let s₁ : Server = after_sending s pipe (frame ∷ []) a in
      let n : length frame ≡ empty_answer_length =
        length-empty_frame (calls.stale 0) (s.broker.boxes 0) in
      one_slot 63 0 0 s none_there
      ∙ write_pipe-wrote false pipe frame _ s a (first ∙ ap (λ (k : ℕ). some (wrote k, a)) (sym n))
      ∙ one_slot 62 1 1 s₁ none_there
      ∙ write_pipe-broken false pipe _ _ s₁ rest second

-- A list request when there are no boxes closes the server, when the manager goes after the first
-- answer, as it does: handle_tfs_list_boxes answers once for every slot, its second write finds the
-- pipe closed, and the session calls close_server.
pub empty_list_closes_server :
    (calls : Calls) (s : Server) (c p fuel : ℕ) (message name : List ℕ) (rs : List Request)
    (os : List ℤ) (a rest : List WriteAnswer)
    → s.broker.num_boxes ≡ pos 0
    → s.system.opens ≡ pos p ∷ os
    → next_write s.system.writes ≡ some (wrote empty_answer_length, a)
    → next_write a ≡ some (broken, rest)
    → (s' : Server) × (client_session calls fuel message c
          (record { opcode = op_list_boxes; client_pipename = name; box_name = none } ∷ rs)
          s
        ≡ ok server_closed s')
unfolding client_session dispatch handle_tfs_list_boxes sys_open
empty_list_closes_server calls s c p fuel message name rs os a rest none_there open_ok first
      second =
    let z : is_zero s.broker.num_boxes ≡ true = ap is_zero none_there in
    let k₁ : ℕ → Client = update s.clients c (
      adopted (record { opcode = op_list_boxes; client_pipename = name; box_name = none })
        (s.clients c)) in
    let s₁ : Server = record s {
      clients = update k₁ c (record (k₁ c) { client_pipe = pos p });
      system = record s.system { opens = os };
    } in
    let frame = empty_frame (calls.stale 0) true (s.broker.boxes 0) in
    (
      after_sending (after_sending s₁ (pos p) (frame ∷ []) a) (pos p) [] rest,
      rw open_ok
          (rw z (rw (list_slots-broken calls (pos p) s₁ a rest none_there first second) refl)),
    )
