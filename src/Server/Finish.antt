-- ===== src/Server/Finish.antt =====
-- What finish_client_session does when close succeeds.
use proj_so.Prelude.{
  ℕ, ◌&&◌, ◌≡◌, refl, sym, ap, Bool, true, false, not, List, ◌∷◌, Option, none, some, ◌==◌, update,
  update_self, update_ne, fun_ext, ℕ_discrete, ℤ, pos, minus_one, is_minus_one, ok,
}
use proj_so.Broker.Boxes.{Box, Broker}
use proj_so.Wire.System.{sys_close}
use proj_so.Wire.Request.{op_list_boxes, op_regist_pub, op_regist_sub}
use proj_so.Server.State.{Client, Server, with_box, safe_close}
use proj_so.Server.Session.{left_box, finished, finish_client_session}

-- The session may not end: it is not that of a list request, and it has no handle.
abbrev pub no_handle : Client → Bool
no_handle client = not (client.opcode == op_list_boxes) && is_minus_one client.box_fd

abbrev pub left_table : Client → Option ℕ → Broker → Broker
left_table client none t = t
left_table client (some b) t = with_box b (left_box client.opcode) t

abbrev pub closed_pipe : Server → List ℤ → Server
closed_pipe s closes = record s { system = record s.system { closes = closes } }

-- The state after the session has ended.
abbrev pub ended : Server → ℕ → List ℤ → Server
ended s c closes = record (closed_pipe s closes) {
  broker = left_table (s.clients c) (s.clients c).box s.broker;
  clients = update s.clients c (finished (s.clients c));
}

module _ (s : Server) (c k : ℕ) (closes : List ℤ) (e : s.system.closes ≡ pos k ∷ closes) where
  leave :
      (box : Option ℕ)
      → (s.clients c).box ≡ box
      → no_handle (s.clients c) ≡ false
      → finish_client_session c s ≡ ok (pos 0) (ended s c closes)
  unfolding finish_client_session safe_close sys_close
  leave none i h = rw e (rw h (rw i refl))
  leave (some b) i h = rw e (rw h (rw i refl))

  pub finish_client_session-ends :
      no_handle (s.clients c) ≡ false → finish_client_session c s ≡ ok (pos 0) (ended s c closes)
  finish_client_session-ends h = leave (s.clients c).box refl h

  pub finish_client_session-refuses :
      no_handle (s.clients c) ≡ true
      → finish_client_session c s ≡ ok minus_one (closed_pipe s closes)
  unfolding finish_client_session safe_close sys_close
  finish_client_session-refuses h = rw e (rw h refl)

update_same : {A : Type 0} (f : ℕ → A) (i : ℕ) (a : A) → f i ≡ a → update f i a ≡ f
update_same f i a e = fun_ext λ j. elim (ℕ_discrete i j) [
  | yes same ↦ rw (← same, update_self f i a) (sym e)
  | no other ↦ update_ne f i a j other
]

-- A session that is neither a publisher's nor a subscriber's leaves the table as it is.
pub left_table-idle :
    (client : Client) (box : Option ℕ) (t : Broker)
    → (client.opcode == op_regist_pub) ≡ false
    → (client.opcode == op_regist_sub) ≡ false
    → left_table client box t ≡ t
left_table-idle client none t e e' = refl
left_table-idle client (some b) t e e' =
    rw (e, e')
      (ap (λ (f : ℕ → Box). record t { boxes = f }) (update_same t.boxes b (t.boxes b) refl))

pub left_table-list :
    (client : Client) (box : Option ℕ) (t : Broker)
    → client.opcode ≡ op_list_boxes
    → left_table client box t ≡ t
left_table-list client box t e = left_table-idle client box t (rw e refl) (rw e refl)
