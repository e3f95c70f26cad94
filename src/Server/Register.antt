-- ===== src/Server/Register.antt =====
-- handle_tfs_register of a second publisher.
use proj_so.Prelude.{
  ℕ, ◌≡◌, ◌≢◌, refl, ap, fun_ext, find_index, ℕ_discrete, update_ne, add_size, arith, ◌∙◌, true,
  false, List, ◌∷◌, some, ◌==◌, update, update_self, ℤ, pos, is_minus_one, sub_size, ok,
}
use proj_so.Wire.System.{sys_open}
use proj_so.Wire.Request.{op_regist_pub}
use proj_so.Broker.Boxes.{Box, Broker, max_boxes, str_eq, find_box, get_box}
use proj_so.Server.State.{Calls, Client, Server, with_box}
use proj_so.Server.Session.{left_box, finished}
use proj_so.Server.Publisher.{handle_messages_from_publisher}
use proj_so.Server.Finish.{no_handle, ended, left_table, finish_client_session-ends}
use proj_so.Server.Requests.{register_publisher, handle_tfs_register}

-- The client as handle_tfs_register leaves it for the tests on the box.
abbrev pub registered : Client → ℕ → ℕ → Client
registered client p b = record client { client_pipe = pos p; box = some b }

abbrev with_client : Server → ℕ → Client → Server
with_client s c client = record s { clients = update s.clients c client }

register_refused :
    (calls : Calls) (s : Server) (c b k fuel : ℕ) (message : List ℕ) (cs : List ℤ)
    → (s.broker.boxes b).n_publishers ≡ 1
    → no_handle (s.clients c) ≡ false
    → s.system.closes ≡ pos k ∷ cs
    → register_publisher calls fuel message c b s ≡ ok (pos 0) (ended s c cs)
unfolding register_publisher
register_refused calls s c b k fuel message cs one ready close_ok =
    rw one (finish_client_session-ends s c k cs close_ok ready)

left_box-name : (op : ℕ) (box : Box) → (left_box op box).box_name ≡ box.box_name
left_box-name op box = ground arith

-- A session that leaves a box changes no name.
find_box-left :
    (op b : ℕ) (t : Broker) (name : List ℕ)
    → find_box (with_box b (left_box op) t) name ≡ find_box t name
find_box-left op b t name =
    ap (λ (names : ℕ → List ℕ). find_index max_boxes (λ i. str_eq (names i) name))
      (fun_ext λ i. elim (ℕ_discrete b i) [
        | yes e ↦ rw (← e) (
            ap (λ (y : Box). y.box_name) (update_self t.boxes b (left_box op (t.boxes b)))
            ∙ left_box-name op (t.boxes b))
        | no ne ↦ ap (λ (y : Box). y.box_name) (update_ne t.boxes b (left_box op (t.boxes b)) i ne)
      ])

-- A publisher whose box counts none is let in: it is counted, and its messages are handled.
register_accepted :
    (calls : Calls) (s : Server) (d b p fuel : ℕ) (message : List ℕ) (os : List ℤ)
    → (s.clients d).opcode ≡ op_regist_pub
    → find_box s.broker (s.clients d).box_name ≡ some b
    → (s.broker.boxes b).n_publishers ≡ 0
    → s.system.opens ≡ pos p ∷ os
    → (t : Server) × (handle_tfs_register calls fuel message d s
        ≡ handle_messages_from_publisher calls d fuel message t)
      × ((t.broker.boxes b).n_publishers ≡ 1)
      × (t.clients d ≡ registered (s.clients d) p b)
unfolding handle_tfs_register register_publisher sys_open get_box
register_accepted calls s d b p fuel message os op found zero_there open_ok =
    let is_pub : ((s.clients d).opcode == op_regist_pub) ≡ true = rw op refl in
    let vacant : ((s.broker.boxes b).n_publishers == 1) ≡ false = rw zero_there refl in
    let k₁ : ℕ → Client = update s.clients d (record (s.clients d) { client_pipe = pos p }) in
    let grown : Box = record (s.broker.boxes b) {
      n_publishers = add_size (s.broker.boxes b).n_publishers 1;
    } in
    (
      record s {
        clients = update k₁ d (record (k₁ d) { box = some b });
        system = record s.system { opens = os };
        broker = record s.broker { boxes = update s.broker.boxes b grown };
      },
      rw open_ok (rw found (rw is_pub (rw vacant refl))),
      ap (λ (y : Box). y.n_publishers) (update_self s.broker.boxes b grown)
          ∙ ap (λ (y : ℕ). add_size y 1) zero_there,
      update_self k₁ d (record (k₁ d) { box = some b })
          ∙ ap (λ (y : Client). record y { box = some b })
              (update_self s.clients d (record (s.clients d) { client_pipe = pos p })),
    )

-- A publisher who registers on a box that has one is turned away with 0, and its finish_client_session
-- takes one publisher from the box: the box counts none then, though no other session has changed. So a
-- publisher who registers for this box in another session, once its pipe opens, is let in: its session
-- gets the box, the box counts one publisher, and its messages are handled. The refused session has a
-- number in box_fd, and its pipe opens and closes.
pub second_publisher_unregisters_first :
    (calls : Calls) (s : Server) (c d b p p' k fuel fuel' : ℕ) (message message' : List ℕ)
    (os cs : List ℤ)
    → c ≢ d
    → (s.clients d).opcode ≡ op_regist_pub
    → find_box s.broker (s.clients d).box_name ≡ some b
    → (s.clients c).opcode ≡ op_regist_pub
    → find_box s.broker (s.clients c).box_name ≡ some b
    → (s.broker.boxes b).n_publishers ≡ 1
    → is_minus_one (s.clients c).box_fd ≡ false
    → s.system.opens ≡ pos p ∷ pos p' ∷ os
    → s.system.closes ≡ pos k ∷ cs
    → (s' : Server) × (handle_tfs_register calls fuel message c s ≡ ok (pos 0) s')
      × ((s'.broker.boxes b).n_publishers ≡ 0)
      × ((a : ℕ) → c ≢ a → s'.clients a ≡ s.clients a)
      × ((t : Server) × (handle_tfs_register calls fuel' message' d s'
            ≡ handle_messages_from_publisher calls d fuel' message' t)
          × ((t.broker.boxes b).n_publishers ≡ 1)
          × (t.clients d ≡ registered (s.clients d) p' b))
unfolding handle_tfs_register sys_open get_box
second_publisher_unregisters_first calls s c d b p p' k fuel fuel' message message' os cs apart op'
      found' op found one fd open_ok close_ok =
    let is_pub : ((s.clients c).opcode == op_regist_pub) ≡ true = rw op refl in
    let k₁ : ℕ → Client = update s.clients c (record (s.clients c) { client_pipe = pos p }) in
    let s₂ : Server = record s {
      clients = update k₁ c (record (k₁ c) { box = some b });
      system = record s.system { opens = pos p' ∷ os };
    } in
    let client : s₂.clients c ≡ registered (s.clients c) p b =
      update_self k₁ c (record (k₁ c) { box = some b })
      ∙ ap (λ (y : Client). record y { box = some b })
          (update_self s.clients c (record (s.clients c) { client_pipe = pos p })) in
    let ready : no_handle (s₂.clients c) ≡ false = ap no_handle client ∙ rw (op, fd) refl in
    let table : left_table (s₂.clients c) (s₂.clients c).box s.broker
        ≡ with_box b (left_box op_regist_pub) s.broker =
      ap (λ (y : Client). left_table y y.box s.broker) client
      ∙ ap (λ (o : ℕ). with_box b (left_box o) s.broker) op in
    let s₃ : Server = ended s₂ c cs in
    let none_left : (s₃.broker.boxes b).n_publishers ≡ 0 =
      ap (λ (y : Broker). (y.boxes b).n_publishers) table
      ∙ ap (λ (y : Box). y.n_publishers)
          (update_self s.broker.boxes b (left_box op_regist_pub (s.broker.boxes b)))
      ∙ ap (λ (y : ℕ). sub_size y 1) one in
    let same : (a : ℕ) → c ≢ a → s₃.clients a ≡ s.clients a = λ a ne.
      update_ne s₂.clients c (finished (s₂.clients c)) a ne
      ∙ update_ne k₁ c (record (k₁ c) { box = some b }) a ne
      ∙ update_ne s.clients c (record (s.clients c) { client_pipe = pos p }) a ne in
    let still : find_box s₃.broker (s₃.clients d).box_name ≡ some b =
      ap (λ (y : Client). find_box s₃.broker y.box_name) (same d apart)
      ∙ ap (λ (y : Broker). find_box y (s.clients d).box_name) table
      ∙ find_box-left op_regist_pub b s.broker (s.clients d).box_name
      ∙ found' in
    let (t, run, counted, client_d) =
      register_accepted calls s₃ d b p' fuel' message' os
        (ap (λ (y : Client). y.opcode) (same d apart) ∙ op') still none_left refl in
    (
      s₃,
      rw open_ok (
          rw found
            (rw is_pub (register_refused calls s₂ c b k fuel message cs one ready close_ok))),
      none_left,
      same,
      (t, run, counted, client_d ∙ ap (λ (y : Client). registered y p' b) (same d apart)),
    )
