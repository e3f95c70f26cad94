-- ===== src/Server/Returning.antt =====
-- handle_tfs_register of a subscriber in a session that has had a subscriber before.
use proj_so.Prelude.{
  ℕ, suc, ◌≡◌, refl, ap, ◌∙◌, true, false, List, ◌∷◌, some, arith, ◌==◌, length, update,
  update_self, ℤ, pos, sub_size, add_size, ok,
}
use proj_so.Fs.State.{Tfs}
use proj_so.Fs.Invariant.{view, view_at}
use proj_so.Fs.Handles.{with_existing}
use proj_so.Fs.Lookup.{path}
use proj_so.Fs.Operations.{tfs_o_creat, tfs_open}
use proj_so.Fs.Append.{IsStored}
use proj_so.Fs.Reread.{read_whole_file}
use proj_so.Wire.System.{sys_open}
use proj_so.Wire.Request.{op_regist_pub, op_regist_sub}
use proj_so.Broker.Boxes.{Box, find_box, get_box}
use proj_so.Server.State.{Calls, Client, Server, lock_box, unlock_box}
use proj_so.Server.Requests.{register_subscriber, handle_tfs_register}
use proj_so.Server.Earlier.{stops_when_done}
use proj_so.Server.Subscriber.{unread, handle_messages_until_now, handle_messages_to_subscriber}

-- With nothing unread, what was stored before is passed over.
until_now-idle :
    (calls : Calls) (s : Server) (c b h fuel : ℕ) (t : Tfs)
    → s.box_locks b ≡ false
    → unread b c s ≡ 0
    → tfs_open calls.mutex (s.clients c).box_name tfs_o_creat s.broker.fs ≡ ok (pos h) t
    → (s' : Server) × (handle_messages_until_now calls (suc fuel) c b s ≡ ok (pos 0) s')
      × (s'.system ≡ s.system)
      × (s'.broker.fs ≡ t)
      × (s'.broker.boxes ≡ s.broker.boxes)
      × ((s'.clients c).offset ≡ (s.clients c).offset)
unfolding handle_messages_until_now lock_box unlock_box
until_now-idle calls s c b h fuel t free idle opens =
    let s₁ : Server = record s {
      broker = record s.broker { fs = t };
      clients = update s.clients c (record (s.clients c) { box_fd = pos h });
      box_locks = update s.box_locks b true;
    } in
    let offset : (s₁.clients c).offset ≡ (s.clients c).offset =
      ap (λ (y : Client). y.offset)
        (update_self s.clients c (record (s.clients c) { box_fd = pos h })) in
    let done : unread b c s₁ ≡ 0 = ap (sub_size (s.broker.boxes b).box_size) offset ∙ idle in
    (
      record s₁ { box_locks = update s₁.box_locks b false },
      rw free (rw opens (rw (stops_when_done calls b c fuel s₁ done) refl)),
      refl,
      refl,
      refl,
      offset,
    )

-- A subscriber registers in a session whose client->offset is already the size of the box: however many
-- bytes the box holds, handle_tfs_register sends none of them, and goes on to
-- handle_messages_to_subscriber with nothing unread. The file is as it was. The box's mutex is free, its
-- file is well formed with a free handle, and the pipe opens.
pub returning_subscriber_gets_nothing :
    (calls : Calls) (s : Server) (c b p fuel n : ℕ) (name bytes message : List ℕ) (x : ℤ)
    (os : List ℤ)
    → (s.clients c).opcode ≡ op_regist_sub
    → (s.clients c).box_name ≡ path name
    → find_box s.broker (path name) ≡ some b
    → IsStored s.broker.fs name x bytes (suc n)
    → s.box_locks b ≡ false
    → (s.broker.boxes b).box_size ≡ length bytes
    → (s.clients c).offset ≡ length bytes
    → s.system.opens ≡ pos p ∷ os
    → (s' : Server) × (handle_tfs_register calls (suc fuel) message c s
        ≡ handle_messages_to_subscriber calls (suc fuel) c b s')
      × (s'.system.sent ≡ s.system.sent)
      × (unread b c s' ≡ 0)
      × (view s'.broker.fs name ≡ some bytes)
unfolding handle_tfs_register register_subscriber sys_open get_box
returning_subscriber_gets_nothing calls s c b p fuel n name bytes message x os op named found stored
      free counted at_end open_ok =
    let is_sub : ((s.clients c).opcode == op_regist_pub) ≡ false = rw op refl in
    let here : find_box s.broker (s.clients c).box_name ≡ some b =
      ap (find_box s.broker) named ∙ found in
    let k₁ : ℕ → Client = update s.clients c (record (s.clients c) { client_pipe = pos p }) in
    let k₂ : ℕ → Client = update k₁ c (record (k₁ c) { box = some b }) in
    let grown : Box = record (s.broker.boxes b) {
      n_subscribers = add_size (s.broker.boxes b).n_subscribers 1;
    } in
    let s₁ : Server = record s {
      clients = k₂;
      system = record s.system { opens = os };
      broker = record s.broker { boxes = update s.broker.boxes b grown };
    } in
    let client : k₂ c ≡ record (s.clients c) { client_pipe = pos p; box = some b } =
      update_self k₁ c (record (k₁ c) { box = some b })
      ∙ ap (λ (y : Client). record y { box = some b })
          (update_self s.clients c (record (s.clients c) { client_pipe = pos p })) in
    let (_, opened, _, _, _, _) =
      read_whole_file calls.mutex s.broker.fs name x bytes n tfs_o_creat stored refl refl
        (length bytes) (omega arith) in
    let t : Tfs = with_existing s.broker.fs x tfs_o_creat stored.handles.0 in
    let opens : tfs_open calls.mutex (k₂ c).box_name tfs_o_creat s.broker.fs
        ≡ ok (pos stored.handles.0) t =
      ap (λ (y : Client). tfs_open calls.mutex y.box_name tfs_o_creat s.broker.fs) client
      ∙ ap (λ (r : List ℕ). tfs_open calls.mutex r tfs_o_creat s.broker.fs) named
      ∙ opened in
    let size : (s₁.broker.boxes b).box_size ≡ length bytes =
      ap (λ (y : Box). y.box_size) (update_self s.broker.boxes b grown) ∙ counted in
    let offset : (k₂ c).offset ≡ length bytes = ap (λ (y : Client). y.offset) client ∙ at_end in
    let idle : unread b c s₁ ≡ 0 = omega (arith, size, offset) in
    let (s', run, system, files, boxes, kept) =
      until_now-idle calls s₁ c b stored.handles.0 fuel t free idle opens in
    (
      s',
      rw open_ok (rw here (rw is_sub (rw run refl))),
      ap (λ y. y.sent) system,
      omega (arith, ap (λ (f : ℕ → Box). (f b).box_size) boxes, kept, size, offset),
      ap (λ (y : Tfs). view y name) files
          ∙ ap (view_at s.broker.fs) stored.there
          ∙ ap some stored.holds,
    )
