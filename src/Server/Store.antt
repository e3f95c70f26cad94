-- ===== src/Server/Store.antt =====
-- One message of a publisher: the file and the counter of the box.
use proj_so.Prelude.{
  ℕ, suc, ◌+◌, ◌≤◌, ◌≡◌, refl, ap, subst, ◌∙◌, true, false, inl, inr, Bool-cases, List, [], ◌∷◌,
  ◌++◌, some, arith, ◌==◌, length, length-append, take, update, update_self, ℤ, pos, is_zero,
  add_size, M,
}
use proj_so.Fs.State.{Tfs, TfsParams}
use proj_so.Fs.Lookup.{path}
use proj_so.Fs.Operations.{tfs_o_append, tfs_open}
use proj_so.Fs.Append.{IsStored, append_to_file}
use proj_so.Wire.Text.{text_of}
use proj_so.Broker.Boxes.{Box}
use proj_so.Server.State.{Calls, Server, with_box, lock_box, unlock_box, is_less}
use proj_so.Server.Publisher.{store_message}

-- What a box keeps of a message: its text and a terminator.
abbrev pub stored_text : List ℕ → List ℕ
stored_text message = text_of message ++ (0 ∷ [])

pub length-text_of : (m : List ℕ) → length (text_of m) ≤ length m
unfolding text_of
length-text_of [] = omega arith
length-text_of (c ∷ m) = ground (arith, length-text_of m)

take-text_of : (m : List ℕ) → take (suc (length (text_of m))) (m ++ (0 ∷ [])) ≡ stored_text m
unfolding text_of
take-text_of [] = refl
take-text_of (c ∷ m) = elim (Bool-cases (c == 0)) [
  | inl e ↦ let z : c ≡ 0 = ground arith in rw z refl
  | inr e ↦ rw e (ap (λ r. c ∷ r) (take-text_of m))
]

-- A session `c` on the box `b`, whose file `name` holds these bytes, with handles for `n`
-- messages.
pub record IsOnBox (s : Server) (c b : ℕ) (name : List ℕ) (x : ℤ) (bytes : List ℕ) (n limit : ℕ)
    : Type 0 where
  pub box : (s.clients c).box ≡ some b
  pub free : s.box_locks b ≡ false
  pub named : (s.broker.boxes b).box_name ≡ path name
  pub stored : IsStored s.broker.fs name x bytes n
  pub counted : (s.broker.boxes b).box_size ≡ length bytes
  pub limit_ok : s.broker.fs.fs_params.block_size ≡ limit

-- What a message changes of the box and of the session.
pub record HasStored (s s' : Server) (b size : ℕ) : Type 0 where
  pub clients : s'.clients ≡ s.clients
  pub system : s'.system ≡ s.system
  pub box :
      s'.broker.boxes b
      ≡ record (s.broker.boxes b) { box_size = add_size (s.broker.boxes b).box_size size }

abbrev pub grown_box : ℕ → Box → Box
grown_box size k = record k { box_size = add_size k.box_size size }

module _ (calls : Calls) (works : is_zero calls.broadcast ≡ true) (s : Server) (c b : ℕ)
    (name : List ℕ) (x : ℤ) (bytes : List ℕ) (n limit : ℕ)
    (w : IsOnBox s c b name x bytes (suc n) limit) (message : List ℕ) where
  abbrev size : ℕ
  size = length (text_of message) + 1

  abbrev after : Tfs → Server
  after t = record s {
    broker = record (with_box b (grown_box size) s.broker) { fs = t };
    box_locks = update (update s.box_locks b true) b false;
  }

  pub store_message-stores :
      length bytes + size ≤ limit
      → (s' : Server) × ((rest : M Server ℤ) → store_message calls c b message rest s ≡ rest s')
        × IsOnBox s' c b name x (bytes ++ stored_text message) n limit
        × HasStored s s' b size
  unfolding store_message lock_box unlock_box
  store_message-stores fits =
      let given : size ≤ length (message ++ (0 ∷ [])) =
        omega (arith, length-append message (0 ∷ []), length-text_of message) in
      let (t, open_ok, write_ok, stored, params) =
        append_to_file calls.mutex s.broker.fs name x bytes n w.stored (message ++ (0 ∷ [])) size
          given (omega arith) (omega (arith, w.limit_ok)) in
      let open_here =
        ap (λ (r : List ℕ). tfs_open calls.mutex r tfs_o_append s.broker.fs) w.named ∙ open_ok in
      let exact : add_size (s.broker.boxes b).box_size size
          ≡ length (bytes ++ stored_text message) =
        omega (
          arith,
          w.counted,
          w.limit_ok,
          w.stored.valid.root.block_fits,
          length-append bytes (stored_text message),
          length-append (text_of message) (0 ∷ []),
        ) in
      let whole : is_less (pos size) size ≡ false = ground arith in
      let text : take size (message ++ (0 ∷ [])) ≡ stored_text message =
        let e : size ≡ suc (length (text_of message)) = omega arith in
        ap (λ (k : ℕ). take k (message ++ (0 ∷ []))) e ∙ take-text_of message in
      (
        after t,
        λ rest. rw (w.free) (rw open_here (rw write_ok (rw (whole, works) refl))),
        record {
          box = w.box;
          free = update_self (update s.box_locks b true) b false;
          named =
              ap (λ (k : Box). k.box_name)
                (update_self s.broker.boxes b (grown_box size (s.broker.boxes b)))
              ∙ w.named;
          stored = subst (λ (r : List ℕ). IsStored t name x (bytes ++ r) n) text stored;
          counted =
              ap (λ (k : Box). k.box_size)
                (update_self s.broker.boxes b (grown_box size (s.broker.boxes b)))
              ∙ exact;
          limit_ok = ap (λ (p : TfsParams). p.block_size) params ∙ w.limit_ok;
        },
        record {
          clients = refl;
          system = refl;
          box = update_self s.broker.boxes b (grown_box size (s.broker.boxes b));
        },
      )
