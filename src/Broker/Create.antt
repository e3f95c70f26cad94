-- ===== src/Broker/Create.antt =====
-- create_box in a well formed table.
use proj_so.Prelude.{
  ℕ, ◌≤◌, ◌<◌, ◌≡◌, ◌≢◌, refl, sym, ap, ◌∙◌, true, false, List, [], none, some, arith, length, take,
  take_whole, update, update_self, update_ne, Found, find_index_of_Found, find_index-none,
  ℕ_discrete, pos, ok,
}
use proj_so.Wire.Request.{box_name_length}
use proj_so.Broker.Boxes.{
  Box, Broker, max_boxes, str_eq, increment, find_box, get_free_box, new_box, create_box,
}
use proj_so.Broker.Table.{name_of, IsTable, str_eq_refl, str_eq_ne, str_eq_nil, find_box-elsewhere}

-- The state after create_box.
abbrev added : Broker → List ℕ → ℕ → Broker
added s name i = record s {
  num_boxes = increment s.num_boxes;
  free_boxes = update s.free_boxes i false;
  boxes = update s.boxes i (new_box name);
}

module _ (s : Broker) (table : IsTable s) (name : List ℕ) (some_byte : 0 < length name)
    (fits : length name ≤ box_name_length) (absent : find_box s name ≡ none) (i : ℕ)
    (room : Found max_boxes s.free_boxes i) where
  whole : take box_name_length name ≡ name
  whole = take_whole box_name_length name fits

  slot_unnamed : name_of s i ≡ []
  slot_unnamed = table.unnamed i room.below room.passes

  name_here : name_of (added s name i) i ≡ name
  name_here = ap (λ (b : Box). b.box_name) (update_self s.boxes i (new_box name)) ∙ whole

  name_elsewhere : (j : ℕ) → i ≢ j → name_of (added s name i) j ≡ name_of s j
  name_elsewhere j ne = ap (λ (b : Box). b.box_name) (update_ne s.boxes i (new_box name) j ne)

  no_other : (j : ℕ) → j < max_boxes → name_of s j ≢ name
  no_other j h e =
      let p = find_index-none max_boxes (λ k. str_eq (name_of s k) name) absent j h in
      let q : str_eq (name_of s j) name ≡ true = rw e (str_eq_refl name) in cc

  find_box-added_self : find_box (added s name i) name ≡ some i
  find_box-added_self =
      find_index_of_Found max_boxes (λ j. str_eq (name_of (added s name i) j) name)
        (record {
          below = room.below;
          passes = ap (λ r. str_eq r name) name_here ∙ str_eq_refl name;
          first = λ j q.
              ap (λ r. str_eq r name) (name_elsewhere j (omega arith))
              ∙ find_index-none max_boxes (λ k. str_eq (name_of s k) name) absent j
                  (omega (arith, room.below));
        })

  find_box-added_ne :
      (t : List ℕ) → 0 < length t → name ≢ t → find_box (added s name i) t ≡ find_box s t
  find_box-added_ne t p ne =
      find_box-elsewhere s (added s name i) i (new_box name) t refl (rw whole (str_eq_ne name t ne))
        (rw slot_unnamed (str_eq_nil t p))

  added-IsTable : IsTable (added s name i)
  added-IsTable = record {
    unnamed = λ j h f. elim (ℕ_discrete i j) [
      | yes e ↦ absurd (ground arith)
      | no ne ↦
          name_elsewhere j ne ∙ table.unnamed j h (sym (update_ne s.free_boxes i false j ne) ∙ f)
    ];
    named = λ j h f. elim (ℕ_discrete i j) [
      | yes e ↦ rw (← e) (rw name_here some_byte)
      | no ne ↦
          rw (name_elsewhere j ne) (table.named j h (sym (update_ne s.free_boxes i false j ne) ∙ f))
    ];
    unique = λ j k hj hk p e. elim (ℕ_discrete i j) [
      | yes ij ↦ elim (ℕ_discrete i k) [
        | yes ik ↦ sym ij ∙ ik
        | no ik ↦ absurd (
            no_other k hk (
              sym (name_elsewhere k ik)
              ∙ sym e
              ∙ ap (name_of (added s name i)) (sym ij)
              ∙ name_here))
      ]
      | no ij ↦ elim (ℕ_discrete i k) [
        | yes ik ↦ absurd (
            no_other j hj
              (sym (name_elsewhere j ij) ∙ e ∙ ap (name_of (added s name i)) (sym ik) ∙ name_here))
        | no ik ↦
            table.unique j k hj hk (rw (← name_elsewhere j ij) p)
              (sym (name_elsewhere j ij) ∙ e ∙ name_elsewhere k ik)
      ]
    ];
  }

-- create_box of a new name that fits, with memory and a free slot, returns 0: get_box finds the name
-- in the first free slot, with an empty box there, every other name is found where it was, the table
-- stays well formed, the counter of boxes is one more, and the file system stays as it is.
pub create_box-adds :
    (s : Broker) (name : List ℕ) (i : ℕ)
    → IsTable s
    → 0 < length name
    → length name ≤ box_name_length
    → find_box s name ≡ none
    → Found max_boxes s.free_boxes i
    → (s' : Broker) × (create_box true name s ≡ ok (pos 0) s')
      × IsTable s'
      × (find_box s' name ≡ some i)
      × (s'.boxes i ≡ new_box name)
      × (s'.num_boxes ≡ increment s.num_boxes)
      × ((t : List ℕ) → 0 < length t → name ≢ t → find_box s' t ≡ find_box s t)
      × (s'.fs ≡ s.fs)
unfolding create_box get_free_box
create_box-adds s name i table some_byte fits absent room = (
  added s name i,
  rw (find_index_of_Found max_boxes s.free_boxes room, get_free_box) refl,
  added-IsTable s table name some_byte fits absent i room,
  find_box-added_self s table name some_byte fits absent i room,
  update_self s.boxes i (new_box name),
  refl,
  find_box-added_ne s table name some_byte fits absent i room,
  refl,
)
