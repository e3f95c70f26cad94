-- ===== src/Broker/Remove.antt =====
-- remove_box in a well formed table.
use proj_so.Prelude.{
  ℕ, ◌<◌, ◌≡◌, ◌≢◌, refl, sym, ap, ◌∙◌, true, false, List, [], none, some, arith, length, update,
  update_self, update_ne, Found, find_index-Found, find_index_of_none, ℕ_discrete, ℤ, pos, ok,
  minus_one,
}
use proj_so.Fs.State.{Tfs}
use proj_so.Fs.Mutex.{Mutex}
use proj_so.Fs.Lookup.{path}
use proj_so.Fs.Directory.Entries.{IsFileName}
use proj_so.Fs.Invariant.{IsValid, lookup, view, NotOpen}
use proj_so.Fs.Unlink.{tfs_unlink-removes, tfs_unlink-runs}
use proj_so.Broker.Boxes.{Box, Broker, max_boxes, str_eq, decrement, find_box, no_box, remove_box}
use proj_so.Fs.Operations.{tfs_unlink}
use proj_so.Fs.Errors.{missing_file_fails}
use proj_so.Broker.Table.{name_of, IsTable, str_eq_sound, str_eq_ne, str_eq_nil, find_box-elsewhere}

-- The state after remove_box.
abbrev removed : Broker → ℕ → Tfs → Broker
removed s i t = record s {
  num_boxes = decrement s.num_boxes;
  free_boxes = update s.free_boxes i true;
  boxes = update s.boxes i no_box;
  fs = t;
}

module _ (s : Broker) (table : IsTable s) (name : List ℕ) (some_byte : 0 < length name) (i : ℕ)
    (found : find_box s name ≡ some i) (t : Tfs) where
  here : Found max_boxes (λ k. str_eq (name_of s k) name) i
  here = find_index-Found max_boxes (λ k. str_eq (name_of s k) name) found

  name_found : name_of s i ≡ name
  name_found = str_eq_sound (name_of s i) name here.passes

  name_gone : name_of (removed s i t) i ≡ []
  name_gone = ap (λ (b : Box). b.box_name) (update_self s.boxes i no_box)

  name_kept : (j : ℕ) → i ≢ j → name_of (removed s i t) j ≡ name_of s j
  name_kept j ne = ap (λ (b : Box). b.box_name) (update_ne s.boxes i no_box j ne)

  find_box-removed_self : find_box (removed s i t) name ≡ none
  find_box-removed_self =
      find_index_of_none max_boxes (λ k. str_eq (name_of (removed s i t) k) name)
        (λ j h. elim (ℕ_discrete i j) [
          | yes e ↦ rw (← e) (ap (λ r. str_eq r name) name_gone ∙ str_eq_nil name some_byte)
          | no ne ↦
              ap (λ r. str_eq r name) (name_kept j ne)
              ∙ str_eq_ne (name_of s j) name (λ e.
                ne (sym (table.unique j i h here.below (rw e some_byte) (e ∙ sym name_found))))
        ])

  find_box-removed_ne :
      (u : List ℕ) → 0 < length u → name ≢ u → find_box (removed s i t) u ≡ find_box s u
  find_box-removed_ne u p ne =
      find_box-elsewhere s (removed s i t) i no_box u refl (str_eq_nil u p)
        (rw name_found (str_eq_ne name u ne))

  removed-IsTable : IsTable (removed s i t)
  removed-IsTable = record {
    unnamed = λ j h f. elim (ℕ_discrete i j) [
      | yes e ↦ ap (name_of (removed s i t)) (sym e) ∙ name_gone
      | no ne ↦ name_kept j ne ∙ table.unnamed j h (sym (update_ne s.free_boxes i true j ne) ∙ f)
    ];
    named = λ j h f. elim (ℕ_discrete i j) [
      | yes e ↦ absurd (ground arith)
      | no ne ↦ rw (name_kept j ne) (table.named j h (sym (update_ne s.free_boxes i true j ne) ∙ f))
    ];
    unique = λ j k hj hk p e. elim (ℕ_discrete i j) [
      | yes ij ↦
          let q : name_of (removed s i t) j ≡ [] =
            ap (name_of (removed s i t)) (sym ij) ∙ name_gone in
          absurd (omega (arith, ap length q))
      | no ij ↦ elim (ℕ_discrete i k) [
        | yes ik ↦
            let q : name_of (removed s i t) j ≡ [] =
              e ∙ ap (name_of (removed s i t)) (sym ik) ∙ name_gone in
            absurd (omega (arith, ap length q))
        | no ik ↦
            table.unique j k hj hk (rw (← name_kept j ij) p)
              (sym (name_kept j ij) ∙ e ∙ name_kept k ik)
      ]
    ];
  }

  remove_box-run :
      (mutex : Mutex)
      → tfs_unlink mutex name s.fs ≡ ok (pos 0) t
      → remove_box mutex name s ≡ ok (pos 0) (removed s i t)
  unfolding remove_box
  remove_box-run mutex run = rw (found, name_found) (rw run refl)

-- remove_box of a box whose file is there, open or not: what holds of the table and of the names.
pub remove_box-runs :
    (mutex : Mutex) (s : Broker) (name : List ℕ) (i : ℕ) (x : ℤ)
    → IsTable s
    → find_box s (path name) ≡ some i
    → IsValid s.fs
    → s.fs.library_mutex ≡ false
    → IsFileName name
    → lookup s.fs name ≡ some x
    → (s' : Broker) × (remove_box mutex (path name) s ≡ ok (pos 0) s')
      × IsTable s'
      × (find_box s' (path name) ≡ none)
      × (view s'.fs name ≡ none)
      × ((k : ℕ) → i ≢ k → s'.boxes k ≡ s.boxes k)
      × ((t : List ℕ) → IsFileName t → t ≢ name → view s'.fs t ≡ view s.fs t)
remove_box-runs mutex s name i x table found valid unlocked file there =
    let (t, run, gone, others) = tfs_unlink-runs mutex s.fs name x valid unlocked file there in
    let some_byte : 0 < length (path name) = omega arith in
    (
      removed s i t,
      remove_box-run s table (path name) some_byte i found t mutex run,
      removed-IsTable s table (path name) some_byte i found t,
      find_box-removed_self s table (path name) some_byte i found t,
      gone,
      λ k ne. update_ne s.boxes i no_box k ne,
      others,
    )

-- remove_box of a box whose file is there, and open nowhere, returns 0: the table and the file system
-- stay well formed, get_box and the file system do not find the name any more, the slot of the box is
-- free and cleared, every other slot keeps its box and its flag, get_box finds every other name where
-- it was, every other file keeps its bytes, and the counter of boxes is one less.
pub remove_box-removes :
    (mutex : Mutex) (s : Broker) (name : List ℕ) (i : ℕ) (x : ℤ)
    → IsTable s
    → find_box s (path name) ≡ some i
    → IsValid s.fs
    → s.fs.library_mutex ≡ false
    → IsFileName name
    → lookup s.fs name ≡ some x
    → NotOpen s.fs x
    → (s' : Broker) × (remove_box mutex (path name) s ≡ ok (pos 0) s')
      × IsTable s'
      × IsValid s'.fs
      × (find_box s' (path name) ≡ none)
      × (view s'.fs name ≡ none)
      × (s'.num_boxes ≡ decrement s.num_boxes)
      × (s'.free_boxes i ≡ true)
      × (s'.boxes i ≡ no_box)
      × ((k : ℕ) → i ≢ k → (s'.boxes k ≡ s.boxes k) × (s'.free_boxes k ≡ s.free_boxes k))
      × ((t : List ℕ) → 0 < length t → path name ≢ t → find_box s' t ≡ find_box s t)
      × ((t : List ℕ) → IsFileName t → t ≢ name → view s'.fs t ≡ view s.fs t)
remove_box-removes mutex s name i x table found valid unlocked file there quiet =
    let (t, run, valid', _, gone, others, _, _) =
      tfs_unlink-removes mutex s.fs name x valid unlocked file there quiet in
    let some_byte : 0 < length (path name) = omega arith in
    (
      removed s i t,
      remove_box-run s table (path name) some_byte i found t mutex run,
      removed-IsTable s table (path name) some_byte i found t,
      valid',
      find_box-removed_self s table (path name) some_byte i found t,
      gone,
      refl,
      update_self s.free_boxes i true,
      update_self s.boxes i no_box,
      λ k ne. (update_ne s.boxes i no_box k ne, update_ne s.free_boxes i true k ne),
      find_box-removed_ne s table (path name) some_byte i found t,
      others,
    )

-- remove_box of a box whose file is not there returns -1 and leaves a table that is not well formed:
-- the slot is marked free and still holds the name.
pub remove_box-half_done :
    (mutex : Mutex) (s : Broker) (name : List ℕ) (i : ℕ)
    → find_box s (path name) ≡ some i
    → IsValid s.fs
    → s.fs.library_mutex ≡ false
    → IsFileName name
    → lookup s.fs name ≡ none
    → (s' : Broker) × (remove_box mutex (path name) s ≡ ok minus_one s')
      × (s'.free_boxes i ≡ true)
      × (find_box s' (path name) ≡ some i)
      × (¬ IsTable s')
unfolding remove_box
remove_box-half_done mutex s name i found valid unlocked file absent =
    let s' : Broker = record s { free_boxes = update s.free_boxes i true } in
    let at = find_index-Found max_boxes (λ k. str_eq (name_of s k) (path name)) found in
    let same : name_of s i ≡ path name = str_eq_sound (name_of s i) (path name) at.passes in
    let run : tfs_unlink mutex (path name) s.fs ≡ ok minus_one s.fs =
      (missing_file_fails mutex s.fs unlocked name 0 valid file absent refl).0 in
    (
      s',
      rw (found, same) (rw run refl),
      update_self s.free_boxes i true,
      found,
      λ table.
          let e : name_of s i ≡ [] = table.unnamed i at.below (update_self s.free_boxes i true) in
          absurd (omega (arith, ap length (sym same ∙ e))),
    )
