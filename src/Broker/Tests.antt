-- ===== src/Broker/Tests.antt =====
-- Applications of the theorems on the table of boxes.
use proj_so.Prelude.{
  ℕ, zero, suc, sym, subst, ◌∙◌, ◌<◌, ◌≡◌, ◌≢◌, refl, true, false, List, [], none, some, length,
  pos, minus_one, ok, arith, Found, update, find_index_of_none, find_index_of_Found,
}
use proj_so.Fs.Directory.Entries.{IsFileName}
use proj_so.Fs.Invariant.{IsValid, view}
use proj_so.Fs.Lookup.{path}
use proj_so.Fs.Tests.{
  started, started-IsValid, started-lookup, working_mutex, name_a, closed_a, name_a-IsFileName,
  with_text-lookup, closed_a-IsValid, closed_a-NotOpen,
}
use proj_so.Broker.Boxes.{
  Broker, max_boxes, str_eq, increment, decrement, find_box, new_box, no_box, create_box,
  remove_box,
}
use proj_so.Broker.Table.{name_of, IsTable}
use proj_so.Broker.Create.{create_box-adds}
use proj_so.Broker.Remove.{remove_box-removes, remove_box-half_done}

-- No box over a file system with one file, and then a box for that file.
abbrev pub empty_table : Broker
empty_table = record {
  num_boxes = pos 0;
  boxes = λ _. no_box;
  free_boxes = λ _. true;
  fs = closed_a;
}

abbrev pub one_box : Broker
one_box = record {
  num_boxes = pos 1;
  boxes = update (λ _. no_box) 0 (new_box (path name_a));
  free_boxes = update (λ _. true) 0 false;
  fs = closed_a;
}

pub empty_table-IsTable : IsTable empty_table
empty_table-IsTable = record {
  unnamed = λ i h f. refl;
  named = λ i h f. cc;
  unique = λ i j hi hj p e. absurd (omega arith);
}

pub nothing_found : find_box empty_table (path name_a) ≡ none
unfolding str_eq
nothing_found = find_index_of_none max_boxes (λ _. str_eq [] (path name_a)) (λ j h. refl)

pub first_slot : Found max_boxes empty_table.free_boxes 0
first_slot = record { below = omega arith; passes = refl; first = λ j q. absurd (omega arith) }

only_first : (i : ℕ) → 0 < length (name_of one_box i) → i ≡ 0
only_first zero p = refl
only_first (suc i) p = ground arith

pub one_box-IsTable : IsTable one_box
one_box-IsTable = record {
  unnamed = λ i h f. ground arith;
  named = λ i h f. ground arith;
  unique = λ i j hi hj p e. only_first i p ∙ sym (only_first j (subst (λ n. 0 < length n) e p));
}

pub box_found : find_box one_box (path name_a) ≡ some 0
unfolding str_eq
box_found =
    find_index_of_Found max_boxes (λ i. str_eq (one_box.boxes i).box_name (path name_a))
      (record { below = omega arith; passes = refl; first = λ j q. absurd (omega arith) })

create_box-adds_example :
    (s' : Broker) × (create_box true (path name_a) empty_table ≡ ok (pos 0) s')
    × IsTable s'
    × (find_box s' (path name_a) ≡ some 0)
    × (s'.boxes 0 ≡ new_box (path name_a))
    × (s'.num_boxes ≡ increment empty_table.num_boxes)
    × ((t : List ℕ) → 0 < length t → path name_a ≢ t → find_box s' t ≡ find_box empty_table t)
    × (s'.fs ≡ empty_table.fs)
create_box-adds_example =
    create_box-adds empty_table (path name_a) 0 empty_table-IsTable (omega arith) (omega arith)
      nothing_found first_slot

remove_box-removes_example :
    (s' : Broker) × (remove_box working_mutex (path name_a) one_box ≡ ok (pos 0) s')
    × IsTable s'
    × IsValid s'.fs
    × (find_box s' (path name_a) ≡ none)
    × (view s'.fs name_a ≡ none)
    × (s'.num_boxes ≡ decrement one_box.num_boxes)
    × (s'.free_boxes 0 ≡ true)
    × (s'.boxes 0 ≡ no_box)
    × ((k : ℕ) → 0 ≢ k → (s'.boxes k ≡ one_box.boxes k) × (s'.free_boxes k ≡ one_box.free_boxes k))
    × ((t : List ℕ) → 0 < length t → path name_a ≢ t → find_box s' t ≡ find_box one_box t)
    × ((t : List ℕ) → IsFileName t → t ≢ name_a → view s'.fs t ≡ view one_box.fs t)
remove_box-removes_example =
    remove_box-removes working_mutex one_box name_a 0 (pos 1) one_box-IsTable box_found
      closed_a-IsValid refl name_a-IsFileName with_text-lookup closed_a-NotOpen

-- A box for which no file was made.
abbrev no_file : Broker
no_file = record one_box { fs = started }

remove_box-half_done_example :
    (s' : Broker) × (remove_box working_mutex (path name_a) no_file ≡ ok minus_one s')
    × (s'.free_boxes 0 ≡ true)
    × (find_box s' (path name_a) ≡ some 0)
    × (¬ IsTable s')
remove_box-half_done_example =
    remove_box-half_done working_mutex no_file name_a 0 box_found started-IsValid refl
      name_a-IsFileName started-lookup
