-- ===== src/Server/Tests/Boxes.antt =====
-- Applications of the theorems on the requests that create, remove and list boxes.
use proj_so.Prelude.{
  ℕ, zero, suc, ◌≡◌, ◌≢◌, refl, sym, ap, false, List, [], ◌∷◌, ◌++◌, none, some, arith, length,
  replicate, pos, minus_one, ok,
}
use proj_so.Fs.Lookup.{path}
use proj_so.Fs.Directory.Entries.{IsFileName}
use proj_so.Fs.Invariant.{IsValid, view}
use proj_so.Fs.Tests.{
  name_a, name_a-IsFileName, started, started-IsValid, started-lookup, started-HasRoom, with_text,
  with_text-IsValid, with_text-lookup,
}
use proj_so.Wire.System.{WriteAnswer, wrote, next_write, Accepts}
use proj_so.Wire.Request.{
  op_create_box, op_create_box_answer, op_remove_box, op_remove_box_answer, op_list_boxes,
}
use proj_so.Broker.Boxes.{Broker, str_eq, find_box}
use proj_so.Broker.Table.{IsTable}
use proj_so.Broker.Tests.{
  empty_table, empty_table-IsTable, nothing_found, first_slot, one_box, one_box-IsTable, box_found,
}
use proj_so.Server.State.{Client, Server}
use proj_so.Server.Sending.{to_pipe}
use proj_so.Server.Answers.{answer_frames, answer_lengths}
use proj_so.Server.Requests.{answer_ok, handle_tfs_create_box, handle_tfs_remove_box}
use proj_so.Server.Listing.{handle_tfs_list_boxes}
use proj_so.Server.ListAnswer.{
  answer_frames as list_frames, in_use, boxes_in_use, Named, answer_length, list_boxes_answers,
}
use proj_so.Server.Creation.{IsTable-fs, create_box_answers}
use proj_so.Server.Removal.{NotUsed, remove_box_answers}
use proj_so.Server.Tests.{working, resting}

-- Writes that take these numbers of bytes, each after an interruption.
abbrev taking : List ℕ → List WriteAnswer
taking [] = []
taking (n ∷ counts) = WriteAnswer.interrupted ∷ wrote n ∷ taking counts

-- Session 0 asks, over pipe 9, and its writes are taken whole.
abbrev pub asking : Broker → Client → List ℕ → Server
asking table client counts = record {
  broker = table;
  clients = λ i. elim i [ zero ↦ client | suc k ↦ resting ];
  max_sessions = 2;
  boxes_lock = false;
  box_locks = λ _. false;
  system = record {
    opens = pos 9 ∷ [];
    closes = pos 0 ∷ [];
    reads = [];
    writes = taking counts;
    sent = [];
  };
}

three_taken : Accepts (taking answer_lengths) answer_lengths []
unfolding next_write
three_taken = (taking (4 ∷ 1023 ∷ []), refl, (taking (1023 ∷ []), refl, ([], refl, refl)))

abbrev creating : Server
creating =
    asking (record empty_table { fs = started })
      (record resting { opcode = op_create_box; box_name = path name_a }) answer_lengths

create_box_answers_example :
    (s' : Server) × (handle_tfs_create_box working 0 creating ≡ ok (pos 0) s')
    × (find_box s'.broker (path name_a) ≡ some 0)
    × (view s'.broker.fs name_a ≡ some [])
    × IsTable s'.broker
    × IsValid s'.broker.fs
    × (s'.boxes_lock ≡ false)
    × (s'.system.sent
        ≡ creating.system.sent ++ to_pipe (pos 9) (answer_frames op_create_box_answer answer_ok))
create_box_answers_example =
    create_box_answers working creating 0 name_a 0 1 0 0 9 0 [] [] [] refl refl refl refl
      (IsTable-fs empty_table started empty_table-IsTable) name_a-IsFileName (omega arith) refl
      nothing_found first_slot started-IsValid refl started-lookup started-HasRoom refl refl
      three_taken

-- The box's file is open, as handle_tfs_create_box leaves it.
abbrev open_box : Broker
open_box = record one_box { fs = with_text }

abbrev removing : Server
removing =
    asking open_box
      (record resting { opcode = op_remove_box; box_name = path name_a; box_fd = minus_one })
      answer_lengths

alone : NotUsed removing 0 (path name_a)
unfolding str_eq
alone zero ne = absurd (ne refl)
alone (suc i) ne = refl

remove_box_answers_example :
    (s' : Server) × (handle_tfs_remove_box working 0 removing ≡ ok minus_one s')
    × (find_box s'.broker (path name_a) ≡ none)
    × (view s'.broker.fs name_a ≡ none)
    × ((j : ℕ) → 0 ≢ j → s'.broker.boxes j ≡ one_box.boxes j)
    × ((t : List ℕ) → IsFileName t → t ≢ name_a → view s'.broker.fs t ≡ view with_text t)
    × IsTable s'.broker
    × (s'.boxes_lock ≡ false)
    × (s'.system.sent
        ≡ removing.system.sent ++ to_pipe (pos 9) (answer_frames op_remove_box_answer answer_ok))
remove_box_answers_example =
    remove_box_answers working removing 0 name_a 0 (pos 1) 9 0 [] [] [] refl refl refl alone
      (IsTable-fs one_box with_text one_box-IsTable) box_found with_text-IsValid refl
      name_a-IsFileName with_text-lookup refl refl three_taken

abbrev pub listing : Server
listing = asking one_box (record resting { opcode = op_list_boxes }) (answer_length ∷ [])

pub one_in_use : in_use one_box ≡ one_box.boxes 0 ∷ []
unfolding boxes_in_use
one_in_use = refl

pub one_box-Named : Named one_box
one_box-Named = one_box-IsTable.named

pub one_taken :
    Accepts (taking (answer_length ∷ [])) (replicate (length (in_use one_box)) answer_length) []
unfolding boxes_in_use next_write
one_taken = ([], refl, refl)

list_boxes_answers_example :
    (s' : Server) × (handle_tfs_list_boxes working 0 listing ≡ ok (pos 0) s')
    × (s'.broker ≡ one_box)
    × (s'.system.sent ≡ listing.system.sent ++ to_pipe (pos 9) (list_frames (in_use one_box)))
list_boxes_answers_example =
    list_boxes_answers working listing 0 9 0 [] [] [] refl
      (ap (λ n. pos (length n)) (sym one_in_use)) (omega (arith, ap length one_in_use))
      one_box-Named refl refl one_taken
