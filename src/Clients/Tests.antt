-- ===== src/Clients/Tests.antt =====
-- Applications of the theorems on the clients.
use proj_so.Prelude.{
  true, ℕ, ◌≡◌, refl, sym, ap, subst, List, [], ◌∷◌, some, arith, length, pos, ok,
}
use proj_so.Fs.Memory.Laws.{IsName, length-strncpy_bytes}
use proj_so.Wire.System.{
  System, ReadAnswer, WriteAnswer, got, wrote, next_read, next_write, Delivers, Accepts,
}
use proj_so.Wire.Request.{op_publisher, op_remove_box, op_remove_box_answer, request_length}
use proj_so.Wire.Serve.{All}
use proj_so.Wire.Tests.{answers, answers-Delivers}
use proj_so.Broker.Tests.{one_box}
use proj_so.Server.State.{Server}
use proj_so.Server.Sending.{to_pipe}
use proj_so.Server.ListAnswer.{in_use, list_boxes_answers}
use proj_so.Server.ListAnswer
use proj_so.Server.Answers.{answer_frames}
use proj_so.Server.Requests.{refused}
use proj_so.Broker.Boxes.{str_eq}
use proj_so.Server.Listing.{handle_tfs_list_boxes}
use proj_so.Server.CatchUp.{subscriber_frames}
use proj_so.Server.Tests.{working, hi, message}
use proj_so.Server.Tests.Boxes.{listing, one_in_use, one_box-Named, one_taken}
use proj_so.Clients.Manager.{Library, print_sorted, list_boxes}
use proj_so.Clients.Rows.{IsListable, pieces_all}
use proj_so.Clients.Listing.{sent_since, sent_since-append, manager_lists_boxes}
use proj_so.Clients.Command.{Setup, said_error, remove_word, box_command, main}
use proj_so.Clients.Asking.{box_request, manager_tells_answer}
use proj_so.Clients.Subscriber.{receive}
use proj_so.Clients.Printing.{subscriber_prints_texts}
use proj_so.Clients.Publisher.{publish_lines}
use proj_so.Clients.Sending.{lines_of, messages_of, publisher_sends_lines}

-- With at most one box there is nothing to sort.
abbrev library : Library
library = record { qsort = λ _ boxes. boxes; strcasecmp = λ _ _. pos 0 }

abbrev with_reads : List ReadAnswer → System
with_reads reads = record { opens = []; closes = []; reads = reads; writes = []; sent = [] }

-- The broker's answer to a list request, and its pieces.
listed :
    (s' : Server) × (handle_tfs_list_boxes working 0 listing ≡ ok (pos 0) s')
    × (s'.broker ≡ one_box)
    × (s'.system.sent ≡ to_pipe (pos 9) (ListAnswer.answer_frames (in_use one_box)))
listed =
    list_boxes_answers working listing 0 9 0 [] [] [] refl
      (ap (λ n. pos (length n)) (sym one_in_use)) (omega (arith, ap length one_in_use))
      one_box-Named refl refl one_taken

abbrev pieces : List (List ℕ)
pieces = pieces_all (ListAnswer.answer_frames (in_use one_box))

sent_pieces : pieces ≡ pieces_all (sent_since listing listed.0)
sent_pieces = ap pieces_all (
    sym (
      sent_since-append listing listed.0 (pos 9) (ListAnswer.answer_frames (in_use one_box))
        listed.3))

path_a-IsListable : IsListable (one_box.boxes 0)
path_a-IsListable = record {
  name = (omega arith, (omega arith, tt));
  some_byte = omega arith;
  fits = omega arith;
  size = omega arith;
  publishers = omega arith;
  subscribers = omega arith;
}

manager_lists_boxes_example :
    list_boxes library 65 (with_reads (answers pieces []))
    ≡ ok (print_sorted library (in_use one_box)) (with_reads [])
manager_lists_boxes_example =
    manager_lists_boxes library working listing listed.0 0 9 0 65 [] [] []
      (with_reads (answers pieces [])) [] refl (ap (λ n. pos (length n)) (sym one_in_use))
      (omega (arith, ap length one_in_use)) one_box-Named
      (subst (All IsListable) (sym one_in_use) (path_a-IsListable, tt)) refl refl one_taken listed.1
      (subst (λ (f : List (List ℕ)). Delivers (answers pieces []) f []) sent_pieces
        (answers-Delivers pieces []))
      (omega arith)

abbrev texts : List (List ℕ)
texts = hi ∷ [] ∷ []

hi-IsName : IsName hi
hi-IsName = (omega arith, (omega arith, tt))

end_of_pipe : next_read (ReadAnswer.interrupted ∷ got [] ∷ []) ≡ some (got [], [])
unfolding next_read
end_of_pipe = refl

subscriber_prints_texts_example :
    receive 3 message
      (with_reads (answers (subscriber_frames texts) (ReadAnswer.interrupted ∷ got [] ∷ [])))
    ≡ ok (pos 0, texts) (with_reads [])
subscriber_prints_texts_example =
    subscriber_prints_texts texts 3 message
      (with_reads (answers (subscriber_frames texts) (ReadAnswer.interrupted ∷ got [] ∷ [])))
      (ReadAnswer.interrupted ∷ got [] ∷ []) [] ((hi-IsName, omega arith), ((tt, omega arith), tt))
      (length-strncpy_bytes hi 1023) (omega arith)
      (answers-Delivers (subscriber_frames texts) (ReadAnswer.interrupted ∷ got [] ∷ []))
      end_of_pipe

abbrev taking_two : System
taking_two = record {
  opens = [];
  closes = pos 0 ∷ [];
  reads = [];
  writes = WriteAnswer.interrupted ∷ wrote 1024 ∷ wrote 1024 ∷ [];
  sent = [];
}

two_taken : Accepts taking_two.writes (1024 ∷ 1024 ∷ []) []
unfolding next_write
two_taken = (wrote 1024 ∷ [], refl, ([], refl, refl))

publisher_sends_lines_example :
    publish_lines (pos 4) op_publisher (lines_of texts) taking_two
    ≡ ok
        (pos 0)
        (record taking_two { closes = []; writes = []; sent = to_pipe (pos 4) (messages_of texts) })
publisher_sends_lines_example =
    publisher_sends_lines (pos 4) texts 0 taking_two [] []
      ((hi-IsName, omega arith), ((tt, omega arith), tt)) two_taken refl

abbrev setup : Setup
setup = record { unlinked = true; made = true; memory = true }

remove_asks : box_command remove_word ≡ some op_remove_box
unfolding box_command str_eq
remove_asks = refl

-- The pieces of an answer that refuses.
abbrev refusal : List (List ℕ)
refusal = answer_frames op_remove_box_answer (refused hi)

abbrev asking : System
asking = record {
  opens = pos 4 ∷ pos 5 ∷ [];
  closes = [];
  reads = answers refusal [];
  writes = WriteAnswer.interrupted ∷ wrote request_length ∷ [];
  sent = [];
}

request_taken : next_write asking.writes ≡ some (wrote request_length, [])
unfolding next_write
request_taken = refl

manager_tells_answer_example :
    main setup library 0 ((b'r' ∷ []) ∷ (b'p' ∷ []) ∷ remove_word ∷ hi ∷ []) asking
    ≡ ok (said_error hi) (record asking {
      opens = [];
      reads = [];
      writes = [];
      sent = (pos 4, box_request op_remove_box (b'p' ∷ []) hi) ∷ [];
    })
manager_tells_answer_example =
    manager_tells_answer setup library 0 4 5 op_remove_box op_remove_box_answer (b'r' ∷ [])
      (b'p' ∷ []) remove_word hi (refused hi) asking [] [] [] refl refl refl remove_asks
      (omega arith) (omega arith) refl request_taken (omega arith) hi-IsName (omega arith)
      (answers-Delivers refusal [])
