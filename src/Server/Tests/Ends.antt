-- ===== src/Server/Tests/Ends.antt =====
-- Applications of the theorems on sessions and on a broker that fails.
use proj_so.Prelude.{
  zero, suc, false, update, length, ◌<◌, sym, inl, minus_one, blocks, find_index_of_none, ℕ, ◌≡◌,
  ◌≢◌, refl, true, List, [], ◌∷◌, none, some, arith, pos, ok, find_index_of_Found,
}
use proj_so.Fs.Lookup.{path}
use proj_so.Fs.Memory.{read_bytes}
use proj_so.Fs.State.{is_free}
use proj_so.Fs.Append.{IsStored}
use proj_so.Fs.Invariant.{contents, view}
use proj_so.Server.Returning.{returning_subscriber_gets_nothing}
use proj_so.Server.Subscriber.{unread, handle_messages_to_subscriber}
use proj_so.Fs.Tests.{
  name_a, name_a-IsFileName, opened_twice, opened_twice-IsValid, with_text, with_text-IsValid,
  with_text-room, with_text-lookup,
}
use proj_so.Wire.System.{ReadAnswer, WriteAnswer, got, wrote, broken, next_read, next_write}
use proj_so.Wire.Request.{server_closed, op_list_boxes, op_regist_pub, op_regist_sub}
use proj_so.Broker.Boxes.{Broker, new_box, no_box, str_eq, find_box}
use proj_so.Server.State.{Server, lock_box}
use proj_so.Server.Loop.{client_session}
use proj_so.Server.Requests.{handle_tfs_register}
use proj_so.Server.Failures.{empty_answer_length, empty_list_closes_server}
use proj_so.Server.Publisher.{handle_messages_from_publisher}
use proj_so.Server.Store.{IsOnBox}
use proj_so.Server.Exhausted.{handles_run_out}
use proj_so.Server.Register.{registered, second_publisher_unregisters_first}
use proj_so.Server.Tests.{working, resting, one_box, serving}

abbrev pipe_name : List ℕ
pipe_name = b'p' ∷ []

-- No boxes, and a manager that reads one answer.
abbrev no_boxes : Server
no_boxes = record serving {
  broker = record one_box { num_boxes = pos 0; boxes = λ _. no_box; free_boxes = λ _. true };
  clients = λ _. resting;
  system = record serving.system {
    opens = pos 9 ∷ [];
    writes = wrote empty_answer_length ∷ WriteAnswer.interrupted ∷ broken ∷ [];
  };
}

first_write :
    next_write no_boxes.system.writes
    ≡ some (wrote empty_answer_length, WriteAnswer.interrupted ∷ broken ∷ [])
unfolding next_write
first_write = refl

second_write : next_write (WriteAnswer.interrupted ∷ broken ∷ []) ≡ some (broken, [])
unfolding next_write
second_write = refl

empty_list_closes_server_example :
    (s' : Server) × (client_session working 0 [] 0
        (record { opcode = op_list_boxes; client_pipename = pipe_name; box_name = none } ∷ [])
        no_boxes
      ≡ ok server_closed s')
empty_list_closes_server_example =
    empty_list_closes_server working no_boxes 0 9 0 [] pipe_name [] []
      (WriteAnswer.interrupted ∷ broken ∷ []) [] refl refl first_write second_write

-- One more message, of two bytes.
abbrev one_more : Server
one_more = record serving {
  system = record serving.system {
    reads = got (9 ∷ []) ∷ ReadAnswer.interrupted ∷ got (b'h' ∷ 0 ∷ []) ∷ [];
  };
}

first_read :
    next_read one_more.system.reads
    ≡ some (got (9 ∷ []), ReadAnswer.interrupted ∷ got (b'h' ∷ 0 ∷ []) ∷ [])
unfolding next_read
first_read = refl

second_read :
    next_read (ReadAnswer.interrupted ∷ got (b'h' ∷ 0 ∷ []) ∷ []) ≡ some (got (b'h' ∷ 0 ∷ []), [])
unfolding next_read
second_read = refl

-- A second publisher for the box of the first.
abbrev second : Server
second = record serving {
  clients = λ _. record resting { opcode = op_regist_pub; box_name = path name_a };
  system = record serving.system { opens = pos 8 ∷ pos 7 ∷ [] };
}

-- The first slot has the name.
in_first_slot :
    (s : Broker)
    → str_eq (s.boxes 0).box_name (path name_a) ≡ true
    → find_box s (path name_a) ≡ some 0
in_first_slot s h =
    find_index_of_Found 64 (λ i. str_eq (s.boxes i).box_name (path name_a))
      (record { below = omega arith; passes = h; first = λ j q. absurd (omega arith) })

there : find_box one_box (path name_a) ≡ some 0
unfolding str_eq
there = in_first_slot one_box refl

second_publisher_unregisters_first_example :
    (s' : Server) × (handle_tfs_register working 1 [] 1 second ≡ ok (pos 0) s')
    × ((s'.broker.boxes 0).n_publishers ≡ 0)
    × ((a : ℕ) → 1 ≢ a → s'.clients a ≡ second.clients a)
    × ((t : Server) × (handle_tfs_register working 1 [] 2 s'
          ≡ handle_messages_from_publisher working 2 1 [] t)
        × ((t.broker.boxes 0).n_publishers ≡ 1)
        × (t.clients 2 ≡ registered (second.clients 2) 7 0))
second_publisher_unregisters_first_example =
    second_publisher_unregisters_first working second 1 2 0 8 7 0 1 1 [] [] [] [] (λ e. omega arith)
      refl there refl there refl refl refl refl

-- A box whose file is open twice, in a file system with two handles.
abbrev crowded : Server
crowded = record one_more {
  broker = record one_box {
    boxes =
        update (λ _. no_box) 0 (record (new_box (path name_a)) { box_size = 3; n_publishers = 1 });
    fs = opened_twice;
  };
}

three_bytes : length (contents opened_twice 1) ≡ 3
unfolding read_bytes
three_bytes = refl

crowded-IsOnBox : IsOnBox crowded 0 0 name_a (pos 1) (contents opened_twice 1) 0 100
crowded-IsOnBox = record {
  box = refl;
  free = refl;
  named = refl;
  stored = record {
    valid = opened_twice-IsValid;
    unlocked = refl;
    name_ok = name_a-IsFileName;
    there = with_text-lookup;
    holds = refl;
    block = inl (omega arith);
    handles = tt;
  };
  counted = sym three_bytes;
  limit_ok = refl;
}

both_open : (i : ℕ) → i < 2 → is_free (opened_twice.free_open_file_entries i) ≡ false
both_open zero h = refl
both_open (suc zero) h = refl
both_open (suc (suc i)) h = absurd (omega arith)

handles_run_out_example :
    (s' : Server) × (handle_messages_from_publisher working 0 1 [] crowded ≡ ok minus_one s')
    × (lock_box 0 s' ≡ blocks)
handles_run_out_example =
    handles_run_out working crowded 0 0 0 0 9 name_a (pos 1) (contents opened_twice 1)
      (b'h' ∷ 0 ∷ []) [] 100 (ReadAnswer.interrupted ∷ got (b'h' ∷ 0 ∷ []) ∷ []) [] []
      crowded-IsOnBox
      (find_index_of_none 2 (λ i. is_free (opened_twice.free_open_file_entries i)) both_open) refl
      refl first_read second_read (omega arith) (omega arith)

-- A session that has read three bytes subscribes to a box that holds three.
abbrev returning : Server
returning = record serving {
  broker = record one_box {
    boxes = update (λ _. no_box) 0 (record (new_box (path name_a)) { box_size = 3 });
    fs = with_text;
  };
  clients = λ _. record resting { opcode = op_regist_sub; box_name = path name_a; offset = 3 };
  system = record serving.system { opens = pos 8 ∷ [] };
}

three_stored : length (contents with_text 1) ≡ 3
unfolding read_bytes
three_stored = refl

with_text-IsStored : IsStored with_text name_a (pos 1) (contents with_text 1) 1
with_text-IsStored = record {
  valid = with_text-IsValid;
  unlocked = refl;
  name_ok = name_a-IsFileName;
  there = with_text-lookup;
  holds = refl;
  block = inl (omega arith);
  handles = (1, with_text-room, tt);
}

found_again : find_box returning.broker (path name_a) ≡ some 0
unfolding str_eq
found_again = in_first_slot returning.broker refl

returning_subscriber_gets_nothing_example :
    (s' : Server) × (handle_tfs_register working 1 [] 0 returning
      ≡ handle_messages_to_subscriber working 1 0 0 s')
    × (s'.system.sent ≡ [])
    × (unread 0 0 s' ≡ 0)
    × (view s'.broker.fs name_a ≡ some (contents with_text 1))
returning_subscriber_gets_nothing_example =
    returning_subscriber_gets_nothing working returning 0 0 8 0 0 name_a (contents with_text 1) []
      (pos 1) [] refl refl found_again with_text-IsStored refl (sym three_stored) (sym three_stored)
      refl
