-- ===== src/Server/Tests.antt =====
-- Applications of the theorems on the sessions.
pub mod Boxes
mod Ends
use proj_so.Prelude.{
  ℕ, zero, suc, ◌+◌, ◌≡◌, ◌≢◌, refl, sym, ap, ◌∙◌, true, false, List, [], ◌∷◌, ◌++◌, Option, none,
  some, arith, length, length-append, update, sub_size, ℤ, pos, minus_one, ok,
}
use proj_so.Fs.Memory.{strncpy_bytes}
use proj_so.Fs.Memory.Laws.{IsName, length-strncpy_bytes}
use proj_so.Fs.Lookup.{path}
use proj_so.Fs.Invariant.{view}
use proj_so.Fs.Tests.{working_mutex, name_a}
use proj_so.Fs.Tests.Idle.{idle_a, idle_a-IsStored}
use proj_so.Fs.Append.{IsStored}
use proj_so.Wire.System.{
  System, ReadAnswer, WriteAnswer, got, wrote, next_read, next_write, Delivers, Accepts,
}
use proj_so.Wire.Text.{text_of, text_of-strncpy_bytes}
use proj_so.Wire.Request.{op_regist_pub, op_regist_sub, op_publisher}
use proj_so.Broker.Boxes.{Broker, new_box, no_box}
use proj_so.Server.State.{Calls, Client, Server}
use proj_so.Server.Sending.{to_pipe}
use proj_so.Server.Publisher.{message_length, handle_messages_from_publisher}
use proj_so.Server.Subscriber.{handle_messages_until_now}
use proj_so.Server.Store.{IsOnBox}
use proj_so.Server.Publishing.{IsFull, publisher_frames, stored_all, publisher_appends}
use proj_so.Server.CatchUp.{IsText, joined, subscriber_frames, frame_lengths}
use proj_so.Server.Delivery.{texts_of, publish_then_catch_up, messages_are_delivered}

-- Calls that succeed; while a session waits, nothing happens.
abbrev pub working : Calls
working = record {
  mutex = working_mutex;
  memory = true;
  broadcast = pos 0;
  wait = λ b s. ok minus_one s;
  stale = λ _. [];
}

-- A session that is at rest, with a handle.
abbrev pub resting : Client
resting = record {
  opcode = 0;
  box_name = [];
  box = none;
  offset = 0;
  box_fd = pos 0;
  client_pipename = [];
  client_pipe = pos 9;
}

abbrev pub on_first : ℕ → Client
on_first opcode = record resting { opcode = opcode; box_name = path name_a; box = some 0 }

-- A box with one publisher, whose file is empty; session 0 is the publisher, session 1 a subscriber.
abbrev pub one_box : Broker
one_box = record {
  num_boxes = pos 1;
  boxes = update (λ _. no_box) 0 (record (new_box (path name_a)) { n_publishers = 1 });
  free_boxes = update (λ _. true) 0 false;
  fs = idle_a;
}

abbrev pub hi : List ℕ
hi = b'h' ∷ b'i' ∷ []

abbrev pub message : List ℕ
message = strncpy_bytes hi message_length

abbrev messages : List (List ℕ)
messages = message ∷ []

-- Reads and writes, each with an interruption before it.
abbrev system : System
system = record {
  opens = [];
  closes = pos 0 ∷ [];
  reads =
      ReadAnswer.interrupted
      ∷ got (op_publisher ∷ [])
      ∷ got message
      ∷ ReadAnswer.interrupted
      ∷ got []
      ∷ [];
  writes = wrote 1 ∷ WriteAnswer.interrupted ∷ wrote message_length ∷ [];
  sent = [];
}

abbrev pub serving : Server
serving = record {
  broker = one_box;
  clients = update (λ _. on_first op_regist_sub) 0 (on_first op_regist_pub);
  max_sessions = 2;
  boxes_lock = false;
  box_locks = λ _. false;
  system = system;
}

serving-IsOnBox :
    (c : ℕ) → (serving.clients c).box ≡ some 0 → IsOnBox serving c 0 name_a (pos 1) [] 2 100
serving-IsOnBox c e = record {
  box = e;
  free = refl;
  named = refl;
  stored = idle_a-IsStored;
  counted = refl;
  limit_ok = refl;
}

full : IsFull message
full = length-strncpy_bytes hi message_length

hi-IsName : IsName hi
hi-IsName = (omega arith, (omega arith, tt))

text : text_of message ≡ hi
text = text_of-strncpy_bytes hi message_length hi-IsName (omega arith)

room : length (stored_all messages) ≡ 3
room = ap (λ (t : List ℕ). length ((t ++ (0 ∷ [])) ++ [])) text

arrives : Delivers system.reads (publisher_frames messages) (ReadAnswer.interrupted ∷ got [] ∷ [])
unfolding next_read
arrives = (
  got message ∷ ReadAnswer.interrupted ∷ got [] ∷ [],
  refl,
  (ReadAnswer.interrupted ∷ got [] ∷ [], refl, refl),
)

ends : next_read (ReadAnswer.interrupted ∷ got [] ∷ []) ≡ some (got [], [])
unfolding next_read
ends = refl

taken : Accepts system.writes (1 ∷ message_length ∷ []) []
unfolding next_write
taken = (WriteAnswer.interrupted ∷ wrote message_length ∷ [], refl, ([], refl, refl))

publisher_appends_example :
    (s' : Server) × (handle_messages_from_publisher working 0 2 message serving ≡ ok (pos 0) s')
    × IsStored s'.broker.fs name_a (pos 1) (stored_all messages) 1
    × ((s'.broker.boxes 0).box_size ≡ length (stored_all messages))
    × (s'.box_locks 0 ≡ false)
    × ((s'.broker.boxes 0).n_publishers ≡ sub_size (serving.broker.boxes 0).n_publishers 1)
    × ((s'.broker.boxes 0).box_name ≡ path name_a)
    × (s'.broker.fs.fs_params.block_size ≡ 100)
    × ((d : ℕ) → 0 ≢ d → s'.clients d ≡ serving.clients d)
    × (s'.system ≡ record serving.system { reads = []; closes = [] })
publisher_appends_example =
    publisher_appends working serving 0 0 0 name_a (pos 1) [] messages 2 1 100 message
      (ReadAnswer.interrupted ∷ got [] ∷ []) [] [] refl (serving-IsOnBox 0 refl) refl refl refl
      (full, tt) full (omega (arith, room)) (omega arith) arrives ends

messages_are_delivered_example :
    (s' : Server) × (publish_then_catch_up working 0 1 0 2 2 message serving ≡ ok (pos 0) s')
    × (s'.system.sent
        ≡ serving.system.sent ++ to_pipe (pos 9) (subscriber_frames (texts_of messages)))
    × ((s'.clients 1).offset ≡ (s'.broker.boxes 0).box_size)
messages_are_delivered_example =
    messages_are_delivered working serving 0 1 0 0 name_a (pos 1) messages 2 0 100 message
      (ReadAnswer.interrupted ∷ got [] ∷ []) [] [] [] refl (λ e. absurd (omega arith))
      (serving-IsOnBox 0 refl) (omega arith) refl refl refl (full, tt) full (omega (arith, room))
      (omega arith) arrives ends refl refl refl taken
