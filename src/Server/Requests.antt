-- ===== src/Server/Requests.antt =====
-- handle_tfs_create_box, handle_tfs_remove_box and handle_tfs_register of mbroker/mbroker.c.
use proj_so.Prelude.{
  ℕ, zero, suc, ◌+◌, ◌&&◌, Bool, true, false, not, List, [], ◌∷◌, Option, none, some, ◌==◌,
  if◌then◌else◌, update, find_index, ℤ, pos, minus_one, is_nonneg, is_minus_one, of_int, add_size,
  M, ◌>>=◌, ◌>>◌, pure, gets, modify,
}
use proj_so.Fs.Memory.{strncpy_bytes}
use proj_so.Fs.Operations.{tfs_o_creat, tfs_open}
use proj_so.Wire.System.{sys_open}
use proj_so.Wire.Numbers.{le_bytes}
use proj_so.Wire.Request.{op_regist_pub, op_create_box_answer, op_remove_box_answer}
use proj_so.Broker.Boxes.{max_boxes, str_eq, get_box, create_box, remove_box}
use proj_so.Server.State.{
  Calls, Server, on_system, on_broker, on_files, client_of, box_of, set_client, set_box, lock_boxes,
  unlock_boxes, equals, write_pipe, safe_close,
}
use proj_so.Server.Session.{finish_client_session}
use proj_so.Server.Publisher.{message_length, handle_messages_from_publisher}
use proj_so.Server.Subscriber.{handle_messages_until_now, handle_messages_to_subscriber}

-- The error messages of the answers.
abbrev pub max_boxes_message : List ℕ
max_boxes_message =
    b'R' ∷ b'e' ∷ b'a' ∷ b'c' ∷ b'h' ∷ b'e' ∷ b'd' ∷ 32 ∷ b'm' ∷ b'a' ∷ b'x' ∷ 32 ∷ b'n' ∷ b'u'
    ∷ b'm' ∷ b'b' ∷ b'e' ∷ b'r' ∷ 32 ∷ b'o' ∷ b'f' ∷ 32 ∷ b'b' ∷ b'o' ∷ b'x' ∷ b'e' ∷ b's' ∷ []

abbrev pub box_exists_message : List ℕ
box_exists_message =
    b'B' ∷ b'o' ∷ b'x' ∷ 32 ∷ b'a' ∷ b'l' ∷ b'r' ∷ b'e' ∷ b'a' ∷ b'd' ∷ b'y' ∷ 32 ∷ b'e' ∷ b'x'
    ∷ b'i' ∷ b's' ∷ b't' ∷ b's' ∷ []

abbrev pub create_failed_message : List ℕ
create_failed_message =
    b'F' ∷ b'a' ∷ b'i' ∷ b'l' ∷ b'e' ∷ b'd' ∷ 32 ∷ b't' ∷ b'o' ∷ 32 ∷ b'c' ∷ b'r' ∷ b'e' ∷ b'a'
    ∷ b't' ∷ b'e' ∷ 32 ∷ b'b' ∷ b'o' ∷ b'x' ∷ []

abbrev pub open_failed_message : List ℕ
open_failed_message =
    b'F' ∷ b'a' ∷ b'i' ∷ b'l' ∷ b'e' ∷ b'd' ∷ 32 ∷ b't' ∷ b'o' ∷ 32 ∷ b'o' ∷ b'p' ∷ b'e' ∷ b'n' ∷ 32
    ∷ b'p' ∷ b'i' ∷ b'p' ∷ b'e' ∷ []

abbrev pub no_box_message : List ℕ
no_box_message =
    b'B' ∷ b'o' ∷ b'x' ∷ 32 ∷ b'd' ∷ b'o' ∷ b'e' ∷ b's' ∷ 32 ∷ b'n' ∷ b'o' ∷ b't' ∷ 32 ∷ b'e' ∷ b'x'
    ∷ b'i' ∷ b's' ∷ b't' ∷ []

-- `return_code` and `error_msg` of an answer.
pub record Answer : Type 0 where
  pub return_code : ℤ
  pub error_msg : List ℕ

abbrev pub answer_ok : Answer
answer_ok = record { return_code = pos 0; error_msg = [] }

abbrev pub refused : List ℕ → Answer
refused message = record { return_code = minus_one; error_msg = message }

-- The three calls of write_pipe for an answer.
abbrev pub write_answer : ℤ → ℕ → Answer → M Server ℤ → M Server ℤ
write_answer pipe op_code answer rest = write_pipe minus_one pipe (op_code ∷ []) (
    write_pipe minus_one pipe (le_bytes 4 (of_int answer.return_code))
      (write_pipe minus_one pipe (strncpy_bytes answer.error_msg message_length) rest))

-- create_box copies a box whose mutex is free into the slot.
unfoldable pub create_unlocked_box : Calls → List ℕ → M Server ℤ
create_unlocked_box calls box_name = do
  slot ← gets (λ s. find_index max_boxes s.broker.free_boxes)
  code ← on_broker (create_box calls.memory box_name)
  elim slot [
    | none ↦ pure code
    | some i ↦
        if not (is_nonneg code)
        then pure code
        else (do modify (λ s. record s { box_locks = update s.box_locks i false }); pure code)
  ]

-- The tests of handle_tfs_create_box, of which the first that fails gives the message, and create_box.
unfoldable pub try_create : Calls → List ℕ → M Server Answer
try_create calls box_name = do
  num ← gets (λ s. s.broker.num_boxes)
  slot ← on_broker (get_box box_name)
  if equals num max_boxes then pure (refused max_boxes_message) else elim slot [
    | some i ↦ pure (refused box_exists_message)
    | none ↦ (do
      code ← create_unlocked_box calls box_name
      if is_nonneg code then pure answer_ok else pure (refused create_failed_message))
  ]

unfoldable pub handle_tfs_create_box : Calls → ℕ → M Server ℤ
handle_tfs_create_box calls c = do
  lock_boxes
  client ← client_of c
  created ← try_create calls client.box_name
  unlock_boxes
  pipe ← on_system sys_open
  set_client c (λ k. record k { client_pipe = pipe })
  let answer = if is_nonneg pipe then created else refused open_failed_message
  fhandle ← on_files (tfs_open calls.mutex client.box_name tfs_o_creat)
  if not (is_nonneg fhandle) then pure minus_one else (do
    set_client c (λ k. record k { box_fd = fhandle })
    write_answer pipe op_create_box_answer answer (finish_client_session c))

-- `for (int i = 0; i < max_sessions; ++i)` with the sessions that are left from `i` on: false where a
-- session cannot be finished.
unfoldable pub finish_sessions : ℕ → List ℕ → ℕ → ℕ → M Server Bool
finish_sessions c box_name zero i = pure true
finish_sessions c box_name (suc left) i = do
  client ← client_of i
  let rest = finish_sessions c box_name left (i + 1)
  if str_eq client.box_name box_name && not (i == c)
      then (do code ← finish_client_session i; if is_minus_one code then pure false else rest)
      else rest

-- The part of handle_tfs_remove_box for a box that is there: false where the function returns -1.
unfoldable pub remove_for_all : Calls → ℕ → List ℕ → M Server Bool
remove_for_all calls c box_name = do
  sessions ← gets (λ s. s.max_sessions)
  complete ← finish_sessions c box_name sessions 0
  if not complete
      then pure false
      else (do code ← on_broker (remove_box calls.mutex box_name); pure (not (is_minus_one code)))

abbrev pub remove_if_there : Calls → ℕ → List ℕ → Option ℕ → M Server Bool
remove_if_there calls c box_name none = pure true
remove_if_there calls c box_name (some i) = remove_for_all calls c box_name

abbrev pub removal_answer : Option ℕ → Answer
removal_answer none = refused no_box_message
removal_answer (some i) = answer_ok

unfoldable pub handle_tfs_remove_box : Calls → ℕ → M Server ℤ
handle_tfs_remove_box calls c = do
  lock_boxes
  client ← client_of c
  pipe ← on_system sys_open
  if is_minus_one pipe then (do unlock_boxes; pure minus_one) else (do
    set_client c (λ k. record k { client_pipe = pipe })
    slot ← on_broker (get_box client.box_name)
    complete ← remove_if_there calls c client.box_name slot
    if not complete
        then pure minus_one
        else write_answer pipe op_remove_box_answer (removal_answer slot)
            (do unlock_boxes; finish_client_session c))

-- A publisher takes the box, unless there is one already.
unfoldable pub register_publisher : Calls → ℕ → List ℕ → ℕ → ℕ → M Server ℤ
register_publisher calls fuel message c b = do
  box ← box_of b
  if box.n_publishers == 1 then finish_client_session c else (do
    set_box b (λ k. record k { n_publishers = add_size k.n_publishers 1 })
    handle_messages_from_publisher calls c fuel message)

unfoldable pub register_subscriber : Calls → ℕ → ℕ → ℕ → M Server ℤ
register_subscriber calls fuel c b = do
  set_box b (λ k. record k { n_subscribers = add_size k.n_subscribers 1 })
  code ← handle_messages_until_now calls fuel c b
  if is_minus_one code then pure minus_one else handle_messages_to_subscriber calls fuel c b

-- `message` is what the publisher's buffer on the stack holds.
unfoldable pub handle_tfs_register : Calls → ℕ → List ℕ → ℕ → M Server ℤ
handle_tfs_register calls fuel message c = do
  client ← client_of c
  pipe ← on_system sys_open
  if not (is_nonneg pipe) then pure minus_one else (do
    set_client c (λ k. record k { client_pipe = pipe })
    slot ← on_broker (get_box client.box_name)
    elim slot [
      | none ↦ safe_close minus_one pipe (pure (pos 0))
      | some b ↦ (do
        set_client c (λ k. record k { box = some b })
        if client.opcode == op_regist_pub
            then register_publisher calls fuel message c b
            else register_subscriber calls fuel c b)
    ])
