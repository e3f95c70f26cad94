-- ===== src/Clients/Command.antt =====
-- main of manager/manager.c.
use proj_so.Prelude.{
  ℕ, ◌+◌, not, Bool, List, [], ◌∷◌, Option, none, some, ◌==◌, if◌then◌else◌, take, ℤ, is_nonneg, M,
  fault, ◌>>=◌, pure,
}
use proj_so.Wire.System.{System, try_write, sys_open, sys_close, read_pipe}
use proj_so.Wire.Text.{text_of}
use proj_so.Wire.Numbers.{from_le}
use proj_so.Wire.Request.{
  pipe_path_length, request_length, op_create_box, op_remove_box, op_list_boxes, parse_message,
}
use proj_so.Broker.Boxes.{str_eq}
use proj_so.Server.State.{equals}
use proj_so.Server.Publisher.{message_length}
use proj_so.Clients.Manager.{Library, Listed, failed, no_boxes_found, printed, list_boxes}

-- What the calls that prepare the pipe give: whether unlink succeeds or finds no file, and whether
-- mkfifo succeeds; and whether malloc provides memory.
pub record Setup : Type 0 where
  pub unlinked : Bool
  pub made : Bool
  pub memory : Bool

-- What main does: it prints its usage, it fails, it prints that the broker has done what it was asked,
-- it prints the broker's error, or it lists the boxes.
pub data Ran : Type 0 where
  usage : Ran
  gave_up : Ran
  said_ok : Ran
  said_error : List ℕ → Ran
  listed : Listed → Ran

abbrev pub create_word : List ℕ
create_word = b'c' ∷ b'r' ∷ b'e' ∷ b'a' ∷ b't' ∷ b'e' ∷ []

abbrev pub remove_word : List ℕ
remove_word = b'r' ∷ b'e' ∷ b'm' ∷ b'o' ∷ b'v' ∷ b'e' ∷ []

abbrev pub list_word : List ℕ
list_word = b'l' ∷ b'i' ∷ b's' ∷ b't' ∷ []

-- The operation code of the commands that ask for a box.
unfoldable pub box_command : List ℕ → Option ℕ
box_command word =
    if str_eq word create_word
    then some op_create_box
    else if str_eq word remove_word
    then some op_remove_box
    else none

-- `close(register_pipefd); return -1;`, where the result of close is not used.
abbrev pub close_and : Ran → M System Ran
close_and ran = do code ← sys_close; pure ran

-- A request goes out: `size` bytes of the buffer of parse_message, which faults without memory and where
-- a name does not fit, and then the manager's pipe is opened for the answer.
abbrev pub ask : Option (List ℕ) → ℕ → ℤ → M System Ran → M System Ran
ask none size register rest = λ _. fault
ask (some buffer) size register rest = do
  written ← try_write register (take size buffer)
  if not (equals written.0 size)
      then pure gave_up
      else (do fd ← sys_open; if not (is_nonneg fd) then pure gave_up else rest)

-- `if (return_code == 0)`
abbrev pub report : List ℕ → List ℕ → Ran
report return_code message =
    if from_le return_code == 0 then said_ok else said_error (text_of message)

abbrev pub read_answer : M System Ran
read_answer = read_pipe gave_up 1 λ op_code.
    read_pipe gave_up 4
      λ return_code. read_pipe gave_up message_length λ message. pure (report return_code message)

abbrev pub list_and_close : Library → ℕ → M System Ran
list_and_close library fuel = do
  found ← list_boxes library fuel
  elim found [
    | failed ↦ close_and (listed failed)
    | no_boxes_found ↦ pure (listed no_boxes_found)
    | printed rows ↦ pure (listed (printed rows))
  ]

-- What main does with its command, over the open register pipe: the arguments behind the command, and
-- the operation code of a command that asks for a box.
abbrev pub run_command :
    Setup → Library → ℕ → ℤ → List ℕ → List ℕ → List (List ℕ) → Option ℕ → M System Ran
run_command setup library fuel register pipename word (box_name ∷ []) (some op_code) =
    ask (parse_message setup.memory op_code pipename (some box_name)) request_length register
      read_answer
run_command setup library fuel register pipename word [] none =
    if str_eq word list_word
    then ask (parse_message setup.memory op_list_boxes pipename none) (1 + pipe_path_length)
        register (list_and_close library fuel)
    else close_and usage
run_command setup library fuel register pipename word _ _ = close_and usage

-- main, with the arguments behind the program's name.
unfoldable pub main : Setup → Library → ℕ → List (List ℕ) → M System Ran
main setup library fuel (register_name ∷ pipename ∷ word ∷ more) = do
  register ← sys_open
  if not (is_nonneg register)
      then pure gave_up
      else (if not (setup.unlinked)
          then pure gave_up
          else (if not (setup.made)
              then pure gave_up
              else run_command setup library fuel register pipename word more (box_command word)))
main setup library fuel _ = pure usage
