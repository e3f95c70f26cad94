-- ===== src/Clients/Publisher.antt =====
-- The loop of main in publisher/pub.c.
use proj_so.Prelude.{
  ℕ, zero, suc, ◌+◌, ◌-◌, not, List, [], ◌∷◌, ◌++◌, if◌then◌else◌, length, leb, take, drop,
  replicate, ℤ, pos, minus_one, is_nonneg, is_zero, ◌&&◌, ◌||◌, M, fault, ◌>>=◌, pure,
}
use proj_so.Wire.System.{System, try_write, sys_close}
use proj_so.Wire.Text.{text_of}
use proj_so.Server.Publisher.{message_length}

-- What getline gives: a line, or an error; the end of the input is the end of the list of these.
pub data Input : Type 0 where
  line : List ℕ → Input
  read_error : Input

-- The bytes of `message_text`, cleared and with the line in it.
abbrev pub with_line : List ℕ → List ℕ
with_line bytes = bytes ++ replicate (message_length - length bytes) 0

-- `message_text[strlen(message_text) - 1] = '\0'`, which for an empty string is the operation code.
abbrev pub cut_newline : ℕ → List ℕ → ℕ → List ℕ
cut_newline op_code text zero = 0 ∷ text
cut_newline op_code text (suc k) = op_code ∷ (take k text ++ (0 ∷ drop (k + 1) text))

unfoldable pub message_of : ℕ → List ℕ → List ℕ
message_of op_code bytes =
    cut_newline op_code (with_line bytes) (length (text_of (with_line bytes)))

-- `safe_close(pipe_fd); return code;`
abbrev pub close_and_return : ℤ → M System ℤ
close_and_return code = do
  closed ← sys_close
  if is_nonneg closed then pure code else pure minus_one

-- One write of the message, and the tests behind it; a write of fewer bytes is not noticed.
unfoldable pub send_message : ℤ → List ℕ → M System ℤ → M System ℤ
send_message pipe message rest = do
  written ← try_write pipe message
  if is_zero written.0 || (not (is_nonneg written.0) && written.1)
      then close_and_return (pos 0)
      else if not (is_nonneg written.0)
      then close_and_return minus_one
      else rest

abbrev pub first_byte : List ℕ → ℕ
first_byte [] = 0
first_byte (b ∷ bytes) = b

-- getline may not move `message_text`, which is not from malloc: a line that does not fit faults.
unfoldable pub publish_lines : ℤ → ℕ → List Input → M System ℤ
publish_lines pipe op_code [] = close_and_return (pos 0)
publish_lines pipe op_code (read_error ∷ inputs) =
    let message = message_of op_code [] in
    send_message pipe message (publish_lines pipe (first_byte message) inputs)
publish_lines pipe op_code (line bytes ∷ inputs) =
    let message = message_of op_code bytes in
    let rest = publish_lines pipe (first_byte message) inputs in
    if leb message_length (length bytes) then (λ _. fault) else send_message pipe message rest
