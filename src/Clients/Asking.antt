-- ===== src/Clients/Asking.antt =====
-- main of manager/manager.c when it asks the broker to create or to remove a box.
use proj_so.Prelude.{
  length-append, ℕ, ◌≤◌, ◌<◌, ◌≡◌, refl, ◌∙◌, ◌%◌, ◌^◌, InRange, of_int-lt, is_zero-of_int, true,
  List, [], ◌∷◌, ◌++◌, some, arith, if◌then◌else◌, length, take, take_whole, ℤ, pos, of_int,
  is_zero, M, ok,
}
use proj_so.Fs.Memory.{strncpy_bytes}
use proj_so.Fs.Memory.Laws.{IsName, length-strncpy_bytes}
use proj_so.Wire.System.{
  System, ReadAnswer, WriteAnswer, wrote, next_write, Delivers, sys_open, try_write-wrote,
  read_pipe-got,
}
use proj_so.Wire.Text.{text_of-strncpy_bytes}
use proj_so.Wire.Numbers.{le_bytes, from_le, length-le_bytes}
use proj_so.Wire.Request.{pipe_path_length, box_name_length, request_length}
use proj_so.Wire.Roundtrip.{parse_message-fields}
use proj_so.Server.Sending.{equals_refl}
use proj_so.Server.Publisher.{message_length}
use proj_so.Server.Requests.{Answer}
use proj_so.Server.Answers.{answer_frames}
use proj_so.Clients.Manager.{Library}
use proj_so.Clients.Command.{
  Setup, Ran, gave_up, said_ok, said_error, box_command, ask, report, read_answer, main,
}

-- What the manager tells of an answer.
abbrev pub told : Answer → Ran
told answer = if is_zero answer.return_code then said_ok else said_error answer.error_msg

-- The four bytes of a number below 2^32.
from_le-le_bytes : (v : ℕ) → v < 2 ^ 32 → from_le (le_bytes 4 v) ≡ v
unfolding le_bytes from_le
from_le-le_bytes v h = omega arith

report-told :
    (answer : Answer)
    → InRange answer.return_code
    → IsName answer.error_msg
    → length answer.error_msg ≤ message_length
    → report
        (le_bytes 4 (of_int answer.return_code))
        (strncpy_bytes answer.error_msg message_length)
      ≡ told answer
report-told answer code h p =
    rw
      (
        from_le-le_bytes (of_int answer.return_code) (of_int-lt answer.return_code),
        is_zero-of_int answer.return_code code,
        text_of-strncpy_bytes answer.error_msg message_length h p,
      )
      refl

read_answer-told :
    (op : ℕ) (answer : Answer) (y : System) (rest : List ReadAnswer)
    → InRange answer.return_code
    → IsName answer.error_msg
    → length answer.error_msg ≤ message_length
    → Delivers y.reads (answer_frames op answer) rest
    → read_answer y ≡ ok (told answer) (record y { reads = rest })
read_answer-told op answer y rest code h p (a, e, (a', e', (a'', e'', e₃))) =
    let number : List ℕ = le_bytes 4 (of_int answer.return_code) in
    let text : List ℕ = strncpy_bytes answer.error_msg message_length in
    read_pipe-got gave_up 1 _ y (op ∷ []) a refl e
    ∙ read_pipe-got gave_up 4 _ (record y { reads = a }) number a'
        (length-le_bytes 4 (of_int answer.return_code)) e'
    ∙ read_pipe-got gave_up message_length _ (record y { reads = a' }) text a''
        (length-strncpy_bytes answer.error_msg message_length) e''
    ∙ rw (report-told answer code h p, e₃) refl

-- The buffer of a request for a box.
abbrev pub box_request : ℕ → List ℕ → List ℕ → List ℕ
box_request op pipename name =
    ((op % 256) ∷ strncpy_bytes pipename pipe_path_length) ++ strncpy_bytes name box_name_length

ask-sends :
    (buffer : List ℕ) (size r p : ℕ) (next : M System Ran) (y : System) (os : List ℤ)
    (w : List WriteAnswer)
    → length buffer ≡ size
    → next_write y.writes ≡ some (wrote size, w)
    → y.opens ≡ pos p ∷ os
    → ask (some buffer) size (pos r) next y
      ≡ next (record y { opens = os; writes = w; sent = y.sent ++ ((pos r, buffer) ∷ []) })
unfolding sys_open
ask-sends buffer size r p next y os w h e open_ok =
    let whole : take size buffer ≡ buffer = take_whole size buffer (omega arith) in
    rw whole (
      rw (try_write-wrote (pos r) buffer size y w e)
        (rw whole (rw (equals_refl size) (rw open_ok refl))))

length-box_request :
    (op : ℕ) (pipename name : List ℕ) → length (box_request op pipename name) ≡ request_length
length-box_request op pipename name =
    let n = length-strncpy_bytes pipename pipe_path_length in
    let n' = length-strncpy_bytes name box_name_length in
    let m =
      length-append (strncpy_bytes pipename pipe_path_length)
        (strncpy_bytes name box_name_length) in
    omega arith

-- With a command that asks for a box, a pipe name of at most 255 bytes and a box name of at most 31, when
-- unlink, mkfifo, malloc and both opens succeed and the register pipe takes the request, main sends the
-- operation code and the two names in fields with zeros behind them; and when its reads then give the
-- pieces of an answer, with any interruptions between, it tells success where the return code is 0, and
-- else the answer's error message, which has at most 1023 bytes and no zero.
pub manager_tells_answer :
    (setup : Setup) (library : Library) (fuel r p op op' : ℕ)
    (register_name pipename word name : List ℕ) (answer : Answer) (y : System) (os : List ℤ)
    (w : List WriteAnswer) (rest : List ReadAnswer)
    → setup.unlinked ≡ true
    → setup.made ≡ true
    → setup.memory ≡ true
    → box_command word ≡ some op
    → length pipename ≤ pipe_path_length
    → length name ≤ box_name_length
    → y.opens ≡ pos r ∷ pos p ∷ os
    → next_write y.writes ≡ some (wrote request_length, w)
    → InRange answer.return_code
    → IsName answer.error_msg
    → length answer.error_msg ≤ message_length
    → Delivers y.reads (answer_frames op' answer) rest
    → main setup library fuel (register_name ∷ pipename ∷ word ∷ name ∷ []) y
      ≡ ok (told answer) (record y {
        opens = os;
        reads = rest;
        writes = w;
        sent = y.sent ++ ((pos r, box_request op pipename name) ∷ []);
      })
unfolding main sys_open
manager_tells_answer setup library fuel r p op op' register_name pipename word name answer y os w
      rest unlinked made memory asks fits fits' open_ok taken code is_name short d =
    let request : List ℕ = box_request op pipename name in
    let y₁ : System = record y { opens = pos p ∷ os } in
    let y₂ : System = record y {
      opens = os;
      writes = w;
      sent = y.sent ++ ((pos r, request) ∷ []);
    } in
    rw open_ok (
      rw unlinked (
        rw made (
          rw asks (
            rw memory (
              rw (parse_message-fields op pipename name fits fits') (
                ask-sends request request_length r p read_answer y₁ os w
                  (length-box_request op pipename name) taken refl
                ∙ read_answer-told op' answer y₂ rest code is_name short d))))))
