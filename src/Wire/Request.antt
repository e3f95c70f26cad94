-- ===== src/Wire/Request.antt =====
-- Requests: parse_message of utils/common.c, which a client encodes a request with, and parser and
-- the loop over requests of mbroker/mbroker.c, which decode them.
use proj_so.Prelude.{
  ℕ, zero, suc, ◌+◌, ◌%◌, Bool, not, List, [], ◌∷◌, Option, none, some, ltb, leb, ◌==◌,
  if◌then◌else◌, length, M, fault, blocks, ◌>>=◌, pure,
}
use proj_so.Fs.Memory.{Bytes, write_bytes, read_bytes}
use proj_so.Wire.System.{System, try_read, read_pipe}
use proj_so.Wire.Text.{c_string}

-- CLIENT_NAMED_PIPE_PATH_LENGTH and BOX_NAME_LENGTH
abbrev pub pipe_path_length : ℕ
pipe_path_length = 255

abbrev pub box_name_length : ℕ
box_name_length = 31

abbrev pub request_length : ℕ
request_length = 287

-- The operation codes of requests and answers.
abbrev pub op_regist_pub : ℕ
op_regist_pub = 1

abbrev pub op_regist_sub : ℕ
op_regist_sub = 2

abbrev pub op_create_box : ℕ
op_create_box = 3

abbrev pub op_create_box_answer : ℕ
op_create_box_answer = 4

abbrev pub op_remove_box : ℕ
op_remove_box = 5

abbrev pub op_remove_box_answer : ℕ
op_remove_box_answer = 6

abbrev pub op_list_boxes : ℕ
op_list_boxes = 7

abbrev pub op_list_boxes_answer : ℕ
op_list_boxes_answer = 8

abbrev pub op_publisher : ℕ
op_publisher = 9

abbrev pub op_subscriber : ℕ
op_subscriber = 10

-- request_t. A list request leaves the box name as malloc gave it, `none`.
pub record Request : Type 0 where
  pub opcode : ℕ
  pub client_pipename : List ℕ
  pub box_name : Option (List ℕ)

-- `memcpy(buffer + at, name, strlen(name))` into the buffer of a request; `none` outside of it.
abbrev pub copy_name : ℕ → List ℕ → Bytes → Option Bytes
copy_name at name m =
    if leb (at + length name) request_length then some (write_bytes m at name) else none

abbrev pub copy_box_name : Option (List ℕ) → Bytes → Option Bytes
copy_box_name none m = some m
copy_box_name (some name) m = copy_name (1 + pipe_path_length) name m

abbrev pub whole_buffer : Option Bytes → Option (List ℕ)
whole_buffer none = none
whole_buffer (some m) = some (read_bytes m 0 request_length)

abbrev pub with_pipename : Option (List ℕ) → Option Bytes → Option (List ℕ)
with_pipename box_name none = none
with_pipename box_name (some m) = whole_buffer (copy_box_name box_name m)

-- The bytes of the buffer, or `none` where the code writes outside of it. `memory` tells whether
-- malloc provides it: the code clears it before it tests the pointer.
unfoldable pub parse_message : Bool → ℕ → List ℕ → Option (List ℕ) → Option (List ℕ)
parse_message memory opcode pipename box_name =
    if not memory
    then none
    else with_pipename box_name
        (copy_name 1 pipename (write_bytes (λ _. 0) 0 ((opcode % 256) ∷ [])))

-- `strncpy(field, buffer, size + 1)` of a buffer with `size` bytes reads behind it where it has no
-- zero; else the field holds the bytes before the zero.
abbrev pub named : {A : Type 0} → List ℕ → (List ℕ → M System A) → M System A
named buffer rest s = elim (c_string buffer) [ none ↦ fault | some name ↦ rest name s ]

-- parser: `none` is the result -1, and else the request goes into the queue. `memory` tells whether
-- malloc provides it.
unfoldable pub parser : Bool → ℕ → M System (Option Request)
parser memory op_code =
    if not memory
    then pure none
    else if ltb 7 op_code
    then pure none
    else read_pipe none pipe_path_length λ buffer. named buffer λ pipename.
      if op_code == op_list_boxes
      then pure (some (record { opcode = op_code; client_pipename = pipename; box_name = none }))
      else read_pipe none box_name_length λ buffer'. named buffer' λ name.
        pure (some (record { opcode = op_code; client_pipename = pipename; box_name = some name }))

-- How the loop over requests ended: at the end of the pipe, or with close_server.
pub data Ended : Type 0 where
  at_end : Ended
  server_closed : Ended

-- `while (bytes_read > 0) { parser(op_code); bytes_read = try_read(...); }` of main: the requests
-- that went into the queue, in order, and how the loop ended. One number of the fuel goes for each
-- request.
abbrev pub queued : Request → List Request × Ended → List Request × Ended
queued r (rs, e) = (r ∷ rs, e)

unfoldable pub serve_requests : Bool → ℕ → M System (List Request × Ended)
serve_requests memory zero = λ _. blocks
serve_requests memory (suc fuel) = do
  answer ← try_read 1
  elim answer [
    | none ↦ pure ([], server_closed)
    | some bytes ↦ elim bytes [
      | [] ↦ pure ([], at_end)
      | op_code ∷ _ ↦ (do
        request ← parser memory op_code
        elim request [
          | none ↦ pure ([], server_closed)
          | some r ↦ (do served ← serve_requests memory fuel; pure (queued r served))
        ])
    ]
  ]
