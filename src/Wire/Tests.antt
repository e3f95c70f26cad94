-- ===== src/Wire/Tests.antt =====
-- Applications of the theorems on requests.
use proj_so.Prelude.{
  ℕ, zero, suc, ◌≡◌, refl, true, List, [], ◌∷◌, none, some, arith, drop, replicate, ok, fault,
}
use proj_so.Fs.Memory.Laws.{IsName}
use proj_so.Wire.System.{System, ReadAnswer, got, next_read, try_read, Delivers}
use proj_so.Wire.Request.{
  Request, op_create_box, op_list_boxes, parser, at_end, serve_requests, parse_message,
}
use proj_so.Wire.Serve.{IsRequest, frames_of, frames_all, serve_requests_in_order}
use proj_so.Wire.Overread.{full_name_overreads}
use proj_so.Wire.Retry.{quiet, quietly, read_once, try_read-read_once}

abbrev pipe_name : List ℕ
pipe_name = b'p' ∷ []

abbrev list_request : Request
list_request = record { opcode = op_list_boxes; client_pipename = pipe_name; box_name = none }

abbrev create_request : Request
create_request = record {
  opcode = op_create_box;
  client_pipename = pipe_name;
  box_name = some (b'/' ∷ b'a' ∷ []);
}

list_request-IsRequest : IsRequest list_request
list_request-IsRequest = record {
  code = omega arith;
  pipe = (omega arith, tt);
  pipe_fits = omega arith;
  box = refl;
}

create_request-IsRequest : IsRequest create_request
create_request-IsRequest = record {
  code = omega arith;
  pipe = (omega arith, tt);
  pipe_fits = omega arith;
  box = (λ e. absurd (omega arith), (omega arith, (omega arith, tt)), omega arith);
}

-- Every piece of a request, with an interruption before it.
abbrev pub answers : List (List ℕ) → List ReadAnswer → List ReadAnswer
answers [] rest = rest
answers (f ∷ fs) rest = ReadAnswer.interrupted ∷ got f ∷ answers fs rest

pub answers-Delivers :
    (fs : List (List ℕ)) (rest : List ReadAnswer) → Delivers (answers fs rest) fs rest
unfolding next_read
answers-Delivers [] rest = refl
answers-Delivers (f ∷ fs) rest = (answers fs rest, refl, answers-Delivers fs rest)

abbrev both : List Request
both = create_request ∷ list_request ∷ []

abbrev with_answers : List ReadAnswer → System
with_answers reads = record { opens = []; closes = []; reads = reads; writes = []; sent = [] }

at_the_end : next_read (got [] ∷ []) ≡ some (got [], [])
unfolding next_read
at_the_end = refl

serve_requests_in_order_example :
    serve_requests true 3 (with_answers (answers (frames_all both) (got [] ∷ [])))
    ≡ ok (both, at_end) (with_answers [])
serve_requests_in_order_example =
    serve_requests_in_order both 3 (with_answers (answers (frames_all both) (got [] ∷ [])))
      (got [] ∷ []) [] (create_request-IsRequest, (list_request-IsRequest, tt)) (omega arith)
      (answers-Delivers (frames_all both) (got [] ∷ [])) at_the_end

-- A slash and thirty letters.
abbrev long_name : List ℕ
long_name = b'/' ∷ replicate 30 b'a'

abbrev long_frames : List (List ℕ)
long_frames =
    drop 1 (frames_of op_create_box (parse_message true op_create_box pipe_name (some long_name)))

letters-IsName : (k : ℕ) → IsName (replicate k b'a')
letters-IsName zero = tt
letters-IsName (suc k) = (omega arith, letters-IsName k)

long_name-IsName : IsName long_name
long_name-IsName = (omega arith, letters-IsName 30)

full_name_overreads_example :
    parser true op_create_box (with_answers (answers long_frames [])) ≡ fault
full_name_overreads_example =
    full_name_overreads op_create_box pipe_name long_name (with_answers (answers long_frames [])) []
      (omega arith) (λ e. absurd (omega arith)) (omega arith, tt) (omega arith) long_name-IsName
      refl (answers-Delivers long_frames [])

try_read-read_once_example :
    quietly (try_read 1 (with_answers (ReadAnswer.interrupted ∷ got (7 ∷ []) ∷ [])))
    ≡ read_once 1 (quiet (with_answers (ReadAnswer.interrupted ∷ got (7 ∷ []) ∷ [])))
try_read-read_once_example =
    try_read-read_once 1 (with_answers (ReadAnswer.interrupted ∷ got (7 ∷ []) ∷ []))
