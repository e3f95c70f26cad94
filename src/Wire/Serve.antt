-- ===== src/Wire/Serve.antt =====
-- The loop over requests of the broker's main thread, fed by clients.
use proj_so.Prelude.{
  ℕ, zero, suc, ◌+◌, ◌%◌, ◌≤◌, ◌<◌, ◌≡◌, ◌≢◌, refl, subst, ap, ◌∙◌, true, false, List, [], ◌∷◌,
  ◌++◌, Option, none, some, arith, ltb, ◌==◌, if◌then◌else◌, length, take, drop, take-append_left,
  drop-append_left, ok,
}
use proj_so.Fs.Memory.{strncpy_bytes}
use proj_so.Fs.Memory.Laws.{IsName, length-strncpy_bytes}
use proj_so.Wire.System.{System, ReadAnswer, got, next_read, Delivers, try_read-got, read_pipe}
use proj_so.Wire.Text.{c_string-strncpy_bytes}
use proj_so.Wire.Request.{
  Request, pipe_path_length, box_name_length, op_list_boxes, named, parse_message, parser,
  serve_requests, at_end,
}
use proj_so.Wire.Roundtrip.{parse_message-fields, parse_message-list}

-- The box name of a request with this code: a list request has none, another has one with room for
-- its terminator.
abbrev pub BoxFits : ℕ → Option (List ℕ) → Type 0
BoxFits op none = op ≡ op_list_boxes
BoxFits op (some name) = (op ≢ op_list_boxes) × IsName name × (length name < box_name_length)

-- What a client may ask for.
pub record IsRequest (r : Request) : Type 0 where
  pub code : r.opcode ≤ 7
  pub pipe : IsName r.client_pipename
  pub pipe_fits : length r.client_pipename < pipe_path_length
  pub box : BoxFits r.opcode r.box_name

-- A client writes the buffer of parse_message, without the box's field for a list request; the broker
-- reads the code, the pipe's field, and the box's field.
abbrev pub frames_of : ℕ → Option (List ℕ) → List (List ℕ)
frames_of op none = []
frames_of op (some message) =
    take 1 message
    ∷ take pipe_path_length (drop 1 message)
    ∷ (if op == op_list_boxes then [] else drop (1 + pipe_path_length) message ∷ [])

abbrev pub frames : Request → List (List ℕ)
frames r = frames_of r.opcode (parse_message true r.opcode r.client_pipename r.box_name)

abbrev pub frames_all : List Request → List (List ℕ)
frames_all [] = []
frames_all (r ∷ rs) = frames r ++ frames_all rs

abbrev pub All {ℓ} : {A : Type ℓ} → (A → Type 0) → List A → Type 0
All P [] = Unit
All P (x ∷ xs) = P x × All P xs

abbrev pub fields : ℕ → List ℕ → Option (List ℕ) → List (List ℕ)
fields op pipename none = (op ∷ []) ∷ strncpy_bytes pipename pipe_path_length ∷ []
fields op pipename (some name) =
    (op ∷ []) ∷ strncpy_bytes pipename pipe_path_length ∷ strncpy_bytes name box_name_length ∷ []

split_message :
    (op : ℕ) (pipe box : List ℕ)
    → length pipe ≡ pipe_path_length
    → op ≤ 7
    → frames_of op (some (((op % 256) ∷ pipe) ++ box))
      ≡ (op ∷ []) ∷ pipe ∷ (if op == op_list_boxes then [] else box ∷ [])
split_message op pipe box h q =
    let e : op % 256 ≡ op = omega arith in
    rw
      (
        e,
        take-append_left pipe_path_length pipe box h,
        drop-append_left pipe_path_length pipe box h,
      )
      refl

pub frames-named :
    (op : ℕ) (pipename name : List ℕ)
    → op ≤ 7
    → op ≢ op_list_boxes
    → length pipename < pipe_path_length
    → length name ≤ box_name_length
    → frames_of op (parse_message true op pipename (some name)) ≡ fields op pipename (some name)
frames-named op pipename name q other p h =
    let e : (op == op_list_boxes) ≡ false = ground arith in
    ap (frames_of op) (parse_message-fields op pipename name (omega arith) h)
    ∙ split_message op (strncpy_bytes pipename pipe_path_length)
        (strncpy_bytes name box_name_length) (length-strncpy_bytes pipename pipe_path_length) q
    ∙ rw e refl

frames-fields :
    (op : ℕ) (pipename : List ℕ) (box : Option (List ℕ))
    → op ≤ 7
    → length pipename < pipe_path_length
    → BoxFits op box
    → frames_of op (parse_message true op pipename box) ≡ fields op pipename box
frames-fields op pipename none q p h =
    ap (frames_of op) (parse_message-list op pipename [] (omega arith) (omega arith))
    ∙ split_message op (strncpy_bytes pipename pipe_path_length) (strncpy_bytes [] 31)
        (length-strncpy_bytes pipename pipe_path_length) q
    ∙ rw h refl
frames-fields op pipename (some name) q p (other, _, fits) =
    frames-named op pipename name q other p (omega arith)

module _ (op : ℕ) (pipename : List ℕ) (q : op ≤ 7) (is_name : IsName pipename)
    (p : length pipename < pipe_path_length) where
  parser-fields :
      (box : Option (List ℕ)) (s : System) (rest : List ReadAnswer)
      → BoxFits op box
      → Delivers s.reads (drop 1 (fields op pipename box)) rest
      → parser true op s
        ≡ ok
            (some (record { opcode = op; client_pipename = pipename; box_name = box }))
            (record s { reads = rest })
  unfolding parser read_pipe
  parser-fields none s rest h (after, e, e') =
      let small : ltb 7 op ≡ false = ground arith in
      rw
        (
          small,
          try_read-got pipe_path_length s (strncpy_bytes pipename pipe_path_length) after
              (omega (arith, length-strncpy_bytes pipename pipe_path_length)) e,
        )
        (rw (length-strncpy_bytes pipename pipe_path_length) (
          rw (c_string-strncpy_bytes pipename pipe_path_length is_name p, named)
            (rw h (rw e' refl))))
  parser-fields (some name) s rest (other, box_name, fits) (after, e, (after', e', e'')) =
      let small : ltb 7 op ≡ false = ground arith in
      let o : (op == op_list_boxes) ≡ false = ground arith in
      rw
        (
          small,
          try_read-got pipe_path_length s (strncpy_bytes pipename pipe_path_length) after
              (omega (arith, length-strncpy_bytes pipename pipe_path_length)) e,
        )
        (rw (length-strncpy_bytes pipename pipe_path_length) (
          rw (c_string-strncpy_bytes pipename pipe_path_length is_name p, named)
            (rw o (
              rw
                (try_read-got box_name_length (record s { reads = after })
                  (strncpy_bytes name box_name_length) after'
                  (omega (arith, length-strncpy_bytes name box_name_length)) e')
                (rw (length-strncpy_bytes name box_name_length) (
                  rw (c_string-strncpy_bytes name box_name_length box_name fits, named)
                    (rw e'' refl)))))))

pub Delivers-split :
    (answers : List ReadAnswer) (xs ys : List (List ℕ)) (rest : List ReadAnswer)
    → Delivers answers (xs ++ ys) rest
    → (mid : List ReadAnswer) × Delivers answers xs mid × Delivers mid ys rest
Delivers-split answers [] ys rest d = (answers, refl, d)
Delivers-split answers (x ∷ xs) ys rest (after, e, d) =
    let (mid, d', d'') = Delivers-split after xs ys rest d in (mid, (after, e, d'), d'')

fields-cons :
    (op : ℕ) (pipename : List ℕ) (box : Option (List ℕ))
    → fields op pipename box ≡ (op ∷ []) ∷ drop 1 (fields op pipename box)
fields-cons op pipename none = refl
fields-cons op pipename (some name) = refl

serve_one :
    (fuel : ℕ) (r : Request) (s : System) (mid : List ReadAnswer)
    → IsRequest r
    → Delivers s.reads (frames r) mid
    → (rs : List Request) (t : System)
    → serve_requests true fuel (record s { reads = mid }) ≡ ok (rs, at_end) t
    → serve_requests true (suc fuel) s ≡ ok (r ∷ rs, at_end) t
unfolding serve_requests
serve_one fuel r s mid v d rs t later =
    let e =
      frames-fields r.opcode r.client_pipename r.box_name v.code v.pipe_fits v.box
      ∙ fields-cons r.opcode r.client_pipename r.box_name in
    let (after, first, others) = subst (λ (f : List (List ℕ)). Delivers s.reads f mid) e d in
    rw (try_read-got 1 s (r.opcode ∷ []) after (omega arith) first) (
      rw
        (parser-fields r.opcode r.client_pipename v.code v.pipe v.pipe_fits r.box_name
          (record s { reads = after }) mid v.box others)
        (rw later refl))

-- When the requests of well formed clients come over the broker's pipe, one after the other, in reads
-- with any interruptions between them, and then the pipe ends, the loop puts exactly these requests
-- into the queue, in order, and ends with the pipe. One number of fuel for each request, and one for
-- the end, are enough.
pub serve_requests_in_order :
    (rs : List Request) (fuel : ℕ) (s : System) (mid rest : List ReadAnswer)
    → All IsRequest rs
    → length rs < fuel
    → Delivers s.reads (frames_all rs) mid
    → next_read mid ≡ some (got [], rest)
    → serve_requests true fuel s ≡ ok (rs, at_end) (record s { reads = rest })
unfolding serve_requests
serve_requests_in_order rs zero s mid rest v h d e = absurd (omega arith)
serve_requests_in_order [] (suc fuel) s mid rest v h d e =
    rw (try_read-got 1 s [] rest (omega arith) (ap next_read d ∙ e)) refl
serve_requests_in_order (r ∷ rs) (suc fuel) s mid rest (v, vs) h d e =
    let (m, d', d'') = Delivers-split s.reads (frames r) (frames_all rs) mid d in
    serve_one fuel r s m v d' rs (record s { reads = rest })
      (serve_requests_in_order rs fuel (record s { reads = m }) mid rest vs (omega arith) d'' e)
