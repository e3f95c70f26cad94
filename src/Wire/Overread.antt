-- ===== src/Wire/Overread.antt =====
-- A box name of BOX_NAME_LENGTH bytes.
use proj_so.Prelude.{
  ℕ, ◌≤◌, ◌<◌, ◌≡◌, ◌≢◌, refl, subst, true, false, List, some, arith, ltb, ◌==◌, length, drop,
  fault,
}
use proj_so.Fs.Memory.{strncpy_bytes}
use proj_so.Fs.Memory.Laws.{IsName, length-strncpy_bytes}
use proj_so.Wire.System.{System, ReadAnswer, Delivers, try_read-got, read_pipe}
use proj_so.Wire.Text.{c_string-strncpy_bytes, c_string-strncpy_bytes_full}
use proj_so.Wire.Request.{
  pipe_path_length, box_name_length, op_list_boxes, named, parse_message, parser,
}
use proj_so.Wire.Serve.{frames_of, frames-named}

-- A request for a box whose name has all 31 bytes that BOX_NAME_LENGTH allows makes parser read
-- behind its buffer: parse_message leaves no terminator in the field, and strncpy looks for one.
pub full_name_overreads :
    (op : ℕ) (pipename name : List ℕ) (s : System) (rest : List ReadAnswer)
    → op ≤ 7
    → op ≢ op_list_boxes
    → IsName pipename
    → length pipename < pipe_path_length
    → IsName name
    → length name ≡ box_name_length
    → Delivers s.reads (drop 1 (frames_of op (parse_message true op pipename (some name)))) rest
    → parser true op s ≡ fault
unfolding parser read_pipe
full_name_overreads op pipename name s rest q other is_pipe p is_name full d =
    let small : ltb 7 op ≡ false = ground arith in
    let o : (op == op_list_boxes) ≡ false = ground arith in
    let (after, e, (after', e', _)) =
      subst (λ (f : List (List ℕ)). Delivers s.reads (drop 1 f) rest)
        (frames-named op pipename name q other p (omega arith)) d in
    rw
      (
        small,
        try_read-got pipe_path_length s (strncpy_bytes pipename pipe_path_length) after
            (omega (arith, length-strncpy_bytes pipename pipe_path_length)) e,
      )
      (rw (length-strncpy_bytes pipename pipe_path_length) (
        rw (c_string-strncpy_bytes pipename pipe_path_length is_pipe p, named)
          (rw o (
            rw
              (try_read-got box_name_length (record s { reads = after })
                (strncpy_bytes name box_name_length) after'
                (omega (arith, length-strncpy_bytes name box_name_length)) e')
              (rw (length-strncpy_bytes name box_name_length) (
                rw (c_string-strncpy_bytes_full name box_name_length is_name full, named) refl))))))
