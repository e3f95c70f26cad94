-- ===== src/Wire/Roundtrip.antt =====
-- What a client encodes with parse_message, the broker decodes.
use proj_so.Prelude.{
  ℕ, ◌+◌, ◌%◌, ◌≤◌, ◌<◌, ◌≡◌, sym, ap, ap₂, ◌∙◌, inl, inr, true, List, [], ◌∷◌, ◌++◌, none, some,
  arith, length, get_or, get_or_of_ge, dec_lt, leb,
}
use proj_so.Fs.Memory.{Bytes, write_bytes, read_bytes, strncpy_bytes}
use proj_so.Fs.Memory.Laws.{
  write_bytes_in, write_bytes_out, read_bytes_of, read_bytes-add, read_bytes-SameFrom,
  write_bytes-SameFrom, get_or-strncpy_bytes, length-strncpy_bytes,
}
use proj_so.Wire.Request.{pipe_path_length, box_name_length, request_length, parse_message}

-- A field that a name was written into, where there were zeros before.
field_bytes :
    (m : Bytes) (at : ℕ) (name : List ℕ) (n : ℕ)
    → length name ≤ n
    → ((k : ℕ) → k < n → m (at + k) ≡ get_or name k 0)
    → read_bytes m at n ≡ strncpy_bytes name n
field_bytes m at name n h bytes =
    ap (read_bytes m at) (sym (length-strncpy_bytes name n))
    ∙ read_bytes_of m at (strncpy_bytes name n) (λ k q.
      let p : k < n = omega (arith, length-strncpy_bytes name n) in
      bytes k p ∙ sym (get_or-strncpy_bytes name n k p))

-- The byte `k` of a field, where there is zero behind the name.
field_byte :
    (m : Bytes) (at : ℕ) (name : List ℕ) (k : ℕ)
    → (length name ≤ k → m (at + k) ≡ 0)
    → write_bytes m at name (at + k) ≡ get_or name k 0
field_byte m at name k zeros = elim (dec_lt k (length name)) [
  | yes inside ↦ write_bytes_in m at name k inside
  | no outside ↦
      write_bytes_out m at name (at + k) (inr (omega arith))
      ∙ zeros (omega arith)
      ∙ sym (get_or_of_ge name k 0 (omega arith))
]

module _ (op : ℕ) (pipename name : List ℕ) (p : length pipename ≤ pipe_path_length)
    (q : length name ≤ box_name_length) where
  abbrev opened : Bytes
  opened = write_bytes (λ _. 0) 0 ((op % 256) ∷ [])

  abbrev with_pipe : Bytes
  with_pipe = write_bytes opened 1 pipename

  abbrev with_box : Bytes
  with_box = write_bytes with_pipe 256 name

  opened_byte : (a : ℕ) → 0 < a → opened a ≡ 0
  opened_byte a h = write_bytes_out (λ _. 0) 0 ((op % 256) ∷ []) a (inr (omega arith))

  pipe_byte : (k : ℕ) → with_pipe (1 + k) ≡ get_or pipename k 0
  pipe_byte k = field_byte opened 1 pipename k (λ _. opened_byte (1 + k) (omega arith))

  box_byte : (k : ℕ) → with_box (256 + k) ≡ get_or name k 0
  box_byte k = field_byte with_pipe 256 name k (λ _.
      write_bytes_out opened 1 pipename (256 + k) (inr (omega arith))
      ∙ opened_byte (256 + k) (omega arith))

  first_byte : read_bytes with_pipe 0 1 ≡ (op % 256) ∷ []
  first_byte = read_bytes_of with_pipe 0 ((op % 256) ∷ []) (λ k h.
      write_bytes_out opened 1 pipename (0 + k) (inl (omega arith))
      ∙ write_bytes_in (λ _. 0) 0 ((op % 256) ∷ []) k h)

  -- The 256 bytes that every request has.
  pub head_bytes : read_bytes with_pipe 0 256 ≡ (op % 256) ∷ strncpy_bytes pipename pipe_path_length
  head_bytes =
      read_bytes-add with_pipe 0 1 255
      ∙ ap₂ ◌++◌ first_byte (field_bytes with_pipe 1 pipename 255 p (λ k h. pipe_byte k))

  all_bytes :
      read_bytes with_box 0 request_length
      ≡ ((op % 256) ∷ strncpy_bytes pipename pipe_path_length) ++ strncpy_bytes name box_name_length
  all_bytes =
      read_bytes-add with_box 0 256 31
      ∙ ap₂ ◌++◌
          (read_bytes-SameFrom with_box with_pipe 0 256
              (write_bytes-SameFrom with_pipe 256 name 0 256 (inl (omega arith)))
            ∙ head_bytes)
          (field_bytes with_box 256 name 31 q (λ k h. box_byte k))

  -- The buffer of parse_message: the code, the pipe's field and the box's.
  pub parse_message-fields :
      parse_message true op pipename (some name)
      ≡ some (
          ((op % 256) ∷ strncpy_bytes pipename pipe_path_length)
          ++ strncpy_bytes name box_name_length)
  unfolding parse_message
  parse_message-fields =
      let e : leb (1 + length pipename) request_length ≡ true = ground arith in
      let e' : leb (256 + length name) request_length ≡ true = ground arith in
      rw e (rw e' (ap some all_bytes))

  tail_bytes : read_bytes with_pipe 256 31 ≡ strncpy_bytes [] 31
  tail_bytes = field_bytes with_pipe 256 [] 31 (omega arith) (λ k h.
      write_bytes_out opened 1 pipename (256 + k) (inr (omega arith))
      ∙ opened_byte (256 + k) (omega arith))

  pub parse_message-list :
      parse_message true op pipename none
      ≡ some (((op % 256) ∷ strncpy_bytes pipename pipe_path_length) ++ strncpy_bytes [] 31)
  unfolding parse_message
  parse_message-list =
      let e : leb (1 + length pipename) request_length ≡ true = ground arith in
      rw e (ap some (read_bytes-add with_pipe 0 256 31 ∙ ap₂ ◌++◌ head_bytes tail_bytes))
