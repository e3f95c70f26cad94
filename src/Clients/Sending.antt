-- ===== src/Clients/Sending.antt =====
-- The messages that a publisher sends.
use proj_so.Prelude.{
  ℕ, suc, ◌+◌, ◌-◌, ◌<◌, ◌≡◌, refl, sym, ap, ◌∙◌, false, List, [], ◌∷◌, ◌++◌, some, arith, leb,
  length, length-append, append_assoc, append-nil, take, drop, take-append_left, drop-append_left,
  replicate, ℤ, pos, M, ok, take_whole,
}
use proj_so.Fs.Memory.{strncpy_bytes}
use proj_so.Fs.Memory.Laws.{IsName, length-strncpy_bytes}
use proj_so.Wire.System.{
  System, WriteAnswer, wrote, next_write, Accepts, try_write-wrote, sys_close,
}
use proj_so.Wire.Text.{text_of, text_of-zeros, strncpy_bytes-short}
use proj_so.Wire.Request.{op_publisher}
use proj_so.Wire.Serve.{All}
use proj_so.Server.Publisher.{message_length}
use proj_so.Server.Sending.{to_pipe}
use proj_so.Clients.Publisher.{
  Input, line, with_line, cut_newline, message_of, send_message, publish_lines,
}

abbrev pub newline : ℕ
newline = b'\n'

-- A line of the input that fits a message with its newline.
abbrev pub IsLine : List ℕ → Type 0
IsLine t = IsName t × (length t + 1 < message_length)

abbrev pub lines_of : List (List ℕ) → List Input
lines_of [] = []
lines_of (t ∷ ts) = line (t ++ (newline ∷ [])) ∷ lines_of ts

-- The messages: the operation code, and the text with zeros behind it.
abbrev pub messages_of : List (List ℕ) → List (List ℕ)
messages_of [] = []
messages_of (t ∷ ts) = (op_publisher ∷ strncpy_bytes t message_length) ∷ messages_of ts

abbrev pub write_lengths : List (List ℕ) → List ℕ
write_lengths [] = []
write_lengths (t ∷ ts) = 1024 ∷ write_lengths ts

IsName-newline : (t : List ℕ) → IsName t → IsName (t ++ (newline ∷ []))
IsName-newline [] h = (omega arith, tt)
IsName-newline (c ∷ t) (p, h) = (p, IsName-newline t h)

message_of-line :
    (t : List ℕ)
    → IsLine t
    → message_of op_publisher (t ++ (newline ∷ [])) ≡ op_publisher ∷ strncpy_bytes t message_length
unfolding message_of
message_of-line t (name, fits) =
    let l : List ℕ = t ++ (newline ∷ []) in
    let n : length l ≡ length t + 1 = length-append t (newline ∷ []) in
    let zeros : List ℕ = replicate (message_length - length l) 0 in
    let text : text_of (with_line l) ≡ l =
      text_of-zeros l (message_length - length l) (IsName-newline t name) in
    let k : length (text_of (with_line l)) ≡ suc (length t) = ap length text ∙ n ∙ omega arith in
    let front : take (length t) (with_line l) ≡ t =
      ap (take (length t)) (append_assoc t (newline ∷ []) zeros)
      ∙ take-append_left (length t) t (newline ∷ zeros) refl in
    let back : drop (length t + 1) (with_line l) ≡ zeros =
      drop-append_left (length t + 1) l zeros n in
    let more : message_length - length t ≡ suc (message_length - length l) = omega arith in
    ap (cut_newline op_publisher (with_line l)) k
    ∙ rw (front, back) refl
    ∙ ap (λ (r : List ℕ). op_publisher ∷ (t ++ r)) (ap (λ (i : ℕ). replicate i 0) (sym more))
    ∙ ap (λ (r : List ℕ). op_publisher ∷ r)
        (sym (strncpy_bytes-short t message_length (omega arith)))

send_message-wrote :
    (pipe : ℤ) (message : List ℕ) (rest : M System ℤ) (s : System) (a : List WriteAnswer)
    → length message ≡ 1024
    → next_write s.writes ≡ some (wrote 1024, a)
    → send_message pipe message rest s
      ≡ rest (record s { writes = a; sent = s.sent ++ ((pipe, message) ∷ []) })
unfolding send_message
send_message-wrote pipe message rest s a n e =
    rw (try_write-wrote pipe message 1024 s a e) (rw (take_whole 1024 message (omega arith)) refl)

-- For lines of text that fit, with a pipe that takes all writes and closes, the publisher returns 0 at
-- the end of its input, and has sent for each line, in order, a message with the operation code, the
-- line without its newline, and zeros up to MESSAGE_LENGTH.
pub publisher_sends_lines :
    (pipe : ℤ) (ts : List (List ℕ)) (k : ℕ) (s : System) (rest : List WriteAnswer) (cs : List ℤ)
    → All IsLine ts
    → Accepts s.writes (write_lengths ts) rest
    → s.closes ≡ pos k ∷ cs
    → publish_lines pipe op_publisher (lines_of ts) s
      ≡ ok
          (pos 0)
          (record s { closes = cs; writes = rest; sent = s.sent ++ to_pipe pipe (messages_of ts) })
unfolding publish_lines sys_close
publisher_sends_lines pipe [] k s rest cs v d e = rw (e, append-nil s.sent, ← d) refl
publisher_sends_lines pipe (t ∷ ts) k s rest cs (v, vs) (a, e₁, d) e =
    let (name, fits) = v in
    let l : List ℕ = t ++ (newline ∷ []) in
    let n : length l ≡ length t + 1 = length-append t (newline ∷ []) in
    let short : leb message_length (length l) ≡ false = ground arith in
    let m : List ℕ = op_publisher ∷ strncpy_bytes t message_length in
    let m_length : length m ≡ 1024 = omega (arith, length-strncpy_bytes t message_length) in
    rw short (
      rw (message_of-line t v) (
        send_message-wrote pipe m (publish_lines pipe op_publisher (lines_of ts)) s a m_length e₁
        ∙ publisher_sends_lines pipe ts k
            (record s { writes = a; sent = s.sent ++ ((pipe, m) ∷ []) }) rest cs vs d e
        ∙ ap
            (λ (r : List (ℤ × List ℕ)).
              ok (pos 0) (record s { closes = cs; writes = rest; sent = r }))
            (append_assoc s.sent ((pipe, m) ∷ []) (to_pipe pipe (messages_of ts)))))
