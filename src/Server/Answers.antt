-- ===== src/Server/Answers.antt =====
-- The answers to the requests that create and remove a box.
use proj_so.Prelude.{ℕ, ◌≡◌, sym, ap, ◌∙◌, List, [], ◌∷◌, some, ℤ, minus_one, of_int, M}
use proj_so.Fs.Memory.{strncpy_bytes}
use proj_so.Fs.Memory.Laws.{length-strncpy_bytes}
use proj_so.Wire.System.{WriteAnswer, wrote, Accepts}
use proj_so.Wire.Numbers.{le_bytes, length-le_bytes}
use proj_so.Server.State.{Server}
use proj_so.Server.Sending.{after_sending, write_pipe-wrote, after_sending-append}
use proj_so.Server.Publisher.{message_length}
use proj_so.Server.Requests.{Answer, write_answer}

-- The three buffers of an answer.
abbrev pub answer_frames : ℕ → Answer → List (List ℕ)
answer_frames op_code answer =
    (op_code ∷ [])
    ∷ le_bytes 4 (of_int answer.return_code)
    ∷ strncpy_bytes answer.error_msg message_length
    ∷ []

abbrev pub answer_lengths : List ℕ
answer_lengths = 1 ∷ 4 ∷ message_length ∷ []

pub write_answer-wrote :
    (pipe : ℤ) (op_code : ℕ) (answer : Answer) (next : M Server ℤ) (s : Server)
    (rest : List WriteAnswer)
    → Accepts s.system.writes answer_lengths rest
    → write_answer pipe op_code answer next s
      ≡ next (after_sending s pipe (answer_frames op_code answer) rest)
write_answer-wrote pipe op_code answer next s rest (a, e, (a', e', (a'', e'', e₃))) =
    let code : List ℕ = le_bytes 4 (of_int answer.return_code) in
    let text : List ℕ = strncpy_bytes answer.error_msg message_length in
    let n = length-le_bytes 4 (of_int answer.return_code) in
    let n' = length-strncpy_bytes answer.error_msg message_length in
    let s₁ : Server = after_sending s pipe ((op_code ∷ []) ∷ []) a in
    let s₂ : Server = after_sending s₁ pipe (code ∷ []) a' in
    write_pipe-wrote minus_one pipe (op_code ∷ []) _ s a e
    ∙ write_pipe-wrote minus_one pipe code _ s₁ a' (e' ∙ ap (λ (k : ℕ). some (wrote k, a')) (sym n))
    ∙ write_pipe-wrote minus_one pipe text next s₂ rest
        (e'' ∙ rw (e₃) (ap (λ (k : ℕ). some (wrote k, rest)) (sym n')))
    ∙ ap next (
        ap (λ (t : Server). after_sending t pipe (text ∷ []) rest)
          (after_sending-append s pipe ((op_code ∷ []) ∷ []) (code ∷ []) a a')
        ∙ after_sending-append s pipe ((op_code ∷ []) ∷ code ∷ []) (text ∷ []) a' rest)
