-- ===== src/Clients/Subscriber.antt =====
-- The loop of main in subscriber/sub.c.
use proj_so.Prelude.{
  ℕ, zero, suc, List, [], ◌∷◌, none, some, ◌==◌, if◌then◌else◌, length, ℤ, pos, minus_one, M,
  blocks, ◌>>=◌, pure,
}
use proj_so.Wire.System.{System, try_read}
use proj_so.Wire.Text.{text_of}
use proj_so.Server.Publisher.{message_length, read_over}

-- What main returns, and the lines that it has printed.
abbrev pub printed_first : List ℕ → ℤ × List (List ℕ) → ℤ × List (List ℕ)
printed_first line (code, lines) = (code, line ∷ lines)

-- `while (true)`, with what `message` holds; one number of the fuel goes for each message.
unfoldable pub receive : ℕ → List ℕ → M System (ℤ × List (List ℕ))
receive zero message = λ _. blocks
receive (suc fuel) message = do
  op_code ← try_read 1
  elim op_code [
    | none ↦ pure (minus_one, [])
    | some code ↦ if length code == 0 then pure (pos 0, []) else (do
      answer ← try_read message_length
      elim answer [
        | none ↦ pure (minus_one, [])
        | some bytes ↦ if length bytes == 0 then pure (pos 0, []) else (do
          let message' = read_over bytes message
          later ← receive fuel message'
          pure (printed_first (text_of message') later))
      ])
  ]
