-- ===== src/Server/CatchUp.antt =====
-- What a subscriber gets from handle_messages_until_now.
use proj_so.Prelude.{
  ℕ, zero, suc, ◌+◌, ◌≤◌, ◌≡◌, refl, sym, ap, ◌∙◌, true, false, List, [], ◌∷◌, ◌++◌, some, arith,
  ltb, length, length-append, append_assoc, append-nil, drop, drop-append_left, ℤ, ok,
}
use proj_so.Fs.Memory.{strncpy_bytes}
use proj_so.Fs.Memory.Laws.{IsName, length-strncpy_bytes}
use proj_so.Wire.System.{WriteAnswer, Accepts}
use proj_so.Wire.Text.{c_string, c_string-terminated}
use proj_so.Wire.Request.{op_subscriber}
use proj_so.Wire.Serve.{All}
use proj_so.Server.State.{Server}
use proj_so.Server.Sending.{after_sending, write_pipe-wrote, after_sending-append}
use proj_so.Server.Publisher.{message_length}
use proj_so.Server.Subscriber.{send_strings}

-- A text that a message can hold.
abbrev pub IsText : List ℕ → Type 0
IsText t = IsName t × (length t ≤ message_length)

-- The texts in a file, each with its terminator.
abbrev pub joined : List (List ℕ) → List ℕ
joined [] = []
joined (t ∷ ts) = t ++ (0 ∷ joined ts)

-- The buffers in which a subscriber gets them, and their lengths.
abbrev pub subscriber_frames : List (List ℕ) → List (List ℕ)
subscriber_frames [] = []
subscriber_frames (t ∷ ts) =
    (op_subscriber ∷ []) ∷ strncpy_bytes t message_length ∷ subscriber_frames ts

abbrev pub frame_lengths : List (List ℕ) → List ℕ
frame_lengths [] = []
frame_lengths (t ∷ ts) = 1 ∷ message_length ∷ frame_lengths ts

module _ (pipe : ℤ) where
  -- One text at the start of what was read.
  send_one :
      (fuel : ℕ) (t more all : List ℕ) (s : Server) (a' : List WriteAnswer)
      → IsText t
      → all ≡ t ++ (0 ∷ more)
      → Accepts s.system.writes (1 ∷ message_length ∷ []) a'
      → send_strings pipe (suc fuel) all s
        ≡ send_strings pipe fuel more
            (after_sending s pipe ((op_subscriber ∷ []) ∷ strncpy_bytes t message_length ∷ []) a')
  unfolding send_strings
  send_one fuel t more [] s a' v e d =
      absurd (omega (arith, ap length e, length-append t (0 ∷ more)))
  send_one fuel t more (b ∷ bs) s a' (v, short) e (a₁, e₁, (a₂, e₂, e₃)) =
      let found : c_string (b ∷ bs) ≡ some t = ap c_string e ∙ c_string-terminated t more v in
      let fits : ltb message_length (length t) ≡ false = ground arith in
      let tail : drop (length t + 1) (b ∷ bs) ≡ more =
        ap (drop (length t + 1)) (e ∙ sym (append_assoc t (0 ∷ []) more))
        ∙ drop-append_left (length t + 1) (t ++ (0 ∷ [])) more (length-append t (0 ∷ [])) in
      let frame = strncpy_bytes t message_length in
      let s₁ : Server = after_sending s pipe ((op_subscriber ∷ []) ∷ []) a₁ in
      rw (found, send_strings)
        (rw (fits, tail)
          (write_pipe-wrote false pipe (op_subscriber ∷ []) _ s a₁ e₁
            ∙ write_pipe-wrote false pipe frame _ s₁ a'
                (e₂ ∙ rw (e₃, length-strncpy_bytes t message_length) refl)
            ∙ ap (send_strings pipe fuel more)
                (after_sending-append s pipe ((op_subscriber ∷ []) ∷ []) (frame ∷ []) a₁ a')))

  pub send_strings-sends :
      (ts : List (List ℕ)) (fuel : ℕ) (s : Server) (rest : List WriteAnswer)
      → All IsText ts
      → length ts ≤ fuel
      → Accepts s.system.writes (frame_lengths ts) rest
      → send_strings pipe fuel (joined ts) s
        ≡ ok true (after_sending s pipe (subscriber_frames ts) rest)
  unfolding send_strings
  send_strings-sends [] zero s rest v h d = rw (append-nil s.system.sent, ← d) refl
  send_strings-sends [] (suc fuel) s rest v h d = rw (append-nil s.system.sent, ← d) refl
  send_strings-sends (t ∷ ts) zero s rest v h d = absurd (omega arith)
  send_strings-sends (t ∷ ts) (suc fuel) s rest (v, vs) h (a, e, (a', e', d)) =
      let frame = strncpy_bytes t message_length in
      let s₁ : Server = after_sending s pipe ((op_subscriber ∷ []) ∷ frame ∷ []) a' in
      send_one fuel t (joined ts) (joined (t ∷ ts)) s a' v refl (a, e, (a', e', refl))
      ∙ send_strings-sends ts fuel s₁ rest vs (omega arith) d
      ∙ ap (ok true) (
          after_sending-append s pipe ((op_subscriber ∷ []) ∷ frame ∷ []) (subscriber_frames ts) a'
            rest)

pub length-joined : (ts : List (List ℕ)) → length ts ≤ length (joined ts)
length-joined [] = omega arith
length-joined (t ∷ ts) = omega (arith, length-append t (0 ∷ joined ts), length-joined ts)
