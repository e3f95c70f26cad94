-- ===== src/Clients/Printing.antt =====
-- The lines that a subscriber prints.
use proj_so.Prelude.{
  ℕ, zero, suc, ◌<◌, ◌≡◌, refl, ap, ◌∙◌, false, List, [], ◌∷◌, some, arith, ◌==◌, length, pos, ok,
}
use proj_so.Fs.Memory.{strncpy_bytes}
use proj_so.Fs.Memory.Laws.{length-strncpy_bytes}
use proj_so.Wire.System.{System, ReadAnswer, got, next_read, Delivers, try_read-got}
use proj_so.Wire.Text.{text_of-strncpy_bytes}
use proj_so.Wire.Request.{op_subscriber}
use proj_so.Wire.Serve.{All}
use proj_so.Server.Publisher.{message_length}
use proj_so.Server.Publishing.{IsFull, whole_buffer}
use proj_so.Server.CatchUp.{IsText, subscriber_frames}
use proj_so.Clients.Subscriber.{receive}

-- When the broker's messages for some texts come over the subscriber's pipe, in order, with any
-- interruptions between the reads, and then the pipe ends, the subscriber prints these texts, in order,
-- and returns 0. One number of fuel for each text, and one for the end, are enough.
pub subscriber_prints_texts :
    (ts : List (List ℕ)) (fuel : ℕ) (message : List ℕ) (s : System) (mid rest : List ReadAnswer)
    → All IsText ts
    → IsFull message
    → length ts < fuel
    → Delivers s.reads (subscriber_frames ts) mid
    → next_read mid ≡ some (got [], rest)
    → receive fuel message s ≡ ok (pos 0, ts) (record s { reads = rest })
unfolding receive
subscriber_prints_texts ts zero message s mid rest v full h d e = absurd (omega arith)
subscriber_prints_texts [] (suc fuel) message s mid rest v full h d e =
    rw (try_read-got 1 s [] rest (omega arith) (ap next_read d ∙ e)) refl
subscriber_prints_texts (t ∷ ts) (suc fuel) message s mid rest ((v, short), vs) full h
      (a, e₁, (a', e₂, d)) e =
    let m = strncpy_bytes t message_length in
    let n : IsFull m = length-strncpy_bytes t message_length in
    let some_bytes : (length m == 0) ≡ false = ground arith in
    let later =
      subscriber_prints_texts ts fuel m (record s { reads = a' }) mid rest vs n (omega arith) d e in
    rw (try_read-got 1 s (op_subscriber ∷ []) a (omega arith) e₁) (
      rw (try_read-got message_length (record s { reads = a }) m a' (omega arith) e₂) (
        rw some_bytes (
          rw (whole_buffer m message n full)
            (rw later (rw (text_of-strncpy_bytes t message_length v short) refl)))))
