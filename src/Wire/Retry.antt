-- ===== src/Wire/Retry.antt =====
-- The loop of try_read in utils/common.c, and a single read without interruptions.
use proj_so.Prelude.{ℕ, ◌≡◌, refl, List, [], ◌∷◌, Option, Outcome, M, ok, panic, fault, blocks}
use proj_so.Wire.System.{System, ReadAnswer, got, next_read, bytes_of, try_read}

-- The answers that are not interruptions, in order.
abbrev pub settled : List ReadAnswer → List ReadAnswer
settled [] = []
settled (ReadAnswer.interrupted ∷ rest) = settled rest
settled (got bytes ∷ rest) = got bytes ∷ settled rest
settled (ReadAnswer.failed ∷ rest) = ReadAnswer.failed ∷ settled rest

abbrev pub quiet : System → System
quiet s = record s { reads = settled s.reads }

abbrev pub quietly : {A : Type 0} → Outcome System A → Outcome System A
quietly (ok a s) = ok a (quiet s)
quietly panic = panic
quietly fault = fault
quietly blocks = blocks

-- One call of `read`.
abbrev pub read_once : ℕ → M System (Option (List ℕ))
read_once count s = elim s.reads [
  | [] ↦ blocks
  | answer ∷ rest ↦ ok (bytes_of count answer) (record s { reads = rest })
]

quiet_reads :
    (count : ℕ) (s : System) (reads : List ReadAnswer)
    → quietly (try_read count (record s { reads = reads }))
      ≡ read_once count (record s { reads = settled reads })
unfolding try_read next_read
quiet_reads count s [] = refl
quiet_reads count s (got bytes ∷ rest) = refl
quiet_reads count s (ReadAnswer.interrupted ∷ rest) = quiet_reads count s rest
quiet_reads count s (ReadAnswer.failed ∷ rest) = refl

-- try_read, whatever interruptions come, is one read in a system without interruptions: the same
-- result, the same answers left, and it waits for ever only when that read does.
pub try_read-read_once :
    (count : ℕ) (s : System) → quietly (try_read count s) ≡ read_once count (quiet s)
try_read-read_once count s = quiet_reads count s s.reads
