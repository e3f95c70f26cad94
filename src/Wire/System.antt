-- ===== src/Wire/System.antt =====
-- The calls of the operating system, which are not part of the program: the results that they give
-- are lists in the state, one for each kind of call, and a call whose list is empty never returns. No
-- list looks at the descriptor: what `read` gives after a `close` is up to the list.
-- try_read, try_write and the macros read_pipe, write_pipe and safe_close of utils/ stand over them.
use proj_so.Prelude.{
  ℕ, ◌≡◌, refl, Bool, true, false, List, [], ◌∷◌, ◌++◌, Option, none, some, ◌==◌, if◌then◌else◌,
  length, take, take_whole, ◌≤◌, ℤ, pos, minus_one, M, ok, blocks, ◌>>=◌, pure, arith,
}

-- What `read` gives: the bytes that it puts into the buffer, or -1 with or without EINTR.
pub data ReadAnswer : Type 0 where
  got : List ℕ → ReadAnswer
  interrupted : ReadAnswer
  failed : ReadAnswer

-- What `write` gives: the number of bytes that it has taken, or -1 with EINTR, EPIPE or another
-- error.
pub data WriteAnswer : Type 0 where
  wrote : ℕ → WriteAnswer
  interrupted : WriteAnswer
  broken : WriteAnswer
  failed : WriteAnswer

-- The results to come of open, close, read and write, and what went into which pipe.
pub record System : Type 0 where
  pub opens : List ℤ
  pub closes : List ℤ
  pub reads : List ReadAnswer
  pub writes : List WriteAnswer
  pub sent : List (ℤ × List ℕ)

-- `do { ... } while (bytes < 0 && errno == EINTR)`
unfoldable pub next_read : List ReadAnswer → Option (ReadAnswer × List ReadAnswer)
next_read [] = none
next_read (got bytes ∷ rest) = some (got bytes, rest)
next_read (ReadAnswer.interrupted ∷ rest) = next_read rest
next_read (ReadAnswer.failed ∷ rest) = some (ReadAnswer.failed, rest)

unfoldable pub next_write : List WriteAnswer → Option (WriteAnswer × List WriteAnswer)
next_write [] = none
next_write (wrote n ∷ rest) = some (wrote n, rest)
next_write (WriteAnswer.interrupted ∷ rest) = next_write rest
next_write (broken ∷ rest) = some (broken, rest)
next_write (WriteAnswer.failed ∷ rest) = some (WriteAnswer.failed, rest)

-- What try_read returns: the bytes that were read, at most `count` of them, or `none` for -1.
abbrev pub bytes_of : ℕ → ReadAnswer → Option (List ℕ)
bytes_of count (got bytes) = some (take count bytes)
bytes_of count _ = none

-- What try_write returns, and whether errno is EPIPE then.
abbrev pub code_of : WriteAnswer → ℤ × Bool
code_of (wrote n) = (pos n, false)
code_of broken = (minus_one, true)
code_of _ = (minus_one, false)

-- The bytes that went out.
abbrev pub taken_of : ℤ → List ℕ → WriteAnswer → List (ℤ × List ℕ)
taken_of fd buffer (wrote n) = (fd, take n buffer) ∷ []
taken_of fd buffer _ = []

unfoldable pub try_read : ℕ → M System (Option (List ℕ))
try_read count s = elim (next_read s.reads) [
  | none ↦ blocks
  | some (answer, rest) ↦ ok (bytes_of count answer) (record s { reads = rest })
]

unfoldable pub try_write : ℤ → List ℕ → M System (ℤ × Bool)
try_write fd buffer s = elim (next_write s.writes) [
  | none ↦ blocks
  | some (answer, rest) ↦
      ok (code_of answer) (record s { writes = rest; sent = s.sent ++ taken_of fd buffer answer })
]

unfoldable pub sys_open : M System ℤ
sys_open s = elim s.opens [ [] ↦ blocks | fd ∷ rest ↦ ok fd (record s { opens = rest }) ]

unfoldable pub sys_close : M System ℤ
sys_close s = elim s.closes [ [] ↦ blocks | code ∷ rest ↦ ok code (record s { closes = rest }) ]

-- `read_pipe`: unless all `size` bytes were read, the function that uses it returns `failure`.
unfoldable pub read_pipe : {A : Type 0} → A → ℕ → (List ℕ → M System A) → M System A
read_pipe failure size rest = do
  answer ← try_read size
  elim answer [
    | none ↦ pure failure
    | some bytes ↦ if length bytes == size then rest bytes else pure failure
  ]

-- The next reads give these bytes, one after the other, with any interruptions between them.
abbrev pub Delivers : List ReadAnswer → List (List ℕ) → List ReadAnswer → Type 0
Delivers answers [] rest = answers ≡ rest
Delivers answers (bytes ∷ chunks) rest =
    (after : List ReadAnswer) × (next_read answers ≡ some (got bytes, after))
    × Delivers after chunks rest

-- The next writes take these numbers of bytes, likewise.
abbrev pub Accepts : List WriteAnswer → List ℕ → List WriteAnswer → Type 0
Accepts answers [] rest = answers ≡ rest
Accepts answers (n ∷ counts) rest =
    (after : List WriteAnswer) × (next_write answers ≡ some (wrote n, after))
    × Accepts after counts rest

pub Delivers-append :
    (answers : List ReadAnswer) (xs ys : List (List ℕ)) (mid rest : List ReadAnswer)
    → Delivers answers xs mid
    → Delivers mid ys rest
    → Delivers answers (xs ++ ys) rest
Delivers-append answers [] ys mid rest e d = rw e d
Delivers-append answers (x ∷ xs) ys mid rest (after, e, d) d' =
    (after, e, Delivers-append after xs ys mid rest d d')

pub try_read-got :
    (size : ℕ) (s : System) (bytes : List ℕ) (after : List ReadAnswer)
    → length bytes ≤ size
    → next_read s.reads ≡ some (got bytes, after)
    → try_read size s ≡ ok (some bytes) (record s { reads = after })
unfolding try_read
try_read-got size s bytes after fits e = rw (e, try_read) (rw (take_whole size bytes fits) refl)

pub try_write-wrote :
    (fd : ℤ) (buffer : List ℕ) (n : ℕ) (s : System) (after : List WriteAnswer)
    → next_write s.writes ≡ some (wrote n, after)
    → try_write fd buffer s
      ≡ ok (pos n, false) (record s { writes = after; sent = s.sent ++ ((fd, take n buffer) ∷ []) })
unfolding try_write
try_write-wrote fd buffer n s after e = rw (e, try_write) refl

pub read_pipe-got :
    {A : Type 0} (failure : A) (size : ℕ) (rest : List ℕ → M System A) (s : System) (bytes : List ℕ)
    (after : List ReadAnswer)
    → length bytes ≡ size
    → next_read s.reads ≡ some (got bytes, after)
    → read_pipe failure size rest s ≡ rest bytes (record s { reads = after })
unfolding read_pipe
read_pipe-got failure size rest s bytes after h e =
    let full : (length bytes == size) ≡ true = ground arith in
    rw (try_read-got size s bytes after (omega arith) e) (rw full refl)
