-- ===== src/Server/Sending.antt =====
-- What write_pipe does when the pipe takes the whole buffer.
use proj_so.Prelude.{
  ℕ, ◌≡◌, refl, ap, ◌∙◌, true, List, [], ◌∷◌, ◌++◌, some, arith, length, take_whole, map, ℤ, pos, M,
  ok, append_assoc, append-nil,
}
use proj_so.Wire.System.{WriteAnswer, wrote, next_write, broken, try_write, try_write-wrote}
use proj_so.Server.State.{Server, equals, write_pipe}

-- Buffers with the pipe that they went into.
abbrev pub to_pipe : ℤ → List (List ℕ) → List (ℤ × List ℕ)
to_pipe fd [] = []
to_pipe fd (b ∷ bs) = (fd, b) ∷ to_pipe fd bs

-- The state after these buffers went into a pipe, with the answers of write that are left.
abbrev pub after_sending : Server → ℤ → List (List ℕ) → List WriteAnswer → Server
after_sending s fd buffers rest = record s {
  system = record s.system { writes = rest; sent = s.system.sent ++ to_pipe fd buffers };
}

pub equals_refl : (n : ℕ) → equals (pos n) n ≡ true
equals_refl n = ground arith

pub write_pipe-wrote :
    {A : Type 0} (failure : A) (fd : ℤ) (buffer : List ℕ) (rest : M Server A) (s : Server)
    (after : List WriteAnswer)
    → next_write s.system.writes ≡ some (wrote (length buffer), after)
    → write_pipe failure fd buffer rest s ≡ rest (after_sending s fd (buffer ∷ []) after)
unfolding write_pipe
write_pipe-wrote failure fd buffer rest s after e =
    rw (try_write-wrote fd buffer (length buffer) s.system after e)
      (rw (equals_refl (length buffer), take_whole (length buffer) buffer (omega arith)) refl)

-- To send some buffers and then others is to send all.
to_pipe-append :
    (fd : ℤ) (xs ys : List (List ℕ))
    → to_pipe fd xs ++ to_pipe fd ys ≡ map (λ (b : List ℕ). (fd, b)) (xs ++ ys)
to_pipe-append fd [] ys = refl
to_pipe-append fd (x ∷ xs) ys = ap (λ r. (fd, x) ∷ r) (to_pipe-append fd xs ys)

pub after_sending-append :
    (s : Server) (fd : ℤ) (xs ys : List (List ℕ)) (mid rest : List WriteAnswer)
    → after_sending (after_sending s fd xs mid) fd ys rest ≡ after_sending s fd (xs ++ ys) rest
after_sending-append s fd xs ys mid rest =
    ap
      (λ (sent : List (ℤ × List ℕ)). record s {
        system = record s.system { writes = rest; sent = sent };
      })
      (append_assoc s.system.sent (to_pipe fd xs) (to_pipe fd ys)
        ∙ ap (λ r. s.system.sent ++ r) (to_pipe-append fd xs ys))

-- A pipe that nobody reads any more.
pub write_pipe-broken :
    {A : Type 0} (failure : A) (fd : ℤ) (buffer : List ℕ) (rest : M Server A) (s : Server)
    (after : List WriteAnswer)
    → next_write s.system.writes ≡ some (broken, after)
    → write_pipe failure fd buffer rest s ≡ ok failure (after_sending s fd [] after)
unfolding write_pipe try_write
write_pipe-broken failure fd buffer rest s after e =
    rw (e, try_write) (rw (append-nil s.system.sent) refl)
