-- ===== src/Fs/Tests/Idle.antt =====
-- A file system with an empty file, and no open handle.
use proj_so.Prelude.{◌≡◌, refl, inr, [], pos, arith}
use proj_so.Fs.Memory.{read_bytes}
use proj_so.Fs.State.{Tfs}
use proj_so.Fs.Invariant.{contents}
use proj_so.Fs.Handles.{closed, closed-IsValid}
use proj_so.Fs.Append.{Supply, IsStored}
use proj_so.Fs.Tests.{
  with_a, with_a-IsValid, with_a-lookup, with_a-room, name_a, name_a-IsFileName, started-IsEmpty,
}

abbrev pub idle_a : Tfs
idle_a = closed with_a 0

two_handles : Supply 2 idle_a.free_open_file_entries 2
two_handles = (
  0,
  record { below = omega arith; passes = refl; first = λ j q. absurd (omega arith) },
  (
    1,
    record {
      below = omega arith;
      passes = started-IsEmpty.handles 1 (omega arith);
      first = λ j q. ground arith;
    },
    tt,
  ),
)

empty : contents idle_a 1 ≡ []
unfolding read_bytes
empty = refl

pub idle_a-IsStored : IsStored idle_a name_a (pos 1) [] 2
idle_a-IsStored = record {
  valid = closed-IsValid with_a 0 with_a-IsValid;
  unlocked = refl;
  name_ok = name_a-IsFileName;
  there = with_a-lookup;
  holds = empty;
  block = inr (1, with_a-room);
  handles = two_handles;
}
