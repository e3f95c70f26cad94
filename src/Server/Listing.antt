-- ===== src/Server/Listing.antt =====
-- handle_tfs_list_boxes of mbroker/mbroker.c.
use proj_so.Prelude.{
  ℕ, zero, suc, ◌+◌, Bool, true, false, not, ◌&&◌, List, [], ◌∷◌, ◌++◌, if◌then◌else◌, ℤ, pos,
  minus_one, is_nonneg, is_zero, is_minus_one, M, ◌>>=◌, ◌>>◌, pure, gets,
}
use proj_so.Fs.Memory.{strncpy_bytes}
use proj_so.Wire.System.{sys_open}
use proj_so.Wire.Numbers.{u64_bytes}
use proj_so.Wire.Request.{box_name_length, op_list_boxes_answer}
use proj_so.Broker.Boxes.{Box, max_boxes}
use proj_so.Server.State.{Calls, Server, on_system, set_client, box_of, equals, write_pipe}
use proj_so.Server.Session.{finish_client_session}

-- The field of a box name: the name with zeros behind it, and of an emptied name the terminator and
-- what the slot held before.
abbrev pub name_field : List ℕ → List ℕ → List ℕ
name_field stale [] = strncpy_bytes (0 ∷ stale) box_name_length
name_field stale name = strncpy_bytes name box_name_length

-- The numbers of a box.
abbrev pub counters : Box → List ℕ
counters box = u64_bytes box.box_size ++ (u64_bytes box.n_publishers ++ u64_bytes box.n_subscribers)

abbrev pub flag : Bool → ℕ
flag last = if last then 1 else 0

-- What goes into the pipe for one box, and for no box.
abbrev pub box_frame : List ℕ → Bool → Box → List ℕ
box_frame stale last box =
    op_list_boxes_answer ∷ flag last ∷ (name_field stale box.box_name ++ counters box)

abbrev pub empty_frame : List ℕ → Bool → Box → List ℕ
empty_frame stale last box = op_list_boxes_answer ∷ flag last ∷ name_field stale box.box_name

-- `while (i < MAX_BOXES)` from slot `i` on, for the slots that are left; the result is false where
-- write_pipe returns -1.
unfoldable pub list_slots : Calls → ℤ → ℕ → ℕ → ℕ → Bool → M Server Bool
list_slots calls pipe zero i count last = pure true
list_slots calls pipe (suc left) i count last = do
  num ← gets (λ s. s.broker.num_boxes)
  unused ← gets (λ s. s.broker.free_boxes i)
  let skipped = list_slots calls pipe left (i + 1) count last
  let last' = if equals num (count + 1) then true else last
  let sent = list_slots calls pipe left (i + 1) (count + 1) last'
  if unused && not (is_zero num) then skipped else (do
    box ← box_of i
    write_pipe false pipe
        (if is_zero num
          then empty_frame (calls.stale i) last' box
          else box_frame (calls.stale i) last' box)
        sent)

unfoldable pub handle_tfs_list_boxes : Calls → ℕ → M Server ℤ
handle_tfs_list_boxes calls c = do
  pipe ← on_system sys_open
  if not (is_nonneg pipe) then pure minus_one else (do
    set_client c (λ k. record k { client_pipe = pipe })
    num ← gets (λ s. s.broker.num_boxes)
    complete ← list_slots calls pipe max_boxes 0 0 (is_zero num)
    if not complete then pure minus_one else (do
      code ← finish_client_session c
      if is_minus_one code then pure minus_one else pure (pos 0)))
