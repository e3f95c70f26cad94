-- ===== src/Server/Session.antt =====
-- finish_client_session of mbroker/mbroker.c.
use proj_so.Prelude.{
  ℕ, ◌&&◌, not, [], none, some, ◌==◌, if◌then◌else◌, ℤ, pos, minus_one, is_minus_one, sub_size, M,
  ◌>>=◌, ◌>>◌, pure,
}
use proj_so.Broker.Boxes.{Box}
use proj_so.Wire.Request.{op_regist_pub, op_regist_sub, op_list_boxes}
use proj_so.Server.State.{Client, Server, client_of, set_client, set_box, safe_close}

-- The counter of the box that the client leaves.
abbrev pub left_box : ℕ → Box → Box
left_box opcode box =
    if opcode == op_regist_pub
    then record box { n_publishers = sub_size box.n_publishers 1 }
    else if opcode == op_regist_sub
    then record box { n_subscribers = sub_size box.n_subscribers 1 }
    else box

abbrev pub leave_box : Client → M Server (Unit {0})
leave_box client = elim client.box [ none ↦ pure tt | some b ↦ set_box b (left_box client.opcode) ]

abbrev pub finished : Client → Client
finished client = record client {
  box_name = [];
  client_pipename = [];
  box = none;
  box_fd = minus_one;
}

unfoldable pub finish_client_session : ℕ → M Server ℤ
finish_client_session c = do
  client ← client_of c
  safe_close minus_one client.client_pipe (
      if not (client.opcode == op_list_boxes) && is_minus_one client.box_fd
      then pure minus_one
      else (do leave_box client; set_client c finished; pure (pos 0)))
