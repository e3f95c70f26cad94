-- ===== src/Server/Loop.antt =====
-- client_session of mbroker/mbroker.c.
use proj_so.Prelude.{
  ℕ, List, [], ◌∷◌, Option, none, some, ◌==◌, ◌||◌, if◌then◌else◌, ℤ, pos, is_minus_one, M, ◌>>=◌,
  ◌>>◌, pure,
}
use proj_so.Wire.Request.{
  Request, Ended, at_end, server_closed, op_regist_pub, op_regist_sub, op_create_box, op_remove_box,
  op_list_boxes,
}
use proj_so.Server.State.{Calls, Client, Server, set_client}
use proj_so.Server.Listing.{handle_tfs_list_boxes}
use proj_so.Server.Requests.{handle_tfs_register, handle_tfs_create_box, handle_tfs_remove_box}

-- A session takes the fields of a request; a list request leaves the box name alone.
abbrev pub name_or : Option (List ℕ) → List ℕ → List ℕ
name_or none old = old
name_or (some new) old = new

abbrev pub adopted : Request → Client → Client
adopted request client = record client {
  opcode = request.opcode;
  client_pipename = request.client_pipename;
  box_name = name_or request.box_name client.box_name;
}

-- The `switch` on the operation code.
unfoldable pub dispatch : Calls → ℕ → List ℕ → ℕ → ℕ → M Server ℤ
dispatch calls fuel message c opcode =
    if opcode == op_regist_pub || opcode == op_regist_sub
    then handle_tfs_register calls fuel message c
    else if opcode == op_create_box
    then handle_tfs_create_box calls c
    else if opcode == op_remove_box
    then handle_tfs_remove_box calls c
    else if opcode == op_list_boxes
    then handle_tfs_list_boxes calls c
    else pure (pos 0)

-- The loop of a session over the requests that pcq_dequeue gives it; a handler that returns -1 closes
-- the server.
unfoldable pub client_session : Calls → ℕ → List ℕ → ℕ → List Request → M Server Ended
client_session calls fuel message c [] = pure at_end
client_session calls fuel message c (request ∷ requests) = do
  set_client c (adopted request)
  result ← dispatch calls fuel message c request.opcode
  let rest = client_session calls fuel message c requests
  if is_minus_one result then pure server_closed else rest
