-- ===== src/Server/Publisher.antt =====
-- handle_messages_from_publisher of mbroker/mbroker.c.
use proj_so.Prelude.{
  ℕ, zero, suc, ◌+◌, not, List, [], ◌∷◌, ◌++◌, none, some, ◌==◌, if◌then◌else◌, drop, length, ℤ,
  pos, minus_one, is_nonneg, is_zero, add_size, M, fault, blocks, ◌>>=◌, ◌>>◌, pure,
}
use proj_so.Fs.Operations.{tfs_o_append, tfs_open, tfs_write}
use proj_so.Wire.System.{try_read}
use proj_so.Wire.Text.{text_of}
use proj_so.Server.State.{
  Calls, Server, on_system, on_files, client_of, box_of, set_box, lock_box, unlock_box, is_less,
}
use proj_so.Server.Session.{finish_client_session}

-- MESSAGE_LENGTH
abbrev pub message_length : ℕ
message_length = 1023

-- A read of a buffer leaves its other bytes as they were.
abbrev pub read_over : List ℕ → List ℕ → List ℕ
read_over bytes buffer = bytes ++ drop (length bytes) buffer

-- finish_client_session, whose result the code drops.
abbrev pub finish_and_return : ℕ → ℤ → M Server ℤ
finish_and_return c result = do finish_client_session c; pure result

-- `if (client->box != NULL) finish_client_session(client); return 0;`
unfoldable pub pipe_closed : ℕ → M Server ℤ
pipe_closed c = do
  client ← client_of c
  elim client.box [ none ↦ pure (pos 0) | some b ↦ finish_and_return c (pos 0) ]

-- One message goes to the file of box `b`; `rest` is the next round of the loop.
unfoldable pub store_message : Calls → ℕ → ℕ → List ℕ → M Server ℤ → M Server ℤ
store_message calls c b message rest = do
  let size = length (text_of message) + 1
  lock_box b
  box ← box_of b
  fhandle ← on_files (tfs_open calls.mutex box.box_name tfs_o_append)
  if not (is_nonneg fhandle) then finish_and_return c minus_one else (do
    written ← on_files (tfs_write calls.mutex fhandle (message ++ (0 ∷ [])) size)
    if not (is_nonneg written)
        then finish_and_return c minus_one
        else if is_less written size
        then finish_and_return c (pos 0)
        else (do
          set_box b (λ k. record k { box_size = add_size k.box_size size })
          if not (is_zero calls.broadcast)
              then finish_and_return c minus_one
              else (do unlock_box b; rest)))

-- The loop, with its buffer; one number of the fuel goes for each round.
unfoldable pub handle_messages_from_publisher : Calls → ℕ → ℕ → List ℕ → M Server ℤ
handle_messages_from_publisher calls c zero message = λ _. blocks
handle_messages_from_publisher calls c (suc fuel) message = do
  opcode ← on_system (try_read 1)
  elim opcode [
    | none ↦ pipe_closed c
    | some code ↦ if length code == 0 then pipe_closed c else (do
      answer ← on_system (try_read message_length)
      elim answer [
        | none ↦ pipe_closed c
        | some bytes ↦ if length bytes == 0 then pipe_closed c else (do
          client ← client_of c
          let message' = read_over bytes message
          let rest = handle_messages_from_publisher calls c fuel message'
          elim client.box [ none ↦ λ _. fault | some b ↦ store_message calls c b message' rest ])
      ])
  ]
