-- ===== src/Server/Subscriber.antt =====
-- handle_messages_until_now and handle_messages_to_subscriber of mbroker/mbroker.c.
use proj_so.Prelude.{
  ℕ, zero, suc, ◌+◌, ◌&&◌, ◌||◌, Bool, true, false, not, List, [], ◌∷◌, Option, none, some, ◌==◌,
  if◌then◌else◌, drop, length, ltb, ℤ, pos, minus_one, index, is_nonneg, is_minus_one, is_zero,
  add_size, sub_size, M, fault, blocks, ◌>>=◌, ◌>>◌, pure, gets,
}
use proj_so.Fs.Memory.{strncpy_bytes}
use proj_so.Fs.Operations.{tfs_o_creat, tfs_open, tfs_read}
use proj_so.Wire.System.{try_write}
use proj_so.Wire.Text.{c_string}
use proj_so.Wire.Request.{op_subscriber}
use proj_so.Server.State.{
  Calls, Server, on_system, on_files, client_of, set_client, lock_box, unlock_box, is_less,
  write_pipe,
}
use proj_so.Server.Session.{finish_client_session}
use proj_so.Server.Publisher.{message_length, finish_and_return}

-- BOX_SIZE
abbrev pub box_size_limit : ℕ
box_size_limit = 16384

-- The loop over the bytes of one read: false where write_pipe returns -1. `strcpy` faults where no
-- byte that was read is zero, since the bytes behind them are not initialized, and where a string does
-- not fit `message`. One number of the fuel goes for each message.
unfoldable pub send_strings : ℤ → ℕ → List ℕ → M Server Bool
send_strings pipe zero [] = pure true
send_strings pipe zero (b ∷ bytes) = λ _. blocks
send_strings pipe (suc fuel) [] = pure true
send_strings pipe (suc fuel) (b ∷ bytes) = elim (c_string (b ∷ bytes)) [
  | none ↦ λ _. fault
  | some text ↦
      let rest = send_strings pipe fuel (drop (length text + 1) (b ∷ bytes)) in
      if ltb message_length (length text)
      then (λ _. fault)
      else write_pipe false pipe (op_subscriber ∷ [])
          (write_pipe false pipe (strncpy_bytes text message_length) rest)
]

-- `client->box->box_size - (uint64_t)client->offset` for the client's box `b`
abbrev pub unread : ℕ → ℕ → Server → ℕ
unread b c s = sub_size (s.broker.boxes b).box_size (s.clients c).offset

-- `while (... > 0)`; the result is what the function returns there, `none` where it goes on behind the
-- loop.
unfoldable pub send_until_now : Calls → ℕ → ℕ → ℕ → M Server (Option ℤ)
send_until_now calls b c zero = λ _. blocks
send_until_now calls b c (suc fuel) = do
  left ← gets (unread b c)
  if left == 0 then pure none else (do
    client ← client_of c
    answer ← on_files (tfs_read calls.mutex client.box_fd box_size_limit)
    let rest = send_until_now calls b c fuel
    if is_zero answer.0
        then pure none
        else if not (is_nonneg answer.0)
        then (do code ← finish_and_return c minus_one; pure (some code))
        else (do
          complete ← send_strings client.client_pipe (length answer.1) answer.1
          if not complete then pure (some minus_one) else (do
            set_client c (λ k. record k { offset = add_size k.offset (index answer.0) })
            rest)))

unfoldable pub handle_messages_until_now : Calls → ℕ → ℕ → ℕ → M Server ℤ
handle_messages_until_now calls fuel c b = do
  lock_box b
  client ← client_of c
  fhandle ← on_files (tfs_open calls.mutex client.box_name tfs_o_creat)
  set_client c (λ k. record k { box_fd = fhandle })
  if not (is_nonneg fhandle) then finish_and_return c minus_one else (do
    returned ← send_until_now calls b c fuel
    elim returned [ some code ↦ pure code | none ↦ (do unlock_box b; pure (pos 0)) ])

-- `while (... == 0) if (pthread_cond_wait(...)) ...`: false when the wait fails.
unfoldable pub wait_for_more : Calls → ℕ → ℕ → ℕ → M Server Bool
wait_for_more calls b c zero = λ _. blocks
wait_for_more calls b c (suc fuel) = do
  left ← gets (unread b c)
  let rest = wait_for_more calls b c fuel
  if not (left == 0)
      then pure true
      else (do code ← calls.wait b; if is_zero code then rest else pure false)

-- What a write to the subscriber's pipe means: the whole buffer went, the pipe is closed, or an error.
pub data Sent : Type 0 where
  whole closed error : Sent

unfoldable pub judge : ℕ → ℤ × Bool → Sent
judge size (code, epipe) =
    if is_zero code || (not (is_nonneg code) && epipe)
    then closed
    else if is_less code size
    then error
    else whole

-- A try_write with the tests behind it.
abbrev pub send_or_return : ℕ → ℤ → List ℕ → M Server ℤ → M Server ℤ
send_or_return c pipe buffer rest = do
  written ← on_system (try_write pipe buffer)
  elim (judge (length buffer) written) [
    | whole ↦ rest
    | closed ↦ finish_and_return c (pos 0)
    | error ↦ finish_and_return c minus_one
  ]

-- finish_client_session behind the loop.
abbrev pub end_session : ℕ → M Server ℤ
end_session c = do
  code ← finish_client_session c
  if is_minus_one code then pure minus_one else pure (pos 0)

-- The loop; one number of the fuel goes for each round.
unfoldable pub handle_messages_to_subscriber : Calls → ℕ → ℕ → ℕ → M Server ℤ
handle_messages_to_subscriber calls zero c b = λ _. blocks
handle_messages_to_subscriber calls (suc fuel) c b = do
  lock_box b
  more ← wait_for_more calls b c (suc fuel)
  if not more then finish_and_return c minus_one else (do
    unlock_box b
    client ← client_of c
    answer ← on_files (tfs_read calls.mutex client.box_fd message_length)
    let rest = handle_messages_to_subscriber calls fuel c b
    if is_zero answer.0
        then end_session c
        else if not (is_nonneg answer.0)
        then finish_and_return c minus_one
        else send_or_return c client.client_pipe (op_subscriber ∷ []) (
            send_or_return c client.client_pipe (strncpy_bytes answer.1 message_length) (do
              set_client c (λ k. record k { offset = add_size k.offset (index answer.0) })
              rest)))
