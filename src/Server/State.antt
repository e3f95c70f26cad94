-- ===== src/Server/State.antt =====
-- The state of the sessions of mbroker/mbroker.c: client_t of mbroker/mbroker.h, the static variables,
-- and the calls that a handler makes. A handler runs from its start to its end with no other session
-- between; what others do while it waits on a condition variable is the parameter `wait`.
use proj_so.Prelude.{
  ℕ, Bool, true, false, List, Option, ◌==◌, if◌then◌else◌, ltb, update, ℤ, pos, negsuc, is_nonneg,
  length, Outcome, M, ok, panic, fault, blocks, ◌>>=◌, pure, gets, modify,
}
use proj_so.Fs.State.{Tfs}
use proj_so.Fs.Mutex.{Mutex}
use proj_so.Wire.System.{System, try_write, sys_close}
use proj_so.Broker.Boxes.{Box, Broker, on_fs}

-- client_t; its index is session_id, and `box` is the index of the box, `none` for NULL. `offset` is
-- the value of `(uint64_t)client->offset`.
pub record Client : Type 0 where
  pub opcode : ℕ
  pub box_name : List ℕ
  pub box : Option ℕ
  pub offset : ℕ
  pub box_fd : ℤ
  pub client_pipename : List ℕ
  pub client_pipe : ℤ

-- `boxes_lock` and `box_locks` tell which mutexes are held.
pub record Server : Type 0 where
  pub broker : Broker
  pub clients : ℕ → Client
  pub max_sessions : ℕ
  pub boxes_lock : Bool
  pub box_locks : ℕ → Bool
  pub system : System

-- The calls of pthread and malloc: the library's mutex, whether malloc provides a box, what
-- pthread_cond_broadcast returns, and pthread_cond_wait on a box, with what other sessions do
-- meanwhile. `stale` is what memory holds behind the terminator of the name of a slot that was emptied.
pub record Calls : Type 0 where
  pub mutex : Mutex
  pub memory : Bool
  pub broadcast : ℤ
  pub wait : ℕ → M Server ℤ
  pub stale : ℕ → List ℕ

abbrev pub resume_system : {A : Type 0} → Server → Outcome System A → Outcome Server A
resume_system s (ok a t) = ok a (record s { system = t })
resume_system s panic = panic
resume_system s fault = fault
resume_system s blocks = blocks

abbrev pub on_system : {A : Type 0} → M System A → M Server A
on_system call s = resume_system s (call s.system)

abbrev pub resume_broker : {A : Type 0} → Server → Outcome Broker A → Outcome Server A
resume_broker s (ok a t) = ok a (record s { broker = t })
resume_broker s panic = panic
resume_broker s fault = fault
resume_broker s blocks = blocks

abbrev pub on_broker : {A : Type 0} → M Broker A → M Server A
on_broker call s = resume_broker s (call s.broker)

abbrev pub on_files : {A : Type 0} → M Tfs A → M Server A
on_files call = on_broker (on_fs call)

-- safe_mutex_lock and safe_mutex_unlock of the default mutexes, which return 0; a lock of a mutex that
-- is held waits for a session that does not run.
unfoldable pub lock_boxes : M Server (Unit {0})
lock_boxes s = if s.boxes_lock then blocks else ok tt (record s { boxes_lock = true })

unfoldable pub unlock_boxes : M Server (Unit {0})
unlock_boxes s = ok tt (record s { boxes_lock = false })

unfoldable pub lock_box : ℕ → M Server (Unit {0})
lock_box b s =
    if s.box_locks b then blocks else ok tt (record s { box_locks = update s.box_locks b true })

unfoldable pub unlock_box : ℕ → M Server (Unit {0})
unlock_box b s = ok tt (record s { box_locks = update s.box_locks b false })

abbrev pub client_of : ℕ → M Server Client
client_of c = gets (λ s. s.clients c)

abbrev pub set_client : ℕ → (Client → Client) → M Server (Unit {0})
set_client c f = modify (λ s. record s { clients = update s.clients c (f (s.clients c)) })

abbrev pub box_of : ℕ → M Server Box
box_of b = gets (λ s. s.broker.boxes b)

abbrev pub with_box : ℕ → (Box → Box) → Broker → Broker
with_box b f t = record t { boxes = update t.boxes b (f (t.boxes b)) }

abbrev pub set_box : ℕ → (Box → Box) → M Server (Unit {0})
set_box b f = modify (λ s. record s { broker = with_box b f s.broker })

-- `x == n` and `x < n`
abbrev pub equals : ℤ → ℕ → Bool
equals (pos m) n = m == n
equals (negsuc m) n = false

abbrev pub is_less : ℤ → ℕ → Bool
is_less (pos m) n = ltb m n
is_less (negsuc m) n = true

-- `write_pipe` and `safe_close`: when they fail, the function that uses them returns `failure`.
unfoldable pub write_pipe : {A : Type 0} → A → ℤ → List ℕ → M Server A → M Server A
write_pipe failure fd buffer rest = do
  written ← on_system (try_write fd buffer)
  if equals written.0 (length buffer) then rest else pure failure

unfoldable pub safe_close : {A : Type 0} → A → ℤ → M Server A → M Server A
safe_close failure fd rest = do
  code ← on_system sys_close
  if is_nonneg code then rest else pure failure
