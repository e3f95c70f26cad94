-- ===== src/Fs/Mutex.antt =====
-- The calls of pthread that guard the library, which are not part of the program, and the frame that
-- every entry point of fs/operations.c puts round its work: it locks the mutex first, and unlocks it
-- before each of its returns.
use proj_so.Prelude.{
  ◌≡◌, Bool, true, false, if◌then◌else◌, ℤ, pos, is_minus_one, Outcome, M, ok, panic, fault, blocks,
}
use proj_so.Fs.State.{Tfs}

-- pthread_mutex_lock and pthread_mutex_unlock: from whether the mutex is held, what they return and
-- whether it is held then. By their documentation they return 0 on success.
pub record Mutex : Type 0 where
  pub lock : Bool → ℤ × Bool
  pub unlock : Bool → ℤ × Bool
  pub lock_free : lock false ≡ (pos 0, true)
  pub unlock_held : unlock true ≡ (pos 0, false)

module _ {A : Type 0} (mutex : Mutex) (failed : A) where
  -- `if (pthread_mutex_unlock(...) == -1) return -1; return result;`
  abbrev unlock_and_return : Outcome Tfs A → Outcome Tfs A
  unlock_and_return (ok result s) =
      let (code, held) = mutex.unlock s.library_mutex in
      ok (if is_minus_one code then failed else result) (record s { library_mutex = held })
  unlock_and_return panic = panic
  unlock_and_return fault = fault
  unlock_and_return blocks = blocks

  unfoldable pub locked : M Tfs A → M Tfs A
  locked work s =
      let (code, held) = mutex.lock s.library_mutex in
      let s' = record s { library_mutex = held } in
      if is_minus_one code then ok failed s' else unlock_and_return (work s')

  -- Between two calls the mutex is free, and the frame leaves it so.
  pub locked-ok :
      (work : M Tfs A) (s s' : Tfs) (result : A)
      → s.library_mutex ≡ false
      → work (record s { library_mutex = true }) ≡ ok result s'
      → s'.library_mutex ≡ true
      → locked work s ≡ ok result (record s' { library_mutex = false })
  unfolding locked
  locked-ok work s s' result e h e' = rw (e, mutex.lock_free) (rw h (rw (e', mutex.unlock_held)))
