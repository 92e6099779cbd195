-- ===== src/Mutex.antt =====
-- l_builtin/src/cmd_mutex.rs: process-shared mutexes. What the file asks of the C library, and its
-- operations on the mutex at an address.
mod Tests
pub mod Commands
pub mod Session
pub mod Quiet
pub mod Ledger
use l_builtin.Base.{
  Outcome, ◌>>=◌, ◌>>◌, ℕ, Option, none, some, Bool, true, false, ok, err, Command,
  execution_failure, if◌then◌else◌, ◌==◌,
}
use l_builtin.Shell.Steps.{succeeds, effect, succeeds_then, rescue, tested}

-- A number is a return code. The mutex attribute lives on the stack of `mutex_init`.
pub record MutexCalls (World Seconds : Type 0) : Type 0 where
  pub mutex_bytes : ℕ
  pub mutexattr_init : World → ℕ × World
  pub mutexattr_setpshared : World → World
  pub mutexattr_settype : World → World
  pub mutexattr_setrobust : World → ℕ × World
  pub mutexattr_destroy : World → World
  pub pthread_mutex_init : ℕ → World → ℕ × World
  pub pthread_mutex_lock : ℕ → World → ℕ × World
  pub pthread_mutex_trylock : ℕ → World → ℕ × World
  -- `timespec_from_now` and `pthread_mutex_timedlock`
  pub pthread_mutex_timedlock : ℕ → Seconds → World → ℕ × World
  pub pthread_mutex_consistent : ℕ → World → ℕ × World
  pub pthread_mutex_unlock : ℕ → World → ℕ × World

-- `EOWNERDEAD`
abbrev pub owner_dead : ℕ
owner_dead = 130

module _ {World Seconds : Type 0} (c : MutexCalls World Seconds) where
  abbrev pub set_robust : Bool → Command World (Unit {0})
  set_robust false = effect (λ w. w)
  set_robust true = rescue (succeeds c.mutexattr_setrobust) c.mutexattr_destroy

  unfoldable pub mutex_init : ℕ → Bool → Command World (Unit {0})
  mutex_init b robust = do
    succeeds c.mutexattr_init
    effect c.mutexattr_setpshared
    effect c.mutexattr_settype
    set_robust robust
    succeeds_then (c.pthread_mutex_init b) c.mutexattr_destroy

  -- the call that takes the lock
  abbrev pub lock_call : ℕ → Option Seconds → Bool → World → ℕ × World
  lock_call b timeout true w = c.pthread_mutex_trylock b w
  lock_call b none false w = c.pthread_mutex_lock b w
  lock_call b (some secs) false w = c.pthread_mutex_timedlock b secs w

  abbrev pub recovered : ℕ → ℕ × World → Outcome (Unit {0}) × World
  recovered b (rc, w) =
      if rc == 0
      then (ok tt, w)
      else if rc == owner_dead
      then tested (c.pthread_mutex_consistent b w)
      else (err execution_failure, w)

  unfoldable pub mutex_lock : ℕ → Option Seconds → Bool → Command World (Unit {0})
  mutex_lock b timeout nonblock w = recovered b (lock_call b timeout nonblock w)

  unfoldable pub mutex_unlock : ℕ → Command World (Unit {0})
  mutex_unlock b = succeeds (c.pthread_mutex_unlock b)
