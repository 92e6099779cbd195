-- ===== src/Semaphore.antt =====
-- l_builtin/src/cmd_semaphore.rs: process-shared semaphores. What the file asks of the C library, and
-- its operations on the semaphore at an address.
mod Tests
pub mod Commands
pub mod Session
pub mod Ledger
use l_builtin.Base.{ℕ, Option, none, some, Bool, true, false, Bytes, Command}
use l_builtin.Shell.{Calls}
use l_builtin.Shell.Steps.{succeeds}

-- A number is a return code: 0, or -1 in its place a number that is not 0. `none` is `SEM_FAILED`.
pub record SemaphoreCalls (World Seconds : Type 0) : Type 0 where
  pub semaphore_bytes : ℕ
  -- the name, whether `O_CREAT` is given, and the value to start with
  pub sem_open : Bytes → Bool → ℕ → World → Option ℕ × World
  pub sem_init : ℕ → ℕ → World → ℕ × World
  pub sem_wait : ℕ → World → ℕ × World
  pub sem_trywait : ℕ → World → ℕ × World
  -- `timespec_from_now` and `sem_timedwait`
  pub sem_timedwait : ℕ → Seconds → World → ℕ × World
  pub sem_post : ℕ → World → ℕ × World
  pub sem_close : ℕ → World → World
  pub sem_destroy : ℕ → World → World

module _ {World Seconds : Type 0} (c : SemaphoreCalls World Seconds) where
  abbrev pub wait_call : ℕ → Option Seconds → Bool → World → ℕ × World
  wait_call sem timeout true w = c.sem_trywait sem w
  wait_call sem (some secs) false w = c.sem_timedwait sem secs w
  wait_call sem none false w = c.sem_wait sem w

  unfoldable pub semaphore_wait : ℕ → Option Seconds → Bool → Command World (Unit {0})
  semaphore_wait sem timeout nonblock = succeeds (wait_call sem timeout nonblock)

  unfoldable pub semaphore_post : ℕ → Command World (Unit {0})
  semaphore_post sem = succeeds (c.sem_post sem)

module _ {World Seconds : Type 0} (calls : Calls World) (c : SemaphoreCalls World Seconds) where
  abbrev pub unlink_if : Bool → Bytes → World → World
  unlink_if true n w = calls.shm_unlink n w
  unlink_if false n w = w

  unfoldable pub semaphore_teardown : ℕ → Option Bytes → Bool → World → World
  semaphore_teardown ptr (some n) unlink w = unlink_if unlink n (c.sem_close ptr w)
  semaphore_teardown ptr none unlink w = calls.munmap ptr c.semaphore_bytes (c.sem_destroy ptr w)
