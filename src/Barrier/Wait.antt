-- ===== src/Barrier/Wait.antt =====
-- l_builtin/src/cmd_barrier.rs: initialising, waiting on and resetting the barrier at an address.
use l_builtin.Base.{
  ◌>>◌, Outcome, ℕ, zero, suc, Option, none, some, Bool, ok, err, Command, execution_failure,
  if◌then◌else◌, ◌==◌,
}
use l_builtin.Shell.Steps.{succeeds, effect, succeeds_then, rescue, dropping}
use l_builtin.Barrier.{
  Barrier, BarrierCalls, Verdict, fresh_barrier, barrier_enter, recheck, cleared,
}

-- How a wait ends, as far as it was followed: it returned 0, or it still waits.
pub data Waited : Type 0 where
  passed still_waiting : Waited

module _ {World Seconds : Type 0} (c : BarrierCalls World Seconds) where
  unfoldable pub barrier_init : ℕ → ℕ → Command World (Unit {0})
  barrier_init b target = do
    succeeds c.mutexattr_init
    effect c.mutexattr_setpshared
    rescue (succeeds c.condattr_init) c.mutexattr_destroy
    effect c.condattr_setpshared
    succeeds_then (c.pthread_mutex_init b) (λ w. c.condattr_destroy (c.mutexattr_destroy w))
    succeeds (c.cond_init b)
    effect (c.store_barrier b (fresh_barrier target))

  -- an arrival writes the barrier and wakes everyone when it is the last one
  abbrev pub publish : ℕ → Barrier → World → World
  publish b bar w =
      let written = c.store_barrier b bar w in
      if bar.count == bar.target then c.cond_broadcast b written else written

  abbrev pub wait_once : ℕ → Option Seconds → World → ℕ × World
  wait_once b none w = c.cond_wait b w
  wait_once b (some secs) w = c.cond_timedwait b secs w

  abbrev pub resumed : Command World Waited → Verdict → Command World Waited
  resumed loop Verdict.pass w = (ok Waited.passed, w)
  resumed loop Verdict.refuse w = (err execution_failure, w)
  resumed loop Verdict.block w = loop w

  abbrev pub woken : ℕ → Command World Waited → ℕ × World → Outcome Waited × World
  woken b again (rc, w) = resumed again (recheck rc (c.load_barrier b w)) w

  -- the loop, followed for that many wakeups
  unfoldable pub wait_loop : ℕ → ℕ → Option Seconds → Command World Waited
  wait_loop zero b timeout w = (ok Waited.still_waiting, w)
  wait_loop (suc wakeups) b timeout w =
      let again = wait_loop wakeups b timeout in woken b again (wait_once b timeout w)

  -- what is done under the lock
  unfoldable pub wait_locked : ℕ → ℕ → Option Seconds → Bool → Command World Waited
  wait_locked wakeups b timeout nonblock w =
      let bar = c.load_barrier b w in
      let (decided, after) = barrier_enter nonblock bar in
      resumed (wait_loop wakeups b timeout) decided
        (if bar.satisfied == 0 then publish b after w else w)

  unfoldable pub barrier_wait : ℕ → ℕ → Option Seconds → Bool → Command World Waited
  barrier_wait wakeups b timeout nonblock = do
    succeeds (c.pthread_mutex_lock b)
    dropping (wait_locked wakeups b timeout nonblock) (c.pthread_mutex_unlock b)

  abbrev pub clear : ℕ → World → World
  clear b w = c.cond_broadcast b (c.store_barrier b (cleared (c.load_barrier b w)) w)

  unfoldable pub barrier_reset : ℕ → Command World (Unit {0})
  barrier_reset b = do
    succeeds (c.pthread_mutex_lock b)
    dropping (effect (clear b)) (c.pthread_mutex_unlock b)
