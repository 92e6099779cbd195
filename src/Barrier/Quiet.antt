-- ===== src/Barrier/Quiet.antt =====
-- l_builtin/src/cmd_barrier.rs: initialising, waiting and resetting map and open nothing.
use l_builtin.Base.{
  ◌>>◌, ℕ, zero, suc, Option, none, some, Bool, true, false, Command, if◌then◌else◌, ◌==◌,
  Bool-cases, inl, inr,
}
use l_builtin.Shell.Steps.{succeeds, effect, succeeds_then, rescue, dropping}
use l_builtin.Handles.Ledger.{Books, Same}
use l_builtin.Handles.Quiet.{
  Quiet-next, Quiet, QuietCall, QuietStep, Same-refl, Same-trans, Quiet-succeeds, Quiet-effect,
  Quiet-succeeds_then, Quiet-rescue, Quiet-dropping,
}
use l_builtin.Barrier.{
  cleared, Barrier, BarrierCalls, Verdict, fresh_barrier, barrier_enter, recheck,
}
use l_builtin.Barrier.Wait.{
  barrier_init, barrier_wait, barrier_reset, Waited, wait_loop, woken, wait_once, resumed,
  wait_locked, publish, clear,
}

-- The calls on a barrier neither map nor open anything.
pub record QuietBarrier {World Seconds : Type 0} (books : Books World)
    (c : BarrierCalls World Seconds) : Type 0 where
  pub quiet_store : (b : ℕ) (bar : Barrier) → QuietStep books (c.store_barrier b bar)
  pub quiet_mutexattr_init : QuietCall books c.mutexattr_init
  pub quiet_mutexattr_setpshared : QuietStep books c.mutexattr_setpshared
  pub quiet_mutexattr_destroy : QuietStep books c.mutexattr_destroy
  pub quiet_condattr_init : QuietCall books c.condattr_init
  pub quiet_condattr_setpshared : QuietStep books c.condattr_setpshared
  pub quiet_condattr_destroy : QuietStep books c.condattr_destroy
  pub quiet_mutex_init : (b : ℕ) → QuietCall books (c.pthread_mutex_init b)
  pub quiet_cond_init : (b : ℕ) → QuietCall books (c.cond_init b)
  pub quiet_lock : (b : ℕ) → QuietCall books (c.pthread_mutex_lock b)
  pub quiet_unlock : (b : ℕ) → QuietStep books (c.pthread_mutex_unlock b)
  pub quiet_broadcast : (b : ℕ) → QuietStep books (c.cond_broadcast b)
  pub quiet_wait : (b : ℕ) → QuietCall books (c.cond_wait b)
  pub quiet_timedwait : (b : ℕ) (secs : Seconds) → QuietCall books (c.cond_timedwait b secs)

module _ {World Seconds : Type 0} (books : Books World) (c : BarrierCalls World Seconds)
    (quiet : QuietBarrier books c) where
  pub barrier_init-Quiet : (b target : ℕ) → Quiet books (barrier_init c b target)
  unfolding barrier_init
  barrier_init-Quiet b target =
      let last = effect (c.store_barrier b (fresh_barrier target)) in
      let clean : World → World = λ w. c.condattr_destroy (c.mutexattr_destroy w) in
      let conds = succeeds (c.cond_init b) >> last in
      let mutexes = succeeds_then (c.pthread_mutex_init b) clean >> conds in
      let shared = effect c.condattr_setpshared >> mutexes in
      let attrs = rescue (succeeds c.condattr_init) c.mutexattr_destroy >> shared in
      let first = effect c.mutexattr_setpshared >> attrs in
      Quiet-next books (succeeds c.mutexattr_init) first
        (Quiet-succeeds books c.mutexattr_init quiet.quiet_mutexattr_init)
        (Quiet-next books (effect c.mutexattr_setpshared) attrs
          (Quiet-effect books c.mutexattr_setpshared quiet.quiet_mutexattr_setpshared)
          (Quiet-next books (rescue (succeeds c.condattr_init) c.mutexattr_destroy) shared
            (Quiet-rescue books (succeeds c.condattr_init) c.mutexattr_destroy
              (Quiet-succeeds books c.condattr_init quiet.quiet_condattr_init)
              quiet.quiet_mutexattr_destroy)
            (Quiet-next books (effect c.condattr_setpshared) mutexes
              (Quiet-effect books c.condattr_setpshared quiet.quiet_condattr_setpshared)
              (Quiet-next books (succeeds_then (c.pthread_mutex_init b) clean) conds
                (Quiet-succeeds_then books (c.pthread_mutex_init b) clean (quiet.quiet_mutex_init b)
                  (λ w.
                    Same-trans books w (c.mutexattr_destroy w) (clean w)
                      (quiet.quiet_mutexattr_destroy w)
                      (quiet.quiet_condattr_destroy (c.mutexattr_destroy w))))
                (Quiet-next books (succeeds (c.cond_init b)) last
                  (Quiet-succeeds books (c.cond_init b) (quiet.quiet_cond_init b))
                  (Quiet-effect books (c.store_barrier b (fresh_barrier target))
                    (quiet.quiet_store b (fresh_barrier target))))))))

  wait_once-Quiet : (b : ℕ) (timeout : Option Seconds) → QuietCall books (wait_once c b timeout)
  wait_once-Quiet b none = quiet.quiet_wait b
  wait_once-Quiet b (some secs) = quiet.quiet_timedwait b secs

  resumed-Quiet :
      (loop : Command World Waited) (v : Verdict)
      → Quiet books loop
      → Quiet books (resumed c loop v)
  resumed-Quiet loop Verdict.pass q w = Same-refl books w
  resumed-Quiet loop Verdict.refuse q w = Same-refl books w
  resumed-Quiet loop Verdict.block q w = q w

  woken-Quiet :
      (b : ℕ) (again : Command World Waited) (w : World) (r : ℕ × World)
      → Quiet books again
      → Same books w r.1
      → Same books w (woken c b again r).1
  woken-Quiet b again w (rc, v) q s =
      let checked = recheck rc (c.load_barrier b v) in
      Same-trans books w v (resumed c again checked v).1 s (resumed-Quiet again checked q v)

  wait_loop-Quiet :
      (wakeups b : ℕ) (timeout : Option Seconds) → Quiet books (wait_loop c wakeups b timeout)
  unfolding wait_loop
  wait_loop-Quiet zero b timeout w = Same-refl books w
  wait_loop-Quiet (suc wakeups) b timeout w =
      woken-Quiet b (wait_loop c wakeups b timeout) w (wait_once c b timeout w)
        (wait_loop-Quiet wakeups b timeout) (wait_once-Quiet b timeout w)

  publish-Quiet : (b : ℕ) (bar : Barrier) → QuietStep books (publish c b bar)
  publish-Quiet b bar w = elim (Bool-cases (bar.count == bar.target)) [
    | inl e ↦ rw e (
        Same-trans books w (c.store_barrier b bar w) (c.cond_broadcast b (c.store_barrier b bar w))
          (quiet.quiet_store b bar w) (quiet.quiet_broadcast b (c.store_barrier b bar w)))
    | inr e ↦ rw e (quiet.quiet_store b bar w)
  ]

  written-Quiet :
      (b : ℕ) (bar : Barrier) (arrives : Bool)
      → QuietStep books (λ w. if arrives then publish c b bar w else w)
  written-Quiet b bar true w = publish-Quiet b bar w
  written-Quiet b bar false w = Same-refl books w

  wait_locked-Quiet :
      (wakeups b : ℕ) (timeout : Option Seconds) (nonblock : Bool)
      → Quiet books (wait_locked c wakeups b timeout nonblock)
  unfolding wait_locked
  wait_locked-Quiet wakeups b timeout nonblock w =
      let bar = c.load_barrier b w in
      let entered = barrier_enter nonblock bar in
      let v = if bar.satisfied == 0 then publish c b entered.1 w else w in
      let loop = wait_loop c wakeups b timeout in
      Same-trans books w v (resumed c loop entered.0 v).1
        (written-Quiet b entered.1 (bar.satisfied == 0) w)
        (resumed-Quiet loop entered.0 (wait_loop-Quiet wakeups b timeout) v)

  pub barrier_wait-Quiet :
      (wakeups b : ℕ) (timeout : Option Seconds) (nonblock : Bool)
      → Quiet books (barrier_wait c wakeups b timeout nonblock)
  unfolding barrier_wait
  barrier_wait-Quiet wakeups b timeout nonblock =
      let body = wait_locked c wakeups b timeout nonblock in
      Quiet-next books (succeeds (c.pthread_mutex_lock b))
        (dropping body (c.pthread_mutex_unlock b))
        (Quiet-succeeds books (c.pthread_mutex_lock b) (quiet.quiet_lock b))
        (Quiet-dropping books body (c.pthread_mutex_unlock b)
          (wait_locked-Quiet wakeups b timeout nonblock) (quiet.quiet_unlock b))

  clear-Quiet : (b : ℕ) → QuietStep books (clear c b)
  clear-Quiet b w =
      let written = c.store_barrier b (cleared (c.load_barrier b w)) w in
      Same-trans books w written (c.cond_broadcast b written)
        (quiet.quiet_store b (cleared (c.load_barrier b w)) w) (quiet.quiet_broadcast b written)

  pub barrier_reset-Quiet : (b : ℕ) → Quiet books (barrier_reset c b)
  unfolding barrier_reset
  barrier_reset-Quiet b =
      let body = effect (clear c b) in
      Quiet-next books (succeeds (c.pthread_mutex_lock b))
        (dropping body (c.pthread_mutex_unlock b))
        (Quiet-succeeds books (c.pthread_mutex_lock b) (quiet.quiet_lock b))
        (Quiet-dropping books body (c.pthread_mutex_unlock b)
          (Quiet-effect books (clear c b) (clear-Quiet b)) (quiet.quiet_unlock b))
