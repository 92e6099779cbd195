-- ===== src/Mutex/Quiet.antt =====
-- l_builtin/src/cmd_mutex.rs: initialising, locking and unlocking map and open nothing.
use l_builtin.Base.{
  ◌>>◌, ℕ, List, [], ◌∷◌, Option, none, some, Bool, true, false, ◌==◌, Bool-cases, inl, inr,
}
use l_builtin.Shell.{Calls}
use l_builtin.Shell.Steps.{succeeds, effect, succeeds_then}
use l_builtin.Handles.Ledger.{Books, Same}
use l_builtin.Handles.Quiet.{
  Quiet, QuietCall, QuietStep, Same-refl, Same-trans, Quiet-next, Quiet-tested, Quiet-succeeds,
  Quiet-effect, Quiet-succeeds_then, Quiet-rescue,
}
use l_builtin.Mutex.{
  MutexCalls, mutex_init, mutex_lock, mutex_unlock, lock_call, recovered, set_robust, owner_dead,
}
use l_builtin.Mutex.Commands.{unlock_each}

pub record QuietMutex {World Seconds : Type 0} (books : Books World) (c : MutexCalls World Seconds)
    : Type 0 where
  pub quiet_attr_init : QuietCall books c.mutexattr_init
  pub quiet_setpshared : QuietStep books c.mutexattr_setpshared
  pub quiet_settype : QuietStep books c.mutexattr_settype
  pub quiet_setrobust : QuietCall books c.mutexattr_setrobust
  pub quiet_attr_destroy : QuietStep books c.mutexattr_destroy
  pub quiet_init : (b : ℕ) → QuietCall books (c.pthread_mutex_init b)
  pub quiet_lock : (b : ℕ) → QuietCall books (c.pthread_mutex_lock b)
  pub quiet_trylock : (b : ℕ) → QuietCall books (c.pthread_mutex_trylock b)
  pub quiet_timedlock :
      (b : ℕ) (secs : Seconds) → QuietCall books (c.pthread_mutex_timedlock b secs)
  pub quiet_consistent : (b : ℕ) → QuietCall books (c.pthread_mutex_consistent b)
  pub quiet_unlock : (b : ℕ) → QuietCall books (c.pthread_mutex_unlock b)

module _ {World Seconds : Type 0} (books : Books World) (c : MutexCalls World Seconds)
    (quiet : QuietMutex books c) where
  set_robust-Quiet : (robust : Bool) → Quiet books (set_robust c robust)
  set_robust-Quiet false = Quiet-effect books (λ w. w) (Same-refl books)
  set_robust-Quiet true =
      Quiet-rescue books (succeeds c.mutexattr_setrobust) c.mutexattr_destroy
        (Quiet-succeeds books c.mutexattr_setrobust quiet.quiet_setrobust) quiet.quiet_attr_destroy

  pub mutex_init-Quiet : (b : ℕ) (robust : Bool) → Quiet books (mutex_init c b robust)
  unfolding mutex_init
  mutex_init-Quiet b robust =
      let last = succeeds_then (c.pthread_mutex_init b) c.mutexattr_destroy in
      let made = set_robust c robust >> last in
      let typed = effect c.mutexattr_settype >> made in
      let shared = effect c.mutexattr_setpshared >> typed in
      Quiet-next books (succeeds c.mutexattr_init) shared
        (Quiet-succeeds books c.mutexattr_init quiet.quiet_attr_init)
        (Quiet-next books (effect c.mutexattr_setpshared) typed
          (Quiet-effect books c.mutexattr_setpshared quiet.quiet_setpshared)
          (Quiet-next books (effect c.mutexattr_settype) made
            (Quiet-effect books c.mutexattr_settype quiet.quiet_settype)
            (Quiet-next books (set_robust c robust) last (set_robust-Quiet robust) (
              Quiet-succeeds_then books (c.pthread_mutex_init b) c.mutexattr_destroy
                (quiet.quiet_init b) quiet.quiet_attr_destroy))))

  lock_call-Quiet :
      (b : ℕ) (timeout : Option Seconds) (nonblock : Bool)
      → QuietCall books (lock_call c b timeout nonblock)
  lock_call-Quiet b timeout true = quiet.quiet_trylock b
  lock_call-Quiet b none false = quiet.quiet_lock b
  lock_call-Quiet b (some secs) false = quiet.quiet_timedlock b secs

  recovered-Quiet :
      (b : ℕ) (w : World) (r : ℕ × World) → Same books w r.1 → Same books w (recovered c b r).1
  recovered-Quiet b w (rc, v) s = elim (Bool-cases (rc == 0)) [
    | inl e ↦ rw e s
    | inr e ↦ rw e (elim (Bool-cases (rc == owner_dead)) [
      | inl d ↦ rw d (
          Quiet-tested books w (c.pthread_mutex_consistent b v) (
            Same-trans books w v (c.pthread_mutex_consistent b v).1 s (quiet.quiet_consistent b v)))
      | inr d ↦ rw d s
    ])
  ]

  pub mutex_lock-Quiet :
      (b : ℕ) (timeout : Option Seconds) (nonblock : Bool)
      → Quiet books (mutex_lock c b timeout nonblock)
  unfolding mutex_lock
  mutex_lock-Quiet b timeout nonblock w =
      recovered-Quiet b w (lock_call c b timeout nonblock w) (lock_call-Quiet b timeout nonblock w)

  pub mutex_unlock-Quiet : (b : ℕ) → Quiet books (mutex_unlock c b)
  unfolding mutex_unlock
  mutex_unlock-Quiet b = Quiet-succeeds books (c.pthread_mutex_unlock b) (quiet.quiet_unlock b)

  module _ (calls : Calls World) where
    pub unlock_each-Quiet : (ptrs : List ℕ) → QuietStep books (unlock_each calls c ptrs)
    unfolding unlock_each
    unlock_each-Quiet [] w = Same-refl books w
    unlock_each-Quiet (ptr ∷ ptrs) w =
        let v = (mutex_unlock c ptr w).1 in
        Same-trans books w v (unlock_each calls c ptrs v) (mutex_unlock-Quiet ptr w)
          (unlock_each-Quiet ptrs v)
