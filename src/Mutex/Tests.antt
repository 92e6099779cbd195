-- ===== src/Mutex/Tests.antt =====
-- Runs of mutexes (l_builtin/src/cmd_mutex.rs).
use l_builtin.Base.{ℕ, none, some, true, false, arith, List, [], ◌∷◌}
use l_builtin.Handles.Ledger.{Balanced}
use l_builtin.Machine.{
  start, start-Balanced, machine_calls, machine_books, machine-Accounting, machine_mutex,
  machine_mutex-Quiet,
}
use l_builtin.Mutex.Session.{
  MutexCommand, create, open_named, lock, unlock, close, destroy, mutex_session,
}
use l_builtin.Mutex.Ledger.{mutex_session-Balanced}

abbrev commands : List (MutexCommand ℕ)
commands =
    create
      (record { robust = true; name = some (b'm' ∷ []); mutex = record { name = (b'a' ∷ []) } })
    ∷ open_named (record { mutex = record { name = (b'b' ∷ []) }; name = (b'm' ∷ []) })
    ∷ lock (record { nonblock = false; timeout = none; mutex = 1 })
    ∷ unlock (record { all = true; mutex = none })
    ∷ close 2
    ∷ destroy 1
    ∷ []

mutex_session-Balanced_example :
    Balanced machine_books
      (λ q. 0)
      (λ f. 0)
      0
      []
      (mutex_session machine_calls machine_mutex commands start)
mutex_session-Balanced_example =
    mutex_session-Balanced machine_calls machine_books machine-Accounting machine_mutex
      machine_mutex-Quiet (λ q. 0) (λ f. 0) commands start (start-Balanced 6 (omega arith))
