-- ===== src/Mutex/Session.antt =====
-- l_builtin/src/cmd_mutex.rs: any sequence of mutex commands of one process.
use l_builtin.Base.{ℕ, List, [], ◌∷◌, Command}
use l_builtin.Shell.{Calls}
use l_builtin.Handles.{Process}
use l_builtin.Mutex.{MutexCalls}
use l_builtin.Mutex.Commands.{
  MutexCreateArgs, MutexOpenArgs, MutexLockArgs, MutexUnlockArgs, mutex_create_subcommand,
  mutex_open_subcommand, mutex_lock_subcommand, mutex_unlock_subcommand, mutex_close_subcommand,
  mutex_destroy_subcommand,
}

pub data MutexCommand (Seconds : Type 0) : Type 0 where
  create : MutexCreateArgs → MutexCommand Seconds
  open_named : MutexOpenArgs → MutexCommand Seconds
  lock : MutexLockArgs Seconds → MutexCommand Seconds
  unlock : MutexUnlockArgs → MutexCommand Seconds
  close : ℕ → MutexCommand Seconds
  destroy : ℕ → MutexCommand Seconds

module _ {World Seconds : Type 0} (calls : Calls World) (c : MutexCalls World Seconds) where
  unfoldable pub mutex_command : MutexCommand Seconds → Command (Process World) (Unit {0})
  mutex_command (create args) = mutex_create_subcommand calls c args
  mutex_command (open_named args) = mutex_open_subcommand calls c args
  mutex_command (lock args) = mutex_lock_subcommand calls c args
  mutex_command (unlock args) = mutex_unlock_subcommand calls c args
  mutex_command (close mutex) = mutex_close_subcommand calls c mutex
  mutex_command (destroy mutex) = mutex_destroy_subcommand calls c mutex

  -- the shell goes on after a command that fails
  unfoldable pub mutex_session : List (MutexCommand Seconds) → Process World → Process World
  mutex_session [] p = p
  mutex_session (x ∷ xs) p = mutex_session xs (mutex_command x p).1
