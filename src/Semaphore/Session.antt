-- ===== src/Semaphore/Session.antt =====
-- l_builtin/src/cmd_semaphore.rs: any sequence of semaphore commands of one process.
use l_builtin.Base.{ℕ, List, [], ◌∷◌, Command}
use l_builtin.Shell.{Calls}
use l_builtin.Handles.{Process}
use l_builtin.Semaphore.{SemaphoreCalls}
use l_builtin.Semaphore.Commands.{
  SemaphoreCreateArgs, SemaphoreOpenArgs, SemaphoreWaitArgs, semaphore_create_subcommand,
  semaphore_open_subcommand, semaphore_wait_subcommand, semaphore_post_subcommand,
  semaphore_close_subcommand, semaphore_destroy_subcommand,
}

pub data SemaphoreCommand (Seconds : Type 0) : Type 0 where
  create : SemaphoreCreateArgs → SemaphoreCommand Seconds
  open_named : SemaphoreOpenArgs → SemaphoreCommand Seconds
  wait : SemaphoreWaitArgs Seconds → SemaphoreCommand Seconds
  post : ℕ → SemaphoreCommand Seconds
  close : ℕ → SemaphoreCommand Seconds
  destroy : ℕ → SemaphoreCommand Seconds

module _ {World Seconds : Type 0} (calls : Calls World) (c : SemaphoreCalls World Seconds) where
  unfoldable pub semaphore_command : SemaphoreCommand Seconds → Command (Process World) (Unit {0})
  semaphore_command (create args) = semaphore_create_subcommand calls c args
  semaphore_command (open_named args) = semaphore_open_subcommand calls c args
  semaphore_command (wait args) = semaphore_wait_subcommand calls c args
  semaphore_command (post var) = semaphore_post_subcommand calls c var
  semaphore_command (close var) = semaphore_close_subcommand calls c var
  semaphore_command (destroy var) = semaphore_destroy_subcommand calls c var

  -- the shell goes on after a command that fails
  unfoldable pub semaphore_session : List (SemaphoreCommand Seconds) → Process World → Process World
  semaphore_session [] p = p
  semaphore_session (x ∷ xs) p = semaphore_session xs (semaphore_command x p).1
