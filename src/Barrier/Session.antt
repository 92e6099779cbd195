-- ===== src/Barrier/Session.antt =====
-- l_builtin/src/cmd_barrier.rs: any sequence of barrier commands of one process.
use l_builtin.Base.{◌>>=◌, succeed, ℕ, List, [], ◌∷◌, Command}
use l_builtin.Shell.{Calls}
use l_builtin.Handles.{Process}
use l_builtin.Barrier.{BarrierCalls}
use l_builtin.Barrier.Commands.{
  BarrierCreateSubcommand, BarrierOpenArgs, BarrierWaitSubcommand, barrier_create_subcommand,
  barrier_open_subcommand, barrier_wait_subcommand, barrier_close_subcommand,
  barrier_reset_subcommand, barrier_destroy_subcommand,
}

-- A command, and for a wait the number of wakeups that it is followed for.
pub data BarrierCommand (Seconds : Type 0) : Type 0 where
  create : BarrierCreateSubcommand → BarrierCommand Seconds
  open_named : BarrierOpenArgs → BarrierCommand Seconds
  wait : ℕ → BarrierWaitSubcommand Seconds → BarrierCommand Seconds
  close : ℕ → BarrierCommand Seconds
  reset : ℕ → BarrierCommand Seconds
  destroy : ℕ → BarrierCommand Seconds

module _ {World Seconds : Type 0} (calls : Calls World) (c : BarrierCalls World Seconds) where
  unfoldable pub barrier_command : BarrierCommand Seconds → Command (Process World) (Unit {0})
  barrier_command (create args) = barrier_create_subcommand calls c args
  barrier_command (open_named args) = barrier_open_subcommand calls c args
  barrier_command (wait wakeups args) =
      barrier_wait_subcommand calls c wakeups args >>= λ _. succeed tt
  barrier_command (close id) = barrier_close_subcommand calls c id
  barrier_command (reset id) = barrier_reset_subcommand calls c id
  barrier_command (destroy id) = barrier_destroy_subcommand calls c id

  -- the shell goes on after a command that fails
  unfoldable pub barrier_session : List (BarrierCommand Seconds) → Process World → Process World
  barrier_session [] p = p
  barrier_session (x ∷ xs) p = barrier_session xs (barrier_command x p).1
