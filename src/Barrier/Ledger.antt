-- ===== src/Barrier/Ledger.antt =====
-- l_builtin/src/cmd_barrier.rs: every mapping that a barrier command makes is owned by one handle or
-- taken back, on its error paths too.
use l_builtin.Base.{succeed, ℕ, ◌+◌, List, [], ◌∷◌, length, ◌==◌, Bool-cases, inl, inr, arith}
use l_builtin.Base.Hoare.{either_way, sequence}
use l_builtin.Shell.{Calls}
use l_builtin.Handles.{Process}
use l_builtin.Handles.Ledger.{Books, Accounting, Balanced}
use l_builtin.Handles.Keeping.{fewer}
use l_builtin.Handles.Shapes.{
  Keeps, create-Keeps, open-Keeps, use-Keeps, close-Keeps, destroy-Keeps,
}
use l_builtin.Barrier.{BarrierCalls}
use l_builtin.Barrier.Wait.{barrier_init, barrier_wait, barrier_reset}
use l_builtin.Barrier.Commands.{
  BarrierCreateSubcommand, barrier_create_subcommand, create_barrier, barrier_open_subcommand,
  barrier_wait_subcommand, barrier_close_subcommand, barrier_reset_subcommand,
  barrier_destroy_subcommand,
}
use l_builtin.Barrier.Session.{
  BarrierCommand, create, open_named, wait, close, reset, destroy, barrier_command, barrier_session,
}
use l_builtin.Barrier.Quiet.{
  QuietBarrier, barrier_init-Quiet, barrier_wait-Quiet, barrier_reset-Quiet,
}

module _ {World Seconds : Type 0} (calls : Calls World) (books : Books World)
    (laws : Accounting books calls) (c : BarrierCalls World Seconds) (quiet : QuietBarrier books c)
    (o f : ℕ → ℕ) where
  barrier_create-Keeps :
      (room : ℕ) (args : BarrierCreateSubcommand)
      → Keeps calls books laws o f room (barrier_create_subcommand calls c args)
  unfolding barrier_create_subcommand create_barrier
  barrier_create-Keeps room args = record {
    apply = λ p b. elim (Bool-cases (args.count == 0)) [
      | inl e ↦ rw e (fewer calls books laws o f room [] p b)
      | inr e ↦ rw e (
          (create-Keeps calls books laws o f room (λ ptr. barrier_init c ptr args.count) args.name
              c.barrier_bytes args.var
              (λ ptr. barrier_init-Quiet books c quiet ptr args.count)).apply
            p b)
    ];
  }

  command-Keeps :
      (room : ℕ) (x : BarrierCommand Seconds)
      → Keeps calls books laws o f room (barrier_command calls c x)
  unfolding barrier_command barrier_open_subcommand barrier_wait_subcommand barrier_close_subcommand
      barrier_reset_subcommand barrier_destroy_subcommand
  command-Keeps room (create args) = barrier_create-Keeps room args
  command-Keeps room (open_named args) =
      open-Keeps calls books laws o f room args.name c.barrier_bytes args.barrier
  command-Keeps room (wait wakeups args) =
      sequence {rest = λ _. succeed tt}
        (use-Keeps calls books laws o f room
          (λ ptr. barrier_wait c wakeups ptr args.timeout args.nonblock) args.id
          (λ ptr. barrier_wait-Quiet books c quiet wakeups ptr args.timeout args.nonblock))
        (λ _. record { apply = λ p b. b })
  command-Keeps room (close id) = close-Keeps calls books laws o f room id c.barrier_bytes
  command-Keeps room (reset id) =
      use-Keeps calls books laws o f room (barrier_reset c) id (barrier_reset-Quiet books c quiet)
  command-Keeps room (destroy id) = destroy-Keeps calls books laws o f room id c.barrier_bytes

  after_command :
      (room : ℕ) (x : BarrierCommand Seconds) (p : Process World)
      → Balanced books o f (room + 1) [] p
      → Balanced books o f room [] (barrier_command calls c x p).1
  after_command room x p b =
      either_way (Balanced books o f room []) (barrier_command calls c x p)
        ((command-Keeps room x).apply p b)

  -- After any barrier commands, whatever their results, each mapping that they made is owned by one
  -- entry of the registry and no descriptor is left open, if that was so before, there are ids left
  -- to give out, and the calls keep to their manual pages.
  pub barrier_session-Balanced :
      (xs : List (BarrierCommand Seconds)) (p : Process World)
      → Balanced books o f (length xs) [] p
      → Balanced books o f 0 [] (barrier_session calls c xs p)
  unfolding barrier_session
  barrier_session-Balanced [] p b = b
  barrier_session-Balanced (x ∷ xs) p b =
      barrier_session-Balanced xs (barrier_command calls c x p).1 (
        after_command (length xs) x p (record {
          distinct = b.distinct;
          has_room = (let h = b.has_room in omega arith);
          holding = b.holding;
        }))
