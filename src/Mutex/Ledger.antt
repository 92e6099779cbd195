-- ===== src/Mutex/Ledger.antt =====
-- l_builtin/src/cmd_mutex.rs: every mapping that a mutex command makes is owned by one handle or
-- taken back, on its error paths too.
use l_builtin.Base.{ℕ, ◌+◌, List, [], ◌∷◌, Option, none, some, Bool, true, false, length, arith}
use l_builtin.Base.Hoare.{either_way}
use l_builtin.Shell.{Calls}
use l_builtin.Handles.{Process, pointers}
use l_builtin.Handles.Ledger.{Books, Accounting, Balanced}
use l_builtin.Handles.Keeping.{fewer, moved}
use l_builtin.Handles.Shapes.{
  Keeps, create-Keeps, open-Keeps, use-Keeps, close-Keeps, destroy-Keeps,
}
use l_builtin.Mutex.{MutexCalls, mutex_init, mutex_lock, mutex_unlock}
use l_builtin.Mutex.Commands.{
  unlock_each, unlocked, mutex_create_subcommand, mutex_open_subcommand, mutex_lock_subcommand,
  mutex_unlock_subcommand, mutex_close_subcommand, mutex_destroy_subcommand,
}
use l_builtin.Mutex.Quiet.{
  QuietMutex, mutex_init-Quiet, mutex_lock-Quiet, mutex_unlock-Quiet, unlock_each-Quiet,
}
use l_builtin.Mutex.Session.{
  MutexCommand, create, open_named, lock, unlock, close, destroy, mutex_command, mutex_session,
}

module _ {World Seconds : Type 0} (calls : Calls World) (books : Books World)
    (laws : Accounting books calls) (c : MutexCalls World Seconds) (quiet : QuietMutex books c)
    (o f : ℕ → ℕ) where
  unlock-Keeps :
      (room : ℕ) (all : Bool) (mutex : Option ℕ)
      → Keeps calls books laws o f room (unlocked calls c all mutex)
  unlock-Keeps room true mutex = record {
    apply = λ p b.
        let w = unlock_each calls c (pointers p.registry) p.world in
        moved calls books laws o f room [] p w (fewer calls books laws o f room [] p b)
          (unlock_each-Quiet books c quiet calls (pointers p.registry) p.world);
  }
  unlock-Keeps room false none = record { apply = λ p b. fewer calls books laws o f room [] p b }
  unlock-Keeps room false (some id) =
      use-Keeps calls books laws o f room (mutex_unlock c) id (mutex_unlock-Quiet books c quiet)

  command-Keeps :
      (room : ℕ) (x : MutexCommand Seconds)
      → Keeps calls books laws o f room (mutex_command calls c x)
  unfolding mutex_command mutex_create_subcommand mutex_open_subcommand mutex_lock_subcommand
      mutex_unlock_subcommand mutex_close_subcommand mutex_destroy_subcommand
  command-Keeps room (create args) =
      create-Keeps calls books laws o f room (λ ptr. mutex_init c ptr args.robust) args.name
        c.mutex_bytes args.mutex (λ ptr. mutex_init-Quiet books c quiet ptr args.robust)
  command-Keeps room (open_named args) =
      open-Keeps calls books laws o f room args.name c.mutex_bytes args.mutex
  command-Keeps room (lock args) =
      use-Keeps calls books laws o f room (λ ptr. mutex_lock c ptr args.timeout args.nonblock)
        args.mutex (λ ptr. mutex_lock-Quiet books c quiet ptr args.timeout args.nonblock)
  command-Keeps room (unlock args) = unlock-Keeps room args.all args.mutex
  command-Keeps room (close id) = close-Keeps calls books laws o f room id c.mutex_bytes
  command-Keeps room (destroy id) = destroy-Keeps calls books laws o f room id c.mutex_bytes

  after_command :
      (room : ℕ) (x : MutexCommand Seconds) (p : Process World)
      → Balanced books o f (room + 1) [] p
      → Balanced books o f room [] (mutex_command calls c x p).1
  after_command room x p b =
      either_way (Balanced books o f room []) (mutex_command calls c x p)
        ((command-Keeps room x).apply p b)

  -- After any mutex commands, whatever their results, each mapping that they made is owned by one
  -- entry of the registry and no descriptor is left open, if that was so before, there are ids left
  -- to give out, and the calls keep to their manual pages.
  pub mutex_session-Balanced :
      (xs : List (MutexCommand Seconds)) (p : Process World)
      → Balanced books o f (length xs) [] p
      → Balanced books o f 0 [] (mutex_session calls c xs p)
  unfolding mutex_session
  mutex_session-Balanced [] p b = b
  mutex_session-Balanced (x ∷ xs) p b = mutex_session-Balanced xs (mutex_command calls c x p).1 (
      after_command (length xs) x p (record {
        distinct = b.distinct;
        has_room = (let h = b.has_room in omega arith);
        holding = b.holding;
      }))
