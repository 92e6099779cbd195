-- ===== src/Barrier/Tests.antt =====
-- Runs of barriers (l_builtin/src/cmd_barrier.rs).
use l_builtin.Base.{◌+◌, ℕ, ◌≡◌, ◌≤◌, ◌↔◌, refl, none, some, true, false, arith, List, [], ◌∷◌}
use l_builtin.Handles.Ledger.{Balanced}
use l_builtin.Machine.{
  start, start-Balanced, machine_calls, machine_books, machine-Accounting, machine_barrier,
  machine_barrier-Quiet,
}
use l_builtin.Barrier.{Verdict, barrier_enter, barrier_arrive, verdict, fresh_barrier, recheck}
use l_builtin.Barrier.Session.{BarrierCommand, create, wait, close, destroy, barrier_session}
use l_builtin.Barrier.Ledger.{barrier_session-Balanced}
use l_builtin.Barrier.Rounds.{
  Round, Reachable, created, and_step, call_blocks, call_passes, after_call, call_passes_iff,
  recheck_iff,
}

abbrev commands : List (BarrierCommand ℕ)
commands =
    create (record { name = none; var = record { name = (b'a' ∷ []) }; count = 2 })
    ∷ create (record { name = none; var = record { name = (b'z' ∷ []) }; count = 0 })
    ∷ create (record {
      name = some (b'g' ∷ b'a' ∷ b't' ∷ b'e' ∷ []);
      var = record { name = (b'b' ∷ []) };
      count = 2;
    })
    ∷ wait 1 (record { nonblock = false; timeout = some 1; id = 2 })
    ∷ close 1
    ∷ close 1
    ∷ destroy 2
    ∷ []

barrier_session-Balanced_example :
    Balanced machine_books
      (λ q. 0)
      (λ f. 0)
      0
      []
      (barrier_session machine_calls machine_barrier commands start)
barrier_session-Balanced_example =
    barrier_session-Balanced machine_calls machine_books machine-Accounting machine_barrier
      machine_barrier-Quiet (λ q. 0) (λ f. 0) commands start (start-Balanced 7 (omega arith))

abbrev new_round : Round
new_round = record { bar = fresh_barrier 2; blocked = []; calls = 0 }

abbrev one_waits : Round
one_waits = after_call false (7 ∷ []) new_round

first_blocks : (barrier_enter false new_round.bar).0 ≡ Verdict.block
unfolding barrier_enter barrier_arrive verdict
first_blocks = refl

abbrev reached : Reachable 2 one_waits
reached = and_step created (call_blocks 7 false first_blocks)

call_passes_iff_example :
    ((barrier_enter true one_waits.bar).0 ≡ Verdict.pass) ↔ (2 ≤ one_waits.calls + 1)
call_passes_iff_example = call_passes_iff 2 one_waits true (omega arith) (omega arith) reached

second_passes : (barrier_enter true one_waits.bar).0 ≡ Verdict.pass
unfolding barrier_enter barrier_arrive verdict
second_passes = refl

-- The second call has been made, and the first caller is in its loop.
abbrev two_called : Round
two_called = after_call true one_waits.blocked one_waits

recheck_iff_example :
    (recheck 0 two_called.bar ≡ Verdict.pass) ↔ ((◌≡◌ {A = ℕ} 0 0) × (2 ≤ two_called.calls))
recheck_iff_example =
    recheck_iff 2 0 two_called (omega arith) (omega arith)
      (and_step reached (call_passes 8 true second_passes))
