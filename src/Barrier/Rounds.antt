-- ===== src/Barrier/Rounds.antt =====
-- l_builtin/src/cmd_barrier.rs: one barrier and the processes that use it. What each does under the
-- mutex is one step: a call of `barrier_wait` up to its loop, the check in the loop after a wait gave
-- a return code, a `barrier_reset`.
use l_builtin.Base.{
  ap, refl, ==_iff, ℕ, zero, suc, ◌+◌, ◌%◌, ◌<◌, ◌≤◌, ◌≡◌, ◌^◌, ◌↔◌, inl, inr, List, [], ◌∷◌, Bool,
  true, false, if◌then◌else◌, ◌==◌, arith, Bool-cases, In,
}
use l_builtin.Barrier.{
  Barrier, Verdict, barrier_enter, barrier_arrive, verdict, recheck, cleared, fresh_barrier,
}

-- The barrier, the processes in the loop, and the calls since it was made or reset last.
pub record Round : Type 0 where
  pub bar : Barrier
  pub blocked : List ℕ
  pub calls : ℕ

-- What a step does for a process.
pub data Action : Type 0 where
  leaves : ℕ → ℕ → Action
  waits : ℕ → Action
  resets : Action

abbrev pub gone : ℕ → List ℕ → List ℕ
gone pid [] = []
gone pid (p ∷ ps) = let rest = gone pid ps in if p == pid then rest else p ∷ rest

abbrev pub after_call : Bool → List ℕ → Round → Round
after_call nonblock blocked r = record {
  bar = (barrier_enter nonblock r.bar).1;
  blocked = blocked;
  calls = r.calls + 1;
}

abbrev pub without : ℕ → Round → Round
without pid r = record { bar = r.bar; blocked = gone pid r.blocked; calls = r.calls }

pub data Step (r : Round) : Action → Round → Type 0 where
  call_passes :
      (pid : ℕ) (nonblock : Bool)
      → (barrier_enter nonblock r.bar).0 ≡ Verdict.pass
      → Step r (leaves pid 0) (after_call nonblock r.blocked r)
  call_refused :
      (pid : ℕ) (nonblock : Bool)
      → (barrier_enter nonblock r.bar).0 ≡ Verdict.refuse
      → Step r (leaves pid 1) (after_call nonblock r.blocked r)
  call_blocks :
      (pid : ℕ) (nonblock : Bool)
      → (barrier_enter nonblock r.bar).0 ≡ Verdict.block
      → Step r (waits pid) (after_call nonblock (pid ∷ r.blocked) r)
  wakes_again :
      (pid rc : ℕ) → In pid r.blocked → recheck rc r.bar ≡ Verdict.block → Step r (waits pid) r
  wakes_passing :
      (pid rc : ℕ)
      → In pid r.blocked
      → recheck rc r.bar ≡ Verdict.pass
      → Step r (leaves pid 0) (without pid r)
  wait_fails :
      (pid rc : ℕ)
      → In pid r.blocked
      → recheck rc r.bar ≡ Verdict.refuse
      → Step r (leaves pid 1) (without pid r)
  is_reset : Step r resets (record { bar = cleared r.bar; blocked = r.blocked; calls = 0 })

-- What follows from a barrier that was created with a count.
pub data Reachable (target : ℕ) : Round → Type 0 where
  created : Reachable target (record { bar = fresh_barrier target; blocked = []; calls = 0 })
  and_step : {r r' : Round} {a : Action} → Reachable target r → Step r a r' → Reachable target r'

-- Unsatisfied with a count of every call, or satisfied by enough calls.
pub data Counts (target : ℕ) (bar : Barrier) (calls : ℕ) : Type 0 where
  counting :
      bar.target ≡ target
      → bar.satisfied ≡ 0
      → bar.count ≡ calls
      → calls < target
      → Counts target bar calls
  satisfied_by :
      bar.target ≡ target
      → bar.satisfied ≡ 1
      → bar.count ≡ target
      → target ≤ calls
      → Counts target bar calls

arrive-Counts :
    (target calls : ℕ) (bar : Barrier)
    → target < 2 ^ 32
    → bar.target ≡ target
    → bar.satisfied ≡ 0
    → bar.count ≡ calls
    → calls < target
    → Counts target (barrier_arrive bar) (calls + 1)
unfolding barrier_arrive
arrive-Counts target calls bar small t s c l =
    let plain : (bar.count + 1) % 2 ^ 32 ≡ calls + 1 = omega arith in
    elim (Bool-cases ((bar.count + 1) % 2 ^ 32 == bar.target)) [
      | inl e ↦
          let here = (==_iff ((bar.count + 1) % 2 ^ 32) bar.target).0 e in
          rw e (satisfied_by t refl (omega arith) (omega arith))
      | inr e ↦ rw e (counting t s plain (ground arith))
    ]

enter-Counts :
    (target calls : ℕ) (nonblock : Bool) (bar : Barrier)
    → target < 2 ^ 32
    → Counts target bar calls
    → Counts target (barrier_enter nonblock bar).1 (calls + 1)
unfolding barrier_enter
enter-Counts target calls nonblock bar small (counting t s c l) =
    let z : (bar.satisfied == 0) ≡ true = ap (λ x. x == 0) s in
    rw z (arrive-Counts target calls bar small t s c l)
enter-Counts target calls nonblock bar small (satisfied_by t s c l) =
    let z : (bar.satisfied == 0) ≡ false = ap (λ x. x == 0) s in
    rw z (satisfied_by t s c (omega arith))

Step-Counts :
    (target : ℕ) (r r' : Round) (a : Action)
    → 0 < target
    → target < 2 ^ 32
    → Counts target r.bar r.calls
    → Step r a r'
    → Counts target r'.bar r'.calls
unfolding cleared
Step-Counts target r r' a pos small h (call_passes pid nonblock e) =
    enter-Counts target r.calls nonblock r.bar small h
Step-Counts target r r' a pos small h (call_refused pid nonblock e) =
    enter-Counts target r.calls nonblock r.bar small h
Step-Counts target r r' a pos small h (call_blocks pid nonblock e) =
    enter-Counts target r.calls nonblock r.bar small h
Step-Counts target r r' a pos small h (wakes_again pid rc i e) = h
Step-Counts target r r' a pos small h (wakes_passing pid rc i e) = h
Step-Counts target r r' a pos small h (wait_fails pid rc i e) = h
Step-Counts target r r' a pos small (counting t s c l) is_reset = counting t refl refl pos
Step-Counts target r r' a pos small (satisfied_by t s c l) is_reset = counting t refl refl pos

pub Reachable-Counts :
    (target : ℕ) (r : Round)
    → 0 < target
    → target < 2 ^ 32
    → Reachable target r
    → Counts target r.bar r.calls
Reachable-Counts target r pos small created = counting refl refl refl pos
Reachable-Counts target r pos small (and_step {r = before} {a = a} reached step) =
    Step-Counts target before r a pos small (Reachable-Counts target before pos small reached) step

verdict_iff :
    (target calls : ℕ) (nonblock : Bool) (bar : Barrier)
    → Counts target bar calls
    → (verdict nonblock bar ≡ Verdict.pass) ↔ (target ≤ calls)
unfolding verdict
verdict_iff target calls nonblock bar (satisfied_by t s c l) =
    let z : (bar.satisfied == 0) ≡ false = ap (λ x. x == 0) s in rw z (λ e. l, λ e. refl)
verdict_iff target calls true bar (counting t s c l) =
    let z : (bar.satisfied == 0) ≡ true = ap (λ x. x == 0) s in
    rw z (λ e. cc, λ e. absurd (omega arith))
verdict_iff target calls false bar (counting t s c l) =
    let z : (bar.satisfied == 0) ≡ true = ap (λ x. x == 0) s in
    rw z (λ e. cc, λ e. absurd (omega arith))

-- A barrier that counts its calls passes the next one when it is the last of enough, or later.
enter_iff :
    (target calls : ℕ) (nonblock : Bool) (bar : Barrier)
    → target < 2 ^ 32
    → Counts target bar calls
    → ((barrier_enter nonblock bar).0 ≡ Verdict.pass) ↔ (target ≤ calls + 1)
unfolding barrier_enter
enter_iff target calls nonblock bar small (counting t s c l) =
    let z : (bar.satisfied == 0) ≡ true = ap (λ x. x == 0) s in
    rw z (
      verdict_iff target (calls + 1) nonblock (barrier_arrive bar)
        (arrive-Counts target calls bar small t s c l))
enter_iff target calls nonblock bar small (satisfied_by t s c l) =
    let z : (bar.satisfied == 0) ≡ false = ap (λ x. x == 0) s in rw z (λ e. omega arith, λ e. refl)

-- From `create` on with a COUNT that is not 0 and fits a `u32`, and whatever the processes do: the
-- next `barrier_wait` returns 0 at once exactly when COUNT calls, itself included, have been made
-- since the barrier was created or reset last.
pub call_passes_iff :
    (target : ℕ) (r : Round) (nonblock : Bool)
    → 0 < target
    → target < 2 ^ 32
    → Reachable target r
    → ((barrier_enter nonblock r.bar).0 ≡ Verdict.pass) ↔ (target ≤ r.calls + 1)
call_passes_iff target r nonblock pos small reached =
    enter_iff target r.calls nonblock r.bar small (Reachable-Counts target r pos small reached)

satisfied_iff :
    (target calls : ℕ) (bar : Barrier)
    → Counts target bar calls
    → (recheck 0 bar ≡ Verdict.pass) ↔ (target ≤ calls)
unfolding recheck
satisfied_iff target calls bar (satisfied_by t s c l) =
    let z : (bar.satisfied == 0) ≡ false = ap (λ x. x == 0) s in rw z (λ e. l, λ e. refl)
satisfied_iff target calls bar (counting t s c l) =
    let z : (bar.satisfied == 0) ≡ true = ap (λ x. x == 0) s in
    rw z (λ e. cc, λ e. absurd (omega arith))

recheck-refuse : (rc : ℕ) (bar : Barrier) → recheck (suc rc) bar ≡ Verdict.pass → ⊥
unfolding recheck
recheck-refuse rc bar e =
    let failed : (suc rc == 0) ≡ false = ground arith in refuses (rw failed at e)
  where
    refuses : Verdict.refuse ≡ Verdict.pass → ⊥
    refuses h = cc

-- From `create` on with a COUNT that is not 0 and fits a `u32`, and whatever the processes do: a
-- process that is blocked in the loop of `barrier_wait` returns 0, once its wait gave a return code,
-- exactly when that code is 0 and COUNT calls have been made since the barrier was created or reset
-- last; a wakeup before that lets nobody through.
pub recheck_iff :
    (target rc : ℕ) (r : Round)
    → 0 < target
    → target < 2 ^ 32
    → Reachable target r
    → (recheck rc r.bar ≡ Verdict.pass) ↔ ((rc ≡ 0) × (target ≤ r.calls))
recheck_iff target zero r pos small reached =
    let here = satisfied_iff target r.calls r.bar (Reachable-Counts target r pos small reached) in
    (λ e. (refl, here.0 e), λ e. here.1 e.1)
recheck_iff target (suc rc) r pos small reached =
    (λ e. absurd (recheck-refuse rc r.bar e), λ e. absurd (omega arith))
