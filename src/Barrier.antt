-- ===== src/Barrier.antt =====
-- l_builtin/src/cmd_barrier.rs: barriers in shared memory. The barrier itself, and what it asks of
-- the C library.
mod Tests
pub mod Wait
pub mod Commands
pub mod Session
pub mod Rounds
pub mod Quiet
pub mod Ledger
use l_builtin.Base.{ℕ, Bool, true, false, if◌then◌else◌, ◌==◌, ◌+◌, ◌%◌, ◌^◌}

-- `struct Barrier`; its mutex and its condition variable are the C library's.
pub record Barrier : Type 0 where
  pub count : ℕ
  pub target : ℕ
  pub satisfied : ℕ

-- The calls on the barrier at an address. A number is a return code.
pub record BarrierCalls (World Seconds : Type 0) : Type 0 where
  pub barrier_bytes : ℕ
  pub load_barrier : ℕ → World → Barrier
  pub store_barrier : ℕ → Barrier → World → World
  pub mutexattr_init : World → ℕ × World
  pub mutexattr_setpshared : World → World
  pub mutexattr_destroy : World → World
  pub condattr_init : World → ℕ × World
  pub condattr_setpshared : World → World
  pub condattr_destroy : World → World
  pub pthread_mutex_init : ℕ → World → ℕ × World
  pub cond_init : ℕ → World → ℕ × World
  pub pthread_mutex_lock : ℕ → World → ℕ × World
  pub pthread_mutex_unlock : ℕ → World → World
  pub cond_broadcast : ℕ → World → World
  pub cond_wait : ℕ → World → ℕ × World
  -- `timespec_from_now` and `pthread_cond_timedwait`
  pub cond_timedwait : ℕ → Seconds → World → ℕ × World

-- What `barrier_init` writes.
abbrev pub fresh_barrier : ℕ → Barrier
fresh_barrier target = record { count = 0; target = target; satisfied = 0 }

-- One arrival, as it changes the memory; the count is a `u32`.
unfoldable pub barrier_arrive : Barrier → Barrier
barrier_arrive bar =
    let count = (bar.count + 1) % 2 ^ 32 in
    if count == bar.target
    then record { count = count; target = bar.target; satisfied = 1 }
    else record { count = count; target = bar.target; satisfied = bar.satisfied }

-- What `barrier_wait` does once it has arrived: it returns, with 0 or 1, or blocks.
pub data Verdict : Type 0 where
  pass refuse block : Verdict

unfoldable pub verdict : Bool → Barrier → Verdict
verdict nonblock bar =
    if bar.satisfied == 0
    then (if nonblock then Verdict.refuse else Verdict.block)
    else Verdict.pass

-- `barrier_wait` up to its loop, as it changes the memory
unfoldable pub barrier_enter : Bool → Barrier → Verdict × Barrier
barrier_enter nonblock bar =
    let arrived = barrier_arrive bar in
    if bar.satisfied == 0 then (verdict nonblock arrived, arrived) else (Verdict.pass, bar)

-- What the loop of `barrier_wait` does once its wait gave a return code: it fails, waits again, or
-- returns 0.
unfoldable pub recheck : ℕ → Barrier → Verdict
recheck rc bar =
    if rc == 0 then (if bar.satisfied == 0 then Verdict.block else Verdict.pass) else Verdict.refuse

-- What `barrier_reset` writes.
unfoldable pub cleared : Barrier → Barrier
cleared bar = record { count = 0; target = bar.target; satisfied = 0 }
