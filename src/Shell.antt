-- ===== src/Shell.antt =====
-- What the program calls outside itself - bash's variables and the C library - and
-- l_builtin/src/cmdargs.rs: `BashVar`, which gives a shell variable its value.
pub mod Variable
mod Tests
pub mod Steps
pub mod Arguments
use l_builtin.Base.{ℕ, Option, Bool, Bytes}

-- The calls that every primitive makes, on a world that they read and change. A result is `none`
-- where C says -1, null or MAP_FAILED; a Boolean says that the call succeeded.
pub record Calls (World : Type 0) : Type 0 where
  pub legal_identifier : Bytes → Bool
  -- `find_variable` and `readonly_p`: no variable, or whether it is read-only
  pub find_variable : Bytes → World → Option Bool
  pub bind_variable : Bytes → Bytes → World → Bool × World
  -- whether the object may be created
  pub shm_open : Bytes → Bool → World → Option ℕ × World
  pub ftruncate : ℕ → ℕ → World → Bool × World
  -- shared memory of a descriptor, or anonymous
  pub mmap : Option ℕ → ℕ → World → Option ℕ × World
  pub munmap : ℕ → ℕ → World → World
  pub close : ℕ → World → World
  pub shm_unlink : Bytes → World → World
