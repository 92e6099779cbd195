-- ===== src/Read/Tests.antt =====
-- Runs of `read` (l_builtin/src/read.rs) on a pipe that has no data yet.
use l_builtin.Base.{ℕ, ◌+◌, ◌*◌, ◌/◌, ◌%◌, ◌≡◌, ap, arith, refl, none, some, true, false, [], ok}
use l_builtin.Shell.{Calls}
use l_builtin.Shell.Steps.{dropping}
use l_builtin.Write.{Format}
use l_builtin.Read.{
  dropping, ReadCalls, ReadArgs, ReadResult, read_subcommand, read_loop, nonblock_guard, restore,
  guarded_read,
}
use l_builtin.Read.Restored.{FlagLaws, flags_restored}

-- The world: the flags of the one descriptor.
abbrev quiet_calls : Calls ℕ
quiet_calls = record {
  legal_identifier = λ name. true;
  find_variable = λ name w. none;
  bind_variable = λ name value w. (true, w);
  shm_open = λ name create w. (none, w);
  ftruncate = λ fd size w. (false, w);
  mmap = λ fd size w. (none, w);
  munmap = λ ptr size w. w;
  close = λ fd w. w;
  shm_unlink = λ name w. w;
}

-- F_SETFL keeps the access mode, the two lowest bits.
abbrev pipe_setfl : ℕ → ℕ → ℕ
pipe_setfl old new = new / 4 * 4 + old % 4

pipe_setfl-back : (old new : ℕ) → pipe_setfl (pipe_setfl old new) old ≡ old
pipe_setfl-back old new = omega arith

abbrev pipe : ReadCalls ℕ
pipe = record {
  get_flags = λ fd w. (some w, w);
  set_flags = λ fd new w. (true, pipe_setfl w new);
  read_fd = λ fd size w. (ReadResult.errno 11, w);
}

impossible : {A : Type 0} → true ≡ false → A
impossible e = absurd (clash e)
  where
    clash : true ≡ false → ⊥
    clash e = cc

some_inj : (a b : ℕ) → some a ≡ some b → a ≡ b
some_inj a b e = cc

pipe-laws : FlagLaws quiet_calls pipe (λ w fd. some w) pipe_setfl
pipe-laws = record {
  setfl_back = λ old new. pipe_setfl-back old new;
  get_same = λ fd w. refl;
  get_right = λ fd old w e. e;
  set_done = λ fd old new w e done. ap (λ f. some (pipe_setfl f new)) (some_inj w old e);
  set_refused = λ fd new w e. impossible e;
  clears_nonblock = λ fd old w e. refl;
  read_same = λ fd size w. refl;
  bind_same = λ name value fd w. refl;
}

abbrev args : ReadArgs
args = record {
  non_blocking = true;
  interruptible = false;
  format = Format.raw;
  var = none;
  fd = 3;
  size = 10;
}

flags_restored_example : some (read_subcommand quiet_calls pipe 4 args 2).1 ≡ some 2
flags_restored_example =
    flags_restored quiet_calls pipe (λ w fd. some w) pipe_setfl pipe-laws 4 args 2

no_data : (read_subcommand quiet_calls pipe 4 args 2).0 ≡ ok (some [])
unfolding read_subcommand read_loop nonblock_guard restore guarded_read dropping
no_data = refl
