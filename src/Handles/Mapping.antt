-- ===== src/Handles/Mapping.antt =====
-- l_builtin/src/handles.rs: mapping shared memory. An error message is EXECUTION_FAILURE here, which
-- is what each caller makes of it.
use l_builtin.Base.{
  ℕ, Option, none, some, Bool, true, false, Bytes, ok, err, Outcome, Command, execution_failure,
}
use l_builtin.Shell.{Calls}

abbrev pub mapped : {World : Type 0} → Option ℕ × World → Outcome ℕ × World
mapped (none, w) = (err execution_failure, w)
mapped (some ptr, w) = (ok ptr, w)

module _ {World : Type 0} (calls : Calls World) where
  unfoldable pub map_anonymous : ℕ → Command World ℕ
  map_anonymous size w = mapped (calls.mmap none size w)

  -- the end of `map_named`: the descriptor is closed whether or not the mapping succeeded
  abbrev pub map_descriptor : ℕ → ℕ → Command World ℕ
  map_descriptor fd size w = let r = calls.mmap (some fd) size w in mapped (r.0, calls.close fd r.1)

  abbrev pub sized : ℕ → ℕ → Bool × World → Outcome ℕ × World
  sized fd size (true, w) = map_descriptor fd size w
  sized fd size (false, w) = (err execution_failure, calls.close fd w)

  abbrev pub opened : ℕ → Bool → Option ℕ × World → Outcome ℕ × World
  opened size create (none, w) = (err execution_failure, w)
  opened size true (some fd, w) = sized fd size (calls.ftruncate fd size w)
  opened size false (some fd, w) = map_descriptor fd size w

  unfoldable pub map_named : Bytes → ℕ → Bool → Command World ℕ
  map_named name size create w = opened size create (calls.shm_open name create w)

  unfoldable pub unmap : ℕ → ℕ → Command World Unit
  unmap ptr size w = (ok tt, calls.munmap ptr size w)

  -- the mapping that a `create` makes: of a named object, or anonymous
  abbrev pub map_for : Option Bytes → ℕ → Command World ℕ
  map_for none size = map_anonymous size
  map_for (some name) size = map_named name size true

  -- the end of a `destroy`
  abbrev pub unlink_named : Option Bytes → World → World
  unlink_named none w = w
  unlink_named (some name) w = calls.shm_unlink name w
