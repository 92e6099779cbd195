-- ===== src/Shell/Steps.antt =====
-- The ways in which the handlers call the C library: a return code that is tested, and what is
-- undone when it is not 0.
use l_builtin.Base.{Outcome, ℕ, ok, err, Command, execution_failure, if◌then◌else◌, ◌==◌}

module _ {World : Type 0} where
  -- `return Err(...)` where the code is not 0
  abbrev pub tested : ℕ × World → Outcome (Unit {0}) × World
  tested (code, w) = if code == 0 then (ok tt, w) else (err execution_failure, w)

  unfoldable pub succeeds : (World → ℕ × World) → Command World (Unit {0})
  succeeds f w = tested (f w)

  unfoldable pub effect : (World → World) → Command World (Unit {0})
  effect f w = (ok tt, f w)

  -- the last call is made whatever the code of the first is
  unfoldable pub succeeds_then : (World → ℕ × World) → (World → World) → Command World (Unit {0})
  succeeds_then f last w = let r = f w in tested (r.0, last r.1)

  abbrev pub undone : {A : Type 0} → (World → World) → Outcome A × World → Outcome A × World
  undone undo (ok a, w) = (ok a, w)
  undone undo (err code, w) = (err code, undo w)

  -- what is done when a command fails
  unfoldable pub rescue : {A : Type 0} → Command World A → (World → World) → Command World A
  rescue command undo w = undone undo (command w)

  -- a guard's `drop`: done however the command ends
  unfoldable pub dropping : {A : Type 0} → Command World A → (World → World) → Command World A
  dropping command drop w = let r = command w in (r.0, drop r.1)
