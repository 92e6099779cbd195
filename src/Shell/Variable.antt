-- ===== src/Shell/Variable.antt =====
-- l_builtin/src/cmdargs.rs: `BashVar` and the binding of a shell variable.
use l_builtin.Base.{
  ℕ, Option, none, some, Bool, true, false, Bytes, ok, err, Outcome, Command, execution_failure,
  if◌then◌else◌,
}
use l_builtin.Shell.{Calls}
use l_builtin.IntStr.{to_intstr, as_bytes}

pub record BashVar : Type 0 where
  pub name : Bytes

abbrev pub bound : {World : Type 0} → Bool × World → Outcome (Unit {0}) × World
bound (true, w) = (ok tt, w)
bound (false, w) = (err execution_failure, w)

abbrev writable : Bytes → Option Bool → Option BashVar
writable name none = some (record { name = name })
writable name (some false) = some (record { name = name })
writable name (some true) = none

module _ {World : Type 0} (calls : Calls World) where
  abbrev pub checked : Option Bool → Bytes → Bytes → Command World Unit
  checked none name value w = bound (calls.bind_variable name value w)
  checked (some false) name value w = bound (calls.bind_variable name value w)
  checked (some true) name value w = (err execution_failure, w)

  unfoldable pub l_bind_variable_check : Bytes → Bytes → Command World Unit
  l_bind_variable_check name value w = checked (calls.find_variable name w) name value w

  -- `validate`, which only reads
  unfoldable pub validate : Bytes → World → Option BashVar
  validate name w =
      if calls.legal_identifier name then writable name (calls.find_variable name w) else none

  unfoldable pub set : BashVar → Bytes → Command World Unit
  set var value = l_bind_variable_check var.name value

  unfoldable pub set_int : BashVar → ℕ → Command World Unit
  set_int var id = set var (as_bytes (to_intstr 64 id))
