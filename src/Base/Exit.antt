-- ===== src/Base/Exit.antt =====
-- `CmdResult` of subcmd.rs and the shell's exit codes; a command is an action on a state that may
-- fail with an exit code, and what it did before it failed stays done.
use Prim.Native.Nat.{ℕ}

abbrev pub execution_failure : ℕ
execution_failure = 1

abbrev pub ex_usage : ℕ
ex_usage = 258

-- `Result<T, c_int>`
pub data Outcome {ℓ} (A : Type ℓ) : Type ℓ where
  ok : A → Outcome A
  err : ℕ → Outcome A

-- A command on a state: the state comes back beside the exit code too.
abbrev pub Command {ℓ} : Type ℓ → Type ℓ → Type ℓ
Command State Value = State → Outcome Value × State

abbrev pub succeed {ℓ} : {State Value : Type ℓ} → Value → Command State Value
succeed value state = (ok value, state)

abbrev pub fail {ℓ} : {State Value : Type ℓ} → ℕ → Command State Value
fail code state = (err code, state)

-- `?` and the statements behind it
abbrev pub and_then {ℓ} :
    {State Value Next : Type ℓ}
    → Outcome Value × State
    → (Value → Command State Next)
    → Outcome Next × State
and_then (ok value, state) rest = rest value state
and_then (err code, state) rest = (err code, state)

infixl 10 ◌>>=◌ ◌>>◌
abbrev pub ◌>>=◌ {ℓ} :
    {State Value Next : Type ℓ}
    → Command State Value
    → (Value → Command State Next)
    → Command State Next
◌>>=◌ first rest state = and_then (first state) rest

abbrev pub ◌>>◌ {ℓ} :
    {State Value Next : Type ℓ} → Command State Value → Command State Next → Command State Next
◌>>◌ first rest state = and_then (first state) (λ _. rest)
