-- ===== src/Entry.antt =====
-- l_builtin/src/entrypoint.rs and l_builtin/src/subcmd.rs: the dispatch of a command, and the capture of
-- its output into a variable.
pub mod Trimmed
pub mod Undisturbed
mod Tests
use l_builtin.Base.{
  ◌>>=◌, ◌>>◌, ℕ, zero, suc, ◌+◌, ◌-◌, Option, none, some, List, [], ◌∷◌, Bool, true, false, ◌&&◌,
  Bytes, Command, Outcome, ok, err, succeed, fail, execution_failure, ex_usage, if◌then◌else◌, ◌==◌,
  ltb, length, get_or, take, set,
}

-- `cmd_result_to_cint`, `cint_to_cmd_result`
unfoldable pub cmd_result_to_cint : Outcome (Unit {0}) → ℕ
cmd_result_to_cint (ok u) = 0
cmd_result_to_cint (err code) = code

unfoldable pub cint_to_cmd_result : ℕ → Outcome (Unit {0})
cint_to_cmd_result res = if res == 0 then ok tt else err res

-- The loop over the end of the text: where the text ends, or none where it did not end yet
unfoldable pub trim_loop : ℕ → Bytes → ℕ → Option ℕ
trim_loop zero bytes i = none
trim_loop (suc n) bytes i =
    let further = trim_loop n bytes (i - 2) in
    let next = trim_loop n bytes (i - 1) in
    if i == 0
    then some 0
    else if get_or bytes (i - 1) 0 == b'\n'
    then (if ltb 0 (i - 1) && (get_or bytes (i - 2) 0 == b'\r') then further else next)
    else some i

abbrev pub cut : Bytes → Option ℕ → Bytes
cut bytes none = bytes
cut bytes (some i) = if ltb i (length bytes) then set bytes i 0 else bytes

-- `trim_trailing_newlines_in_zero_terminated_array_place`, on the bytes in front of the last NUL
unfoldable pub trim_trailing_newlines : Bytes → Bytes
trim_trailing_newlines bytes = cut bytes (trim_loop (length bytes + 1) bytes (length bytes))

-- The documentation of a builtin, by its pointers
pub record Docs : Type 0 where
  pub short_doc : ℕ
  pub long_doc : ℕ

-- What descriptor 1 is, the builtin that runs, the documentation of each builtin, and the rest
pub record Terminal (World : Type 0) : Type 0 where
  pub stdout : ℕ
  pub current_builtin : ℕ
  pub docs : ℕ → Docs
  pub world : World

-- A handler returns, or panics; the release profile aborts on a panic, so there it only returns.
pub data Ending : Type 0 where
  returned : Outcome (Unit {0}) → Ending
  panicked : Ending

-- The calls that the capture makes; a failure is `none` or an exit code.
pub record Capture (World : Type 0) : Type 0 where
  pub new_memfd : World → Option ℕ × World
  pub dup_stdout : World → Bool × World
  pub dup2_stdout : World → Bool × World
  pub write_nul : ℕ → World → Bool × World
  pub map_mut : ℕ → World → Option Bytes × World
  pub set_variable : Bytes → Bytes → Command World (Unit {0})

abbrev pub Handler : Type 0 → Type 0
Handler World = Terminal World → Ending × Terminal World

module _ {World : Type 0} where
  -- A test of a call: the world is that which the call left.
  abbrev pub or_fail : Bool × World → Command (Terminal World) (Unit {0})
  or_fail (true, w) t = (ok tt, record t { world = w })
  or_fail (false, w) t = (err execution_failure, record t { world = w })

  abbrev pub value_or_fail : {A : Type 0} → Option A × World → Command (Terminal World) A
  value_or_fail (some a, w) t = (ok a, record t { world = w })
  value_or_fail (none, w) t = (err execution_failure, record t { world = w })

  -- `RedirectStdout::drop`: descriptor 1 is what was saved.
  abbrev pub restored_stdout : {A : Type 0} → ℕ → A × Terminal World → A × Terminal World
  restored_stdout saved (a, t) = (a, record t { stdout = saved })

  abbrev pub unwound : Ending × Terminal World → Outcome (Outcome (Unit {0})) × Terminal World
  unwound (Ending.returned result, t) = (ok result, t)
  unwound (Ending.panicked, t) = (err execution_failure, t)

  abbrev pub assigned : Outcome (Unit {0}) × World → Command (Terminal World) (Unit {0})
  assigned (result, w) t = (result, record t { world = w })

  abbrev pub as_result : Outcome (Unit {0}) → Command (Terminal World) (Unit {0})
  as_result result t = (result, t)

  -- `SubcommandGuard`: the documentation of the builtin that ran when the guard was made
  abbrev pub restored_docs : {A : Type 0} → ℕ → Docs → A × Terminal World → A × Terminal World
  restored_docs builtin saved (a, t) =
      (a, record t { docs = λ b. if b == builtin then saved else t.docs b })

  -- `l_enter_subcommand` without a name
  unfoldable pub enter_docs : Docs → Command (Terminal World) (Unit {0})
  enter_docs docs t =
      (ok tt, record t { docs = λ b. if b == t.current_builtin then docs else t.docs b })

  -- A handler that panics outside of a capture ends the shell; what it returns is not told.
  abbrev pub direct : Ending × Terminal World → Outcome (Unit {0}) × Terminal World
  direct (Ending.returned result, t) = (result, t)
  direct (Ending.panicked, t) = (err execution_failure, t)

  abbrev pub applied : List Bytes → Option (List Bytes → Handler World) → Option (Handler World)
  applied rest none = none
  applied rest (some f) = some (f rest)

  module _ (calls : Capture World) where
    -- `RedirectStdout::new`: what descriptor 1 was
    unfoldable pub redirect_stdout : ℕ → Command (Terminal World) ℕ
    redirect_stdout target = do
      saved ← (λ t. (ok t.stdout, t))
      λ t. or_fail (calls.dup_stdout t.world) t
      λ t. or_fail (calls.dup2_stdout t.world) t
      λ t. (ok saved, record t { stdout = target })

    -- the body under the guard
    unfoldable pub captured_run : ℕ → Handler World → Command (Terminal World) (Outcome (Unit {0}))
    captured_run target f = do
      saved ← redirect_stdout target
      λ t. unwound (restored_stdout saved (f t))

    unfoldable pub capture_into_variable :
        Bytes → Bool → Handler World → Command (Terminal World) (Unit {0})
    capture_into_variable var trimnewlines f = do
      memfd ← (λ t. value_or_fail (calls.new_memfd t.world) t)
      result ← captured_run memfd f
      λ t. or_fail (calls.write_nul memfd t.world) t
      text ← (λ t. value_or_fail (calls.map_mut memfd t.world) t)
      λ t.
          assigned
            (calls.set_variable var (if trimnewlines then trim_trailing_newlines text else text)
              t.world)
            t
      as_result result

    abbrev pub run_it : Option Bytes → Handler World → Command (Terminal World) (Unit {0})
    run_it none f t = direct (f t)
    run_it (some var) f t = capture_into_variable var true f t

    abbrev pub guarded_run : Option Bytes → Handler World → Command (Terminal World) (Unit {0})
    guarded_run var f t =
        restored_docs t.current_builtin (t.docs t.current_builtin) (run_it var f t)

    abbrev pub run_found :
        Option Bytes → Option (Handler World) → Command (Terminal World) (Unit {0})
    run_found var none = fail ex_usage
    run_found var (some f) = guarded_run var f

    abbrev pub dispatch :
        (Bytes → Option (List Bytes → Handler World))
        → Option Bytes
        → List Bytes
        → Command (Terminal World) (Unit {0})
    dispatch table var [] = fail ex_usage
    dispatch table var (first ∷ rest) = run_found var (applied rest (table first))

    -- `entrypoint`, on the words behind the options: the table is the lookup of the packed one, whose
    -- panics are not told here.
    unfoldable pub entrypoint :
        (Bytes → Option (List Bytes → Handler World))
        → Docs
        → Option Bytes
        → List Bytes
        → Command (Terminal World) (Unit {0})
    entrypoint table docs var words = do enter_docs docs; dispatch table var words
