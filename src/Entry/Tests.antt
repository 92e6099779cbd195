-- ===== src/Entry/Tests.antt =====
-- l_builtin/src/entrypoint.rs and l_builtin/src/subcmd.rs: the dispatch at concrete inputs.
use l_builtin.Base.{
  ◌≡◌, refl, Option, none, some, List, [], ◌∷◌, Bool, true, false, Bytes, ok, err,
  execution_failure, ex_usage, if◌then◌else◌, ◌==◌,
}
use l_builtin.Entry.{
  redirect_stdout, enter_docs, captured_run, Docs, Terminal, Ending, Capture, Handler,
  capture_into_variable, entrypoint, trim_loop, trim_trailing_newlines,
}
use l_builtin.Entry.Undisturbed.{entrypoint-docs}

-- The text of the memory file, and the variable
abbrev Held : Type 0
Held = Bytes × Bytes

abbrev sample_calls : Bool → Capture Held
sample_calls maps = record {
  new_memfd = λ w. (some 7, w);
  dup_stdout = λ w. (true, w);
  dup2_stdout = λ w. (true, w);
  write_nul = λ n w. (true, w);
  map_mut = λ n w. (if maps then some w.0 else none, w);
  set_variable = λ var text w. (ok tt, (w.0, text));
}

abbrev sample_docs : Docs
sample_docs = record { short_doc = 10; long_doc = 11 }

abbrev other_docs : Docs
other_docs = record { short_doc = 20; long_doc = 21 }

abbrev sample_terminal : Terminal Held
sample_terminal = record {
  stdout = 1;
  current_builtin = 0;
  docs = λ b. other_docs;
  world = ([], []);
}

-- Prints two letters and a line end, takes the documentation as its own
abbrev greet : Handler Held
greet t = (
  Ending.returned (err 3),
  record t { docs = λ b. other_docs; world = (b'h' ∷ b'i' ∷ b'\r' ∷ b'\n' ∷ [], t.world.1) },
)

abbrev crash : Handler Held
crash t = (Ending.panicked, record t { stdout = 9 })

abbrev sample_table : Bytes → Option (List Bytes → Handler Held)
sample_table [] = some (λ rest. crash)
sample_table (b ∷ bytes) = if b == b'g' then some (λ rest. greet) else none

greeted :
    (capture_into_variable (sample_calls true) (b'v' ∷ []) true greet sample_terminal).0 ≡ err 3
unfolding capture_into_variable captured_run redirect_stdout trim_trailing_newlines trim_loop
greeted = refl

greeting :
    (capture_into_variable (sample_calls true) (b'v' ∷ []) true greet sample_terminal).1.world.1
    ≡ (b'h' ∷ b'i' ∷ 0 ∷ b'\n' ∷ [])
unfolding capture_into_variable captured_run redirect_stdout trim_trailing_newlines trim_loop
greeting = refl

unmapped :
    (capture_into_variable (sample_calls false) (b'v' ∷ []) true greet sample_terminal).0
    ≡ err execution_failure
unfolding capture_into_variable captured_run redirect_stdout trim_trailing_newlines trim_loop
unmapped = refl

unknown :
    (entrypoint
      (sample_calls true)
      sample_table
      sample_docs
      none
      ((b'x' ∷ []) ∷ [])
      sample_terminal).0
    ≡ err ex_usage
unfolding entrypoint enter_docs
unknown = refl

all_ends : trim_trailing_newlines (b'\n' ∷ b'\r' ∷ b'\n' ∷ []) ≡ (0 ∷ b'\r' ∷ b'\n' ∷ [])
unfolding trim_trailing_newlines trim_loop
all_ends = refl

entrypoint-docs_example :
    Terminal.docs
      (entrypoint
        (sample_calls true)
        sample_table
        sample_docs
        (some (b'v' ∷ []))
        ((b'g' ∷ []) ∷ [])
        sample_terminal).1
      0
    ≡ sample_docs
entrypoint-docs_example =
    entrypoint-docs (sample_calls true) sample_table sample_docs (some (b'v' ∷ []))
      ((b'g' ∷ []) ∷ []) sample_terminal
