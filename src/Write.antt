-- ===== src/Write.antt =====
-- l_builtin/src/write.rs: the `write` subcommand, whose loop sends every byte. What write(2) answers
-- is a list of answers, one for each call.
mod Tests
pub mod Sent
use l_builtin.Base.{
  Command, ℕ, ◌+◌, ◌≡◌, Option, none, some, List, [], ◌∷◌, ◌++◌, Bool, true, false, ◌||◌, Bytes,
  take, drop, length, ok, err, Outcome, execution_failure, if◌then◌else◌, ◌==◌,
}
use l_builtin.Hex.{hex_decode}
use l_builtin.Shell.{Calls}
use l_builtin.Shell.Variable.{BashVar, set_int}
use Prim.Native.Nat.{min}

-- `Format` of io_common.rs
pub data Format : Type 0 where
  raw hex : Format

pub record WriteArgs : Type 0 where
  pub format : Format
  pub non_blocking : Bool
  pub var : Option BashVar
  pub fd : ℕ
  pub bytes : Bytes

-- An answer of write(2): it takes so many bytes at most, or fails with EINTR, or with another error.
pub data Answer : Type 0 where
  accepts : ℕ → Answer
  interrupted : Answer
  fails : Answer

-- How the loop ends: with the total, with an error, or not within the answers that were given.
pub data Ending : Type 0 where
  finished : ℕ → Ending
  failed : Ending
  running : Ending

-- The bytes to send, the format's
abbrev pub payload : Format → Bytes → Option Bytes
payload Format.hex bytes = hex_decode bytes
payload Format.raw bytes = some bytes

-- `sent` is what the descriptor has got.
unfoldable pub write_loop : List Answer → Bool → Bytes → ℕ → Bytes → Ending × Bytes
write_loop [] non_blocking bytes total_written sent = (Ending.running, sent)
write_loop (interrupted ∷ answers) non_blocking bytes total_written sent =
    write_loop answers non_blocking bytes total_written sent
write_loop (fails ∷ answers) non_blocking bytes total_written sent = (Ending.failed, sent)
write_loop (accepts n ∷ answers) non_blocking bytes total_written sent =
    let rest = drop total_written bytes in
    let written = min n (length rest) in
    let total = total_written + written in
    let more = write_loop answers non_blocking bytes total (sent ++ take written rest) in
    if non_blocking || (total == length bytes)
    then (Ending.finished total, sent ++ take written rest)
    else more

-- What follows the loop; `none` where it has not ended.
module _ {World : Type 0} (calls : Calls World) where
  abbrev pub bind_total : Option BashVar → ℕ → Command World (Unit {0})
  bind_total none total w = (ok tt, w)
  bind_total (some var) total w = set_int calls var total w

  abbrev pub ended : Option BashVar → Ending → World → Option (Outcome (Unit {0}) × World)
  ended var (finished total) w = some (bind_total var total w)
  ended var failed w = some (err execution_failure, w)
  ended var running w = none

  abbrev pub send :
      WriteArgs → Option Bytes → List Answer → World → Option (Outcome (Unit {0}) × World) × Bytes
  send args none answers w = (some (err execution_failure, w), [])
  send args (some bytes) answers w =
      let r = write_loop answers args.non_blocking bytes 0 [] in (ended args.var r.0 w, r.1)

  unfoldable pub write_subcommand :
      WriteArgs → List Answer → World → Option (Outcome (Unit {0}) × World) × Bytes
  write_subcommand args answers w = send args (payload args.format args.bytes) answers w
