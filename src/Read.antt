-- ===== src/Read.antt =====
-- l_builtin/src/read.rs: the `read` subcommand, which may set its descriptor non-blocking for the call.
mod Tests
pub mod Restored
use l_builtin.Base.{
  ◌>>=◌, ◌>>◌, ℕ, zero, suc, ◌≡◌, Option, none, some, List, [], ◌∷◌, ◌++◌, Bool, true, false, ◌&&◌,
  ◌||◌, Bytes, take, length, cstr, ok, err, Outcome, Command, succeed, execution_failure,
  if◌then◌else◌, ◌==◌,
}
use Prim.Native.Nat.{bit_or}
use l_builtin.Hex.{hex_encode}
use l_builtin.Shell.{Calls}
use l_builtin.Shell.Steps.{dropping}
use l_builtin.Shell.Variable.{BashVar, set}
use l_builtin.Write.{Format, raw, hex}

-- read(2) gave bytes, or failed with a number.
pub data ReadResult : Type 0 where
  gave : Bytes → ReadResult
  errno : ℕ → ReadResult

-- F_GETFL and F_SETFL of fcntl(2), and read(2); `none` and `false` are -1.
pub record ReadCalls (World : Type 0) : Type 0 where
  pub get_flags : ℕ → World → Option ℕ × World
  pub set_flags : ℕ → ℕ → World → Bool × World
  pub read_fd : ℕ → ℕ → World → ReadResult × World

abbrev pub o_nonblock : ℕ
o_nonblock = 2048

abbrev pub eintr : ℕ
eintr = 4

abbrev pub eagain : ℕ
eagain = 11

pub record ReadArgs : Type 0 where
  pub non_blocking : Bool
  pub interruptible : Bool
  pub format : Format
  pub var : Option BashVar
  pub fd : ℕ
  pub size : ℕ

-- What the loop received, or `none` while it was not followed to its end.
abbrev pub Received : Type 0
Received = Option Bytes

module _ {World : Type 0} (calls : Calls World) (c : ReadCalls World) where
  abbrev pub flags_set : ℕ → Bool × World → Outcome (Option ℕ) × World
  flags_set old (true, w) = (ok (some old), w)
  flags_set old (false, w) = (err execution_failure, w)

  abbrev pub flags_read : ℕ → Option ℕ × World → Outcome (Option ℕ) × World
  flags_read fd (none, w) = (err execution_failure, w)
  flags_read fd (some old, w) = flags_set old (c.set_flags fd (bit_or old o_nonblock) w)

  -- `NonblockGuard::set`, where -n is given: the flags to restore
  unfoldable pub nonblock_guard : Bool → ℕ → Command World (Option ℕ)
  nonblock_guard false fd w = (ok none, w)
  nonblock_guard true fd w = flags_read fd (c.get_flags fd w)

  -- `NonblockGuard`'s `drop`
  unfoldable pub restore : ℕ → Option ℕ → World → World
  restore fd none w = w
  restore fd (some old) w = (c.set_flags fd old w).1

  abbrev pub read_failed : ReadArgs → Command World Received → ℕ → Command World Received
  read_failed args again e w =
      if e == eintr
      then (if args.interruptible then (err execution_failure, w) else again w)
      else if args.non_blocking && (e == eagain)
      then (ok (some []), w)
      else (err execution_failure, w)

  abbrev pub read_answer :
      ReadArgs → Command World Received → ReadResult × World → Outcome Received × World
  read_answer args again (gave bytes, w) = (ok (some bytes), w)
  read_answer args again (errno e, w) = read_failed args again e w

  -- the loop, followed for that many calls
  unfoldable pub read_loop : ℕ → ReadArgs → Command World Received
  read_loop zero args w = (ok none, w)
  read_loop (suc retries) args w =
      let again = read_loop retries args in read_answer args again (c.read_fd args.fd args.size w)

  -- the variable takes the bytes as a C string, or their hexadecimal text
  abbrev pub text_of : Format → Bytes → Bytes
  text_of Format.hex bytes = cstr (hex_encode bytes)
  text_of Format.raw bytes = cstr (bytes ++ (0 ∷ []))

  abbrev pub received_as : Bytes → Outcome (Unit {0}) × World → Outcome Received × World
  received_as bytes (ok u, w) = (ok (some bytes), w)
  received_as bytes (err code, w) = (err code, w)

  abbrev pub bind_received : ReadArgs → Option BashVar → Received → Command World Received
  bind_received args var none w = (ok none, w)
  bind_received args none (some bytes) w = (ok (some bytes), w)
  bind_received args (some var) (some bytes) w =
      received_as bytes (set calls var (text_of args.format bytes) w)

  unfoldable pub guarded_read : ℕ → ReadArgs → Command World Received
  guarded_read retries args = do
    received ← read_loop retries args
    bind_received args args.var received

  unfoldable pub read_subcommand : ℕ → ReadArgs → Command World Received
  read_subcommand retries args = do
    old ← nonblock_guard args.non_blocking args.fd
    dropping (guarded_read retries args) (restore args.fd old)
