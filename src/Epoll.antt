-- ===== src/Epoll.antt =====
-- l_builtin/src/cmd_epoll.rs: the event tokens and the commands of `epoll`, with `ensure_high_fd` of
-- l_builtin/src/shared.rs.
mod Tokens
mod Drained
mod Descriptors
mod Interests
mod Told
mod Kernel
mod Tests
use l_builtin.Base.{
  and_then, ◌>>=◌, ◌>>◌, ℕ, zero, suc, ◌+◌, ◌-◌, ◌^◌, ◌%◌, Option, none, some, List, [], ◌∷◌, ◌++◌,
  map, Bool, true, false, not, Bytes, Command, Outcome, ok, err, execution_failure, if◌then◌else◌,
  ◌==◌, ltb, length,
}
use l_builtin.Base.Int.{ℤ, pos, negsuc}
use Prim.Native.Nat.{bit_or, bit_and}
use l_builtin.Shell.{Calls}
use l_builtin.Shell.Variable.{BashVar, set_int}

abbrev pub epollin : ℕ
epollin = 1

abbrev pub epollpri : ℕ
epollpri = 2

abbrev pub epollout : ℕ
epollout = 4

abbrev pub epollerr : ℕ
epollerr = 8

abbrev pub epollhup : ℕ
epollhup = 16

abbrev pub epollet : ℕ
epollet = 2 ^ 31

-- The mask with the bit of a token
unfoldable pub add_token : ℕ → ℕ → ℕ
add_token ev ch =
    if ch == b'r'
    then bit_or ev epollin
    else if ch == b'w'
    then bit_or ev epollout
    else if ch == b'p'
    then bit_or ev epollpri
    else if ch == b't'
    then bit_or ev epollet
    else ev

unfoldable pub add_tokens : ℕ → Bytes → ℕ
add_tokens ev [] = ev
add_tokens ev (ch ∷ s) = add_tokens (add_token ev ch) s

abbrev pub or_epollin : ℕ → ℕ
or_epollin ev = if ev == 0 then epollin else ev

unfoldable pub parse_events : Option Bytes → ℕ
parse_events none = or_epollin (add_tokens 0 (b'r' ∷ []))
parse_events (some []) = epollin
parse_events (some (ch ∷ s)) = or_epollin (add_tokens 0 (ch ∷ s))

abbrev pub token : ℕ → ℕ → ℕ → Bytes
token ev bit ch = if bit_and ev bit == 0 then [] else ch ∷ []

abbrev pub or_none : Bytes → Bytes
or_none [] = b'(' ∷ b'n' ∷ b'o' ∷ b'n' ∷ b'e' ∷ b')' ∷ []
or_none (ch ∷ s) = ch ∷ s

unfoldable pub format_events : ℕ → Bytes
format_events ev = or_none (
    token ev epollin b'r'
    ++ (token ev epollout b'w'
        ++ (token ev epollpri b'p'
            ++ (token ev epollhup b'h' ++ (token ev epollerr b'e' ++ token ev epollet b't')))))

-- `as u64` and `as c_int`
unfoldable pub as_u64 : ℤ → ℕ
as_u64 (pos n) = n % 2 ^ 64
as_u64 (negsuc n) = (2 ^ 64 - suc n) % 2 ^ 64

abbrev pub signed : ℕ → ℤ
signed n = if ltb n (2 ^ 31) then pos n else negsuc (2 ^ 32 - suc n)

unfoldable pub as_c_int : ℕ → ℤ
as_c_int n = signed (n % 2 ^ 32)

pub record EpollEvent : Type 0 where
  pub events : ℕ
  pub u64 : ℕ

pub data CtlOp : Type 0 where
  ctl_add : CtlOp
  ctl_mod : CtlOp
  ctl_del : CtlOp

-- `none` is -1, of the timeout too, which then is forever; an error number is left out. The array has
-- the name of its variable.
pub record EpollCalls (World : Type 0) : Type 0 where
  pub epoll_create : World → Option ℕ × World
  pub dup_fd : ℕ → Bool → ℕ → World → Option ℕ × World
  pub epoll_ctl : ℤ → CtlOp → ℤ → Option EpollEvent → World → Bool × World
  pub epoll_wait : ℤ → ℕ → Option ℕ → World → Option (List EpollEvent) × World
  pub prepare_array : Bytes → World → Bool × World
  pub array_insert : Bytes → ℤ → Bytes → World → World

abbrev pub l_fd_min : ℕ
l_fd_min = 80

abbrev pub epoll_max_events : ℕ
epoll_max_events = 256

abbrev pub Ready : Type 0
Ready = List (ℤ × Bytes)

unfoldable pub reported_event : EpollEvent → ℤ × Bytes
reported_event e = (as_c_int e.u64, format_events e.events)

pub record EpollCtlArgs : Type 0 where
  pub epfd : ℤ
  pub fd : ℤ
  pub events : Option Bytes

-- A timeout is in milliseconds, rounded as `duration_to_ms` does.
pub record EpollWaitArgs : Type 0 where
  pub timeout : Option ℕ
  pub var : Option BashVar
  pub epfd : ℤ

module _ {World : Type 0} where
  abbrev pub or_failure : {A : Type 0} → Option A × World → Outcome A × World
  or_failure (some a, w) = (ok a, w)
  or_failure (none, w) = (err execution_failure, w)

  abbrev pub tested : Bool × World → Outcome (Unit {0}) × World
  tested (true, w) = (ok tt, w)
  tested (false, w) = (err execution_failure, w)

  module _ (calls : Calls World) (c : EpollCalls World) where
    abbrev closing : ℕ → Option ℕ × World → Option ℕ × World
    closing fd (new, w) = (new, calls.close fd w)

    unfoldable pub ensure_high_fd : ℕ → Bool → World → Option ℕ × World
    ensure_high_fd fd cloexec w =
        if ltb fd l_fd_min then closing fd (c.dup_fd fd cloexec l_fd_min w) else (some fd, w)

    unfoldable pub epoll_create_subcommand : Bool → BashVar → Command World (Unit {0})
    epoll_create_subcommand nocloexec fd_var = do
      fd ← (λ w. or_failure (c.epoll_create w))
      high ← (λ w. or_failure (ensure_high_fd fd (not nocloexec) w))
      set_int calls fd_var high

    abbrev pub ctl_event : EpollCtlArgs → EpollEvent
    ctl_event args = record { events = parse_events args.events; u64 = as_u64 args.fd }

    unfoldable pub epoll_add_subcommand : EpollCtlArgs → Command World (Unit {0})
    epoll_add_subcommand args w =
        tested (c.epoll_ctl args.epfd CtlOp.ctl_add args.fd (some (ctl_event args)) w)

    unfoldable pub epoll_mod_subcommand : EpollCtlArgs → Command World (Unit {0})
    epoll_mod_subcommand args w =
        tested (c.epoll_ctl args.epfd CtlOp.ctl_mod args.fd (some (ctl_event args)) w)

    unfoldable pub epoll_del_subcommand : ℤ → ℤ → Command World (Unit {0})
    epoll_del_subcommand epfd fd w = tested (c.epoll_ctl epfd CtlOp.ctl_del fd none w)

    -- What the answer to a further call leads to: the end, or another round
    abbrev pub answered :
        (List EpollEvent → World → Option Ready × World)
        → Ready
        → Option (List EpollEvent) × World
        → Option Ready × World
    answered again ready (none, w) = (some ready, w)
    answered again ready (some [], w) = (some ready, w)
    answered again ready (some (e ∷ events), w) = again (e ∷ events) w

    -- the loop, followed for that many rounds
    unfoldable pub drain_loop : ℕ → ℤ → Ready → List EpollEvent → World → Option Ready × World
    drain_loop zero epfd ready events w = (none, w)
    drain_loop (suc n) epfd ready events w =
        let all = ready ++ map reported_event events in
        let again =
          answered (drain_loop n epfd all) all (c.epoll_wait epfd epoll_max_events (some 0) w) in
        if ltb (length events) epoll_max_events then (some all, w) else again

    abbrev pub followed : Option Ready × World → Outcome (Option Ready) × World
    followed (ready, w) = (ok ready, w)

    unfoldable pub collect_ready : ℕ → EpollWaitArgs → Command World (Option Ready)
    collect_ready rounds args = do
      events ← (λ w. or_failure (c.epoll_wait args.epfd epoll_max_events args.timeout w))
      λ w. followed (drain_loop rounds args.epfd [] events w)

    unfoldable pub insert_ready : Bytes → Ready → World → World
    insert_ready name [] w = w
    insert_ready name ((fd, ev) ∷ ready) w = insert_ready name ready (c.array_insert name fd ev w)

    abbrev pub populated : Bytes → Ready → Bool × World → Outcome (Unit {0}) × World
    populated name ready (true, w) = (ok tt, insert_ready name ready w)
    populated name ready (false, w) = (err execution_failure, w)

    unfoldable pub populate_ready_array : BashVar → Ready → Command World (Unit {0})
    populate_ready_array var ready w = populated var.name ready (c.prepare_array var.name w)

    -- `none` where the loop was not followed to its end
    abbrev pub told : Option BashVar → Option Ready → Command World (Option Ready)
    told var none w = (ok none, w)
    told none (some ready) w = (ok (some ready), w)
    told (some var) (some ready) w =
        and_then (populate_ready_array var ready w) (λ _ v. (ok (some ready), v))

    unfoldable pub epoll_wait_subcommand : ℕ → EpollWaitArgs → Command World (Option Ready)
    epoll_wait_subcommand rounds args = do ready ← collect_ready rounds args; told args.var ready
