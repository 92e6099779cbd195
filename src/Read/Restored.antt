-- ===== src/Read/Restored.antt =====
-- l_builtin/src/read.rs: the flags of the descriptor after `read`.
use l_builtin.Base.{
  ℕ, zero, suc, ◌≡◌, ◌∙◌, sym, ap, refl, Option, none, some, Bool, true, false, ok, err, Outcome,
  Command, Bytes, ◌&&◌, ◌==◌, Bool-cases, inl, inr, and_then,
}
use Prim.Native.Nat.{bit_or}
use l_builtin.Shell.{Calls}
use l_builtin.Shell.Steps.{dropping}
use l_builtin.Shell.Variable.{BashVar, set, l_bind_variable_check, checked, bound}
use l_builtin.Read.{
  ReadCalls, ReadArgs, ReadResult, gave, errno, eintr, eagain, Received, nonblock_guard, flags_read,
  flags_set, restore, read_loop, read_answer, read_failed, bind_received, received_as, text_of,
  guarded_read, read_subcommand, o_nonblock,
}

-- What fcntl(2) says of the flags of a descriptor, which are `none` where it is not open. F_SETFL ignores
-- the access mode and the flags of creation: `setfl` says what it makes of the flags that there are and
-- those that are given, and to give back the ones that were read restores them. It is refused on a
-- descriptor that is not open, where O_APPEND may not be cleared, where a flag may not be set, but not for
-- clearing O_NONBLOCK alone. Reading and binding a variable leave the flags alone.
pub record FlagLaws {World : Type 0} (calls : Calls World) (c : ReadCalls World)
    (flags : World → ℕ → Option ℕ) (setfl : ℕ → ℕ → ℕ) : Type 0 where
  pub setfl_back : (old new : ℕ) → setfl (setfl old new) old ≡ old
  pub get_same : (fd : ℕ) (w : World) → flags (c.get_flags fd w).1 fd ≡ flags w fd
  pub get_right : (fd old : ℕ) (w : World) → (c.get_flags fd w).0 ≡ some old → flags w fd ≡ some old
  pub set_done :
      (fd old new : ℕ) (w : World)
      → flags w fd ≡ some old
      → (c.set_flags fd new w).0 ≡ true
      → flags (c.set_flags fd new w).1 fd ≡ some (setfl old new)
  pub set_refused :
      (fd new : ℕ) (w : World)
      → (c.set_flags fd new w).0 ≡ false
      → flags (c.set_flags fd new w).1 fd ≡ flags w fd
  pub clears_nonblock :
      (fd old : ℕ) (w : World)
      → flags w fd ≡ some (setfl old (bit_or old o_nonblock))
      → (c.set_flags fd old w).0 ≡ true
  pub read_same : (fd size : ℕ) (w : World) → flags (c.read_fd fd size w).1 fd ≡ flags w fd
  pub bind_same :
      (name value : Bytes) (fd : ℕ) (w : World)
      → flags (calls.bind_variable name value w).1 fd ≡ flags w fd

module _ {World : Type 0} (calls : Calls World) (c : ReadCalls World) (flags : World → ℕ → Option ℕ)
    (setfl : ℕ → ℕ → ℕ) (laws : FlagLaws calls c flags setfl) where
  abbrev Steady : {A : Type 0} → ℕ → World → Outcome A × World → Type 0
  Steady fd w r = flags r.1 fd ≡ flags w fd

  Steady-failed :
      (args : ReadArgs) (again : Command World Received) (e : ℕ) (w : World)
      → ((v : World) → Steady args.fd v (again v))
      → Steady args.fd w (read_failed calls c args again e w)
  Steady-failed args again e w s = elim (Bool-cases (e == eintr)) [
    | inl i ↦ rw i (elim (Bool-cases args.interruptible) [ inl a ↦ rw a refl | inr a ↦ rw a (s w) ])
    | inr i ↦ rw i (elim (Bool-cases (args.non_blocking && (e == eagain))) [
      | inl a ↦ rw a refl
      | inr a ↦ rw a refl
    ])
  ]

  Steady-answer :
      (args : ReadArgs) (again : Command World Received) (r : ReadResult × World)
      → ((v : World) → Steady args.fd v (again v))
      → Steady args.fd r.1 (read_answer calls c args again r)
  Steady-answer args again (gave bytes, w) s = refl
  Steady-answer args again (errno e, w) s = Steady-failed args again e w s

  Steady-read_loop :
      (retries : ℕ) (args : ReadArgs) (w : World)
      → Steady args.fd w (read_loop calls c retries args w)
  unfolding read_loop
  Steady-read_loop zero args w = refl
  Steady-read_loop (suc retries) args w =
      Steady-answer args (read_loop calls c retries args) (c.read_fd args.fd args.size w)
        (Steady-read_loop retries args)
      ∙ laws.read_same args.fd args.size w

  Steady-bound : (fd : ℕ) (r : Bool × World) → Steady fd r.1 (bound r)
  Steady-bound fd (true, w) = refl
  Steady-bound fd (false, w) = refl

  Steady-checked :
      (fd : ℕ) (o : Option Bool) (name value : Bytes) (w : World)
      → Steady fd w (checked calls o name value w)
  Steady-checked fd none name value w =
      Steady-bound fd (calls.bind_variable name value w) ∙ laws.bind_same name value fd w
  Steady-checked fd (some false) name value w =
      Steady-bound fd (calls.bind_variable name value w) ∙ laws.bind_same name value fd w
  Steady-checked fd (some true) name value w = refl

  Steady-received :
      (fd : ℕ) (bytes : Bytes) (r : Outcome (Unit {0}) × World)
      → Steady fd r.1 (received_as calls c bytes r)
  Steady-received fd bytes (ok u, w) = refl
  Steady-received fd bytes (err code, w) = refl

  Steady-bind_received :
      (args : ReadArgs) (var : Option BashVar) (r : Received) (w : World)
      → Steady args.fd w (bind_received calls c args var r w)
  unfolding set l_bind_variable_check
  Steady-bind_received args var none w = refl
  Steady-bind_received args none (some bytes) w = refl
  Steady-bind_received args (some var) (some bytes) w =
      Steady-received args.fd bytes (set calls var (text_of calls c args.format bytes) w)
      ∙ Steady-checked args.fd (calls.find_variable var.name w) var.name
          (text_of calls c args.format bytes) w

  Steady-then :
      {A B : Type 0} (fd : ℕ) (w : World) (r : Outcome A × World) (rest : A → Command World B)
      → Steady fd w r
      → ((a : A) (v : World) → Steady fd v (rest a v))
      → Steady fd w (and_then r rest)
  Steady-then fd w (ok a, v) rest s t = t a v ∙ s
  Steady-then fd w (err code, v) rest s t = s

  Steady-guarded_read :
      (retries : ℕ) (args : ReadArgs) (w : World)
      → Steady args.fd w (guarded_read calls c retries args w)
  unfolding guarded_read
  Steady-guarded_read retries args w =
      Steady-then args.fd w (read_loop calls c retries args w) (bind_received calls c args args.var)
        (Steady-read_loop retries args w) (λ r v. Steady-bind_received args args.var r v)

  -- What the guard has done: nothing lasting, or it knows the flags and has added O_NONBLOCK.
  abbrev Guarded : ℕ → World → Outcome (Option ℕ) × World → Type 0
  Guarded fd w (ok none, v) = flags v fd ≡ flags w fd
  Guarded fd w (ok (some old), v) =
      (flags w fd ≡ some old) × (flags v fd ≡ some (setfl old (bit_or old o_nonblock)))
  Guarded fd w (err code, v) = flags v fd ≡ flags w fd

  Guarded-set :
      (fd old : ℕ) (w v : World) (r : Bool × World)
      → flags w fd ≡ some old
      → flags v fd ≡ flags w fd
      → (r.0 ≡ true → flags r.1 fd ≡ some (setfl old (bit_or old o_nonblock)))
      → (r.0 ≡ false → flags r.1 fd ≡ flags v fd)
      → Guarded fd w (flags_set calls c old r)
  Guarded-set fd old w v (true, u) e s done refused = (e, done refl)
  Guarded-set fd old w v (false, u) e s done refused = refused refl ∙ s

  Guarded-read :
      (fd : ℕ) (w : World) (r : Option ℕ × World)
      → flags r.1 fd ≡ flags w fd
      → ((old : ℕ) → r.0 ≡ some old → flags w fd ≡ some old)
      → Guarded fd w (flags_read calls c fd r)
  Guarded-read fd w (none, v) s right = s
  Guarded-read fd w (some old, v) s right =
      Guarded-set fd old w v (c.set_flags fd (bit_or old o_nonblock) v) (right old refl) s
        (λ done. laws.set_done fd old (bit_or old o_nonblock) v (s ∙ right old refl) done)
        (λ no. laws.set_refused fd (bit_or old o_nonblock) v no)

  Guarded-nonblock_guard :
      (on : Bool) (fd : ℕ) (w : World) → Guarded fd w (nonblock_guard calls c on fd w)
  unfolding nonblock_guard
  Guarded-nonblock_guard false fd w = refl
  Guarded-nonblock_guard true fd w =
      Guarded-read fd w (c.get_flags fd w) (laws.get_same fd w) (λ old e. laws.get_right fd old w e)

  -- Where O_NONBLOCK is all that was added, the guard takes it off again.
  restored :
      (fd old : ℕ) (u : World)
      → flags u fd ≡ some (setfl old (bit_or old o_nonblock))
      → flags (c.set_flags fd old u).1 fd ≡ some old
  restored fd old u added =
      laws.set_done fd (setfl old (bit_or old o_nonblock)) old u added
        (laws.clears_nonblock fd old u added)
      ∙ ap some (laws.setfl_back old (bit_or old o_nonblock))

  flags-Guarded :
      (retries : ℕ) (args : ReadArgs) (w : World) (r : Outcome (Option ℕ) × World)
      → Guarded args.fd w r
      → Steady args.fd w (
          and_then r
            (λ old. dropping (guarded_read calls c retries args) (restore calls c args.fd old)))
  unfolding dropping restore
  flags-Guarded retries args w (ok none, v) g = Steady-guarded_read retries args v ∙ g
  flags-Guarded retries args w (ok (some old), v) (before, added) =
      restored args.fd old (guarded_read calls c retries args v).1
        (Steady-guarded_read retries args v ∙ added)
      ∙ sym before
  flags-Guarded retries args w (err code, v) g = g

  -- The flags of the descriptor are after `read` what they were before, with -n or without, whether it
  -- succeeds, finds no data, is interrupted or fails, and however often it was retried, if
  -- fcntl(2) keeps its promises and neither reading nor binding the variable changes them; where the
  -- descriptor is not open, it is not open after either.
  pub flags_restored :
      (retries : ℕ) (args : ReadArgs) (w : World)
      → flags (read_subcommand calls c retries args w).1 args.fd ≡ flags w args.fd
  unfolding read_subcommand
  flags_restored retries args w =
      flags-Guarded retries args w (nonblock_guard calls c args.non_blocking args.fd w)
        (Guarded-nonblock_guard args.non_blocking args.fd w)
