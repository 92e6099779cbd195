-- ===== src/Handles/Quiet.antt =====
-- Commands that neither map nor open anything, put together from calls that do not (Shell/Steps).
use l_builtin.Base.{
  ◌>>◌, inl, inr, Bool-cases, Bool-cases, ◌>>=◌, ℕ, Option, none, some, Bool, true, false, Bytes,
  Command, ok, err, Outcome, refl, ◌∙◌, and_then, ◌==◌,
}
use l_builtin.Shell.{Calls}
use l_builtin.IntStr.{to_intstr, as_bytes}
use l_builtin.Shell.Steps.{succeeds, effect, succeeds_then, rescue, dropping, tested, undone}
use l_builtin.Shell.Variable.{BashVar, set_int, set, l_bind_variable_check, checked, bound}
use l_builtin.Handles.Ledger.{Books, Same, Accounting}
use l_builtin.Handles.Mapping.{unlink_named}

module _ {World : Type 0} (books : Books World) where
  pub Same-refl : (w : World) → Same books w w
  Same-refl w = record { same_held = λ q. refl; same_open = λ f. refl }

  pub Same-trans : (u v w : World) → Same books u v → Same books v w → Same books u w
  Same-trans u v w a b = record {
    same_held = λ q. b.same_held q ∙ a.same_held q;
    same_open = λ f. b.same_open f ∙ a.same_open f;
  }

  abbrev pub Quiet : {A : Type 0} → Command World A → Type 0
  Quiet command = (w : World) → Same books w (command w).1

  abbrev pub QuietCall : (World → ℕ × World) → Type 0
  QuietCall f = (w : World) → Same books w (f w).1

  abbrev pub QuietStep : (World → World) → Type 0
  QuietStep f = (w : World) → Same books w (f w)

  pub Quiet-then :
      {A B : Type 0} (first : Command World A) (rest : A → Command World B)
      → Quiet first
      → ((a : A) → Quiet (rest a))
      → Quiet (first >>= rest)
  Quiet-then {A} {B} first rest one two w = go (first w) (one w)
    where
      go : (r : Outcome A × World) → Same books w r.1 → Same books w (and_then r rest).1
      go (ok a, v) s = Same-trans w v (rest a v).1 s (two a v)
      go (err code, v) s = s

  pub Quiet-next :
      {A B : Type 0} (first : Command World A) (rest : Command World B)
      → Quiet first
      → Quiet rest
      → Quiet (first >> rest)
  Quiet-next first rest one two = Quiet-then first (λ _. rest) one (λ _. two)

  pub Quiet-tested : (w : World) (r : ℕ × World) → Same books w r.1 → Same books w (tested r).1
  Quiet-tested w (rc, v) s = elim (Bool-cases (rc == 0)) [ inl e ↦ rw e s | inr e ↦ rw e s ]

  pub Quiet-succeeds : (f : World → ℕ × World) → QuietCall f → Quiet (succeeds f)
  unfolding succeeds
  Quiet-succeeds f q w = Quiet-tested w (f w) (q w)

  pub Quiet-effect : (f : World → World) → QuietStep f → Quiet (effect f)
  unfolding effect
  Quiet-effect f q w = q w

  pub Quiet-succeeds_then :
      (f : World → ℕ × World) (last : World → World)
      → QuietCall f
      → QuietStep last
      → Quiet (succeeds_then f last)
  unfolding succeeds_then
  Quiet-succeeds_then f last q l w =
      Quiet-tested w ((f w).0, last (f w).1) (Same-trans w (f w).1 (last (f w).1) (q w) (l (f w).1))

  pub Quiet-rescue :
      {A : Type 0} (command : Command World A) (undo : World → World)
      → Quiet command
      → QuietStep undo
      → Quiet (rescue command undo)
  unfolding rescue
  Quiet-rescue {A} command undo q u w = go (command w) (q w)
    where
      go : (r : Outcome A × World) → Same books w r.1 → Same books w (undone undo r).1
      go (ok a, v) s = s
      go (err code, v) s = Same-trans w v (undo v) s (u v)

  pub Quiet-dropping :
      {A : Type 0} (command : Command World A) (drop : World → World)
      → Quiet command
      → QuietStep drop
      → Quiet (dropping command drop)
  unfolding dropping
  Quiet-dropping command drop q d w =
      Same-trans w (command w).1 (drop (command w).1) (q w) (d (command w).1)

  module _ (calls : Calls World) (laws : Accounting books calls) where
    Quiet-bound :
        (name value : Bytes) (w : World) (r : Bool × World)
        → Same books w r.1
        → Same books w (bound r).1
    Quiet-bound name value w (true, v) s = s
    Quiet-bound name value w (false, v) s = s

    Quiet-checked : (o : Option Bool) (name value : Bytes) → Quiet (checked calls o name value)
    Quiet-checked none name value w =
        Quiet-bound name value w (calls.bind_variable name value w) (laws.bind_same name value w)
    Quiet-checked (some false) name value w =
        Quiet-bound name value w (calls.bind_variable name value w) (laws.bind_same name value w)
    Quiet-checked (some true) name value w = Same-refl w

    pub Quiet-set_int : (var : BashVar) (id : ℕ) → Quiet (set_int calls var id)
    unfolding set_int set l_bind_variable_check
    Quiet-set_int var id w =
        Quiet-checked (calls.find_variable var.name w) var.name (as_bytes (to_intstr 64 id)) w

    pub Quiet-unlink_named : (name : Option Bytes) → QuietStep (unlink_named calls name)
    Quiet-unlink_named none w = Same-refl w
    Quiet-unlink_named (some name) w = laws.unlink_same name w
