-- ===== src/Base/Hoare.antt =====
-- What a command does to a state: a condition before it, one on the value and the state after it,
-- and one on the state that an exit code leaves.
use mathlib.Core.Path.{subst, sym, refl}
use l_builtin.Base.{◌≡◌, ℕ, ◌>>=◌, Outcome, ok, err, Command, and_then}

-- A result meets `after` where it is a value, and `failed` where it is an exit code.
abbrev pub Ends {ℓ κ} :
    {State Value : Type ℓ}
    → (Value → State → Type κ)
    → (State → Type κ)
    → Outcome Value × State
    → Type κ
Ends after failed (ok value, state) = after value state
Ends after failed (err code, state) = failed state

pub record Meets {ℓ κ} {State Value : Type ℓ} (before : State → Type κ)
    (command : Command State Value) (after : Value → State → Type κ) (failed : State → Type κ)
    : Type (ℓ ⊔ κ) where
  pub apply : (state : State) → before state → Ends after failed (command state)

-- A command and what follows it.
pub sequence {ℓ κ} :
    {State Value Next : Type ℓ} {before : State → Type κ} {middle : Value → State → Type κ}
    {after : Next → State → Type κ} {failed : State → Type κ} {first : Command State Value}
    {rest : Value → Command State Next}
    → Meets before first middle failed
    → ((value : Value) → Meets (middle value) (rest value) after failed)
    → Meets before (first >>= rest) after failed
sequence {State = State} {Value = Value} {middle = middle} {after = after} {failed = failed}
      {first = first} {rest = rest} one two =
    record { apply = λ state given. go (first state) (one.apply state given) }
  where
    go : (r : Outcome Value × State) → Ends middle failed r → Ends after failed (and_then r rest)
    go (ok value, s) h = (two value).apply s h
    go (err code, s) h = h

-- What holds of the state however the command ends.
pub either_way {ℓ κ} :
    {State Value : Type ℓ} (holds : State → Type κ) (r : Outcome Value × State)
    → Ends (λ _. holds) holds r
    → holds r.1
either_way holds (ok value, s) h = h
either_way holds (err code, s) h = h

module _ {ℓ} {A : Type ℓ} where
  pub ok-injective : (a b : A) → ok a ≡ ok b → a ≡ b
  ok-injective a b h = cc

  pub err-ok : (code : ℕ) (a : A) → (e : Outcome A) → e ≡ err code → e ≡ ok a → ⊥
  err-ok code a e h i = cc

err-only {ℓ κ} :
    {A : Type ℓ} {B : Type κ} (c d : ℕ) (e : Outcome A) (f : Outcome B)
    → e ≡ err c
    → e ≡ err d
    → f ≡ err c
    → f ≡ err d
err-only c d e f h i j = cc

-- A command gives that result from the states of `before`, and leaves one of `after`.
pub record Gives {ℓ κ} {State Value : Type ℓ} (before : State → Type κ)
    (command : Command State Value) (result : Outcome Value) (after : State → Type κ)
    : Type (ℓ ⊔ κ) where
  pub apply :
      (state : State) → before state → ((command state).0 ≡ result) × after (command state).1

pub gives_then {ℓ κ} :
    {State Value Next : Type ℓ} {before middle after : State → Type κ} {result : Outcome Next}
    {first : Command State Value} (rest : Value → Command State Next) (value : Value)
    → Gives before first (ok value) middle
    → Gives middle (rest value) result after
    → Gives before (first >>= rest) result after
gives_then {State = State} {Value = Value} {middle = middle} {after = after} {result = result}
      {first = first} rest value one two =
    record { apply = λ state given. let r = one.apply state given in go (first state) r.0 r.1 }
  where
    go :
        (x : Outcome Value × State)
        → x.0 ≡ ok value
        → middle x.1
        → ((and_then x rest).0 ≡ result) × after (and_then x rest).1
    go (ok v, s) e h =
        subst (λ u. ((rest u s).0 ≡ result) × after (rest u s).1) (sym (ok-injective v value e))
          (two.apply s h)
    go (err code, s) e h = absurd (err-ok code value (err code) refl e)

pub gives_first_error {ℓ κ} :
    {State Value Next : Type ℓ} {before after : State → Type κ} {first : Command State Value}
    (rest : Value → Command State Next) (code : ℕ)
    → Gives before first (err code) after
    → Gives before (first >>= rest) (err code) after
gives_first_error {State = State} {Value = Value} {after = after} {first = first} rest code one =
    record { apply = λ state given. let r = one.apply state given in go (first state) r.0 r.1 }
  where
    go :
        (x : Outcome Value × State)
        → x.0 ≡ err code
        → after x.1
        → ((and_then x rest).0 ≡ err code) × after (and_then x rest).1
    go (ok v, s) e h = absurd (err-ok code v (ok v) e refl)
    go (err c, s) e h = (err-only c code (err c) (err c) refl e refl, h)
