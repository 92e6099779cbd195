-- ===== src/Base/Partial.antt =====
-- Code that may panic: a failed `assert!`, an index out of bounds.
use Prim.Native.Nat.{ℕ}
use mathlib.Core.Path.{◌≡◌, refl}
use mathlib.Core.Bool.{Bool, true, false}
use mathlib.Core.List.{List}
use mathlib.Core.Option.{Option, none, some}
use l_builtin.Base.Lists.{get_elem?}

pub data Partial {ℓ} (A : Type ℓ) : Type ℓ where
  done : A → Partial A
  panic : Partial A

infixl 5 ◌>>=◌ ◌>>◌
abbrev pub ◌>>=◌ {ℓ κ} : {A : Type ℓ} {B : Type κ} → Partial A → (A → Partial B) → Partial B
done a >>= f = f a
panic >>= f = panic

abbrev pub ◌>>◌ {ℓ κ} : {A : Type ℓ} {B : Type κ} → Partial A → Partial B → Partial B
m >> k = m >>= λ _. k

-- `assert!`
abbrev pub assert : Bool → Partial (Unit {0})
assert true = done tt
assert false = panic

-- `xs[i]`
abbrev pub of_option {ℓ} : {A : Type ℓ} → Option A → Partial A
of_option none = panic
of_option (some a) = done a

abbrev pub index {ℓ} : {A : Type ℓ} → List A → ℕ → Partial A
index xs i = of_option (get_elem? xs i)

pub >>=-eq-done {ℓ κ} :
    {A : Type ℓ} {B : Type κ} (m : Partial A) (f : A → Partial B) {b : B}
    → (m >>= f) ≡ done b
    → (a : A) × (m ≡ done a) × (f a ≡ done b)
>>=-eq-done (done a) f h = (a, refl, h)
>>=-eq-done panic f h = cc

pub assert-eq-done : (b : Bool) {u : Unit {0}} → assert b ≡ done u → b ≡ true
assert-eq-done true h = refl
assert-eq-done false h = cc
