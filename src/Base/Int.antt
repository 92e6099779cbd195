-- ===== src/Base/Int.antt =====
-- Signed integers over the native numbers, with Rust's truncating division.
use Prim.Native.Nat.{ℕ, zero, suc, ◌/◌, ◌%◌}
use mathlib.Core.Path.{◌≡◌, refl}
use mathlib.Core.Bool.{Bool, true, false}

-- `negsuc n` is -(n + 1).
pub data ℤ : Type 0 where
  pos : ℕ → ℤ
  negsuc : ℕ → ℤ

-- -n
abbrev pub neg : ℕ → ℤ
neg zero = pos zero
neg (suc n) = negsuc n

-- `unsigned_abs`
abbrev pub unsigned_abs : ℤ → ℕ
unsigned_abs (pos n) = n
unsigned_abs (negsuc n) = suc n

abbrev pub is_negative : ℤ → Bool
is_negative (pos n) = false
is_negative (negsuc n) = true

-- `z / d` and `z % d`, which truncate towards zero
abbrev pub tdiv : ℤ → ℕ → ℤ
tdiv (pos n) d = pos (n / d)
tdiv (negsuc n) d = neg (suc n / d)

abbrev pub trem : ℤ → ℕ → ℤ
trem (pos n) d = pos (n % d)
trem (negsuc n) d = neg (suc n % d)

pub unsigned_abs-neg : (n : ℕ) → unsigned_abs (neg n) ≡ n
unsigned_abs-neg zero = refl
unsigned_abs-neg (suc n) = refl

pub unsigned_abs-tdiv : (z : ℤ) (d : ℕ) → unsigned_abs (tdiv z d) ≡ unsigned_abs z / d
unsigned_abs-tdiv (pos n) d = refl
unsigned_abs-tdiv (negsuc n) d = unsigned_abs-neg (suc n / d)

pub unsigned_abs-trem : (z : ℤ) (d : ℕ) → unsigned_abs (trem z d) ≡ unsigned_abs z % d
unsigned_abs-trem (pos n) d = refl
unsigned_abs-trem (negsuc n) d = unsigned_abs-neg (suc n % d)

-- `z + 1`
abbrev pub succ : ℤ → ℤ
succ (pos n) = pos (suc n)
succ (negsuc zero) = pos 0
succ (negsuc (suc n)) = negsuc n
