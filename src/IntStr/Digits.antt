-- ===== src/IntStr/Digits.antt =====
-- The decimal digits of a number, the independent description that the loops of intstr.rs meet.
use l_builtin.Base.{
  length-append, length-replicate, length-drop, take-append_length, replicate, take, ◌++◌, ℕ, zero,
  suc, ◌+◌, ◌-◌, ◌*◌, ◌/◌, ◌%◌, ◌^◌, ◌≤◌, ◌<◌, ◌≡◌, refl, List, [], ◌∷◌, Bytes, length, set, drop,
  arith, ltb, if◌then◌else◌, length-set, ◌∙◌, ap, Bool-cases, lt→ltb, dec_lt, inl, inr,
}
use native.Mathlib.Nat.{pow-suc}
use l_builtin.IntStr.{IntStr, as_bytes, write_digits, scan}

-- The digits of `val` in front of `acc`, `k` of them at most.
pub digits : ℕ → ℕ → Bytes → Bytes
digits zero val acc = acc
digits (suc k) val acc =
    let rest = digits k (val / 10) ((b'0' + val % 10) ∷ acc) in if ltb 0 val then rest else acc

pub drop-set {ℓ} :
    {A : Type ℓ} (i : ℕ) (xs : List A) (v : A)
    → i < length xs
    → drop i (set xs i v) ≡ v ∷ drop (suc i) xs
drop-set i [] v h = absurd (omega arith)
drop-set zero (x ∷ xs) v h = refl
drop-set (suc i) (x ∷ xs) v h = drop-set i xs v (omega arith)

-- one digit read behind the number of the others
scan_digit :
    (limit val : ℕ) (acc : Bytes)
    → val < limit
    → scan limit ((b'0' + val % 10) ∷ acc) (val / 10) ≡ scan limit acc val
unfolding scan
scan_digit limit val acc l =
    let e : val / 10 * 10 + (b'0' + val % 10 - b'0') ≡ val = omega arith in rw e (ground arith)

tenth : (k val : ℕ) → val < 10 ^ suc k → val / 10 < 10 ^ k
tenth k val h = omega (arith, pow-suc 10 k)

-- The loop leaves the digits of `val` in front of what stood at `i`, and the length as it was.
pub write_digits_lem :
    (i val : ℕ) (buf : Bytes)
    → i ≤ length buf
    → drop (write_digits i val buf).start (write_digits i val buf).buf ≡ digits i val (drop i buf)
unfolding write_digits digits
write_digits_lem zero val buf h = refl
write_digits_lem (suc i) val buf h = elim (Bool-cases (ltb 0 val)) [
  | inl more ↦ rw more (
      write_digits_lem i (val / 10) (set buf i (b'0' + val % 10)) (fits (length-set buf i _))
      ∙ ap (digits i (val / 10)) (drop-set i buf (b'0' + val % 10) h))
  | inr done ↦ rw done
]
  where
    fits : {n : ℕ} → n ≡ length buf → i ≤ n
    fits e = omega arith

pub length-write_digits :
    (i val : ℕ) (buf : Bytes) → length (write_digits i val buf).buf ≡ length buf
unfolding write_digits
length-write_digits zero val buf = refl
length-write_digits (suc i) val buf = ground (
  arith,
  length-write_digits i (val / 10) (set buf i (b'0' + val % 10)),
  length-set buf i (b'0' + val % 10),
)

pub start-write_digits_le : (i val : ℕ) (buf : Bytes) → (write_digits i val buf).start ≤ i
unfolding write_digits
start-write_digits_le zero val buf = omega arith
start-write_digits_le (suc i) val buf =
    ground (arith, start-write_digits_le i (val / 10) (set buf i (b'0' + val % 10)))

digits-zero : (k val : ℕ) (acc : Bytes) → val ≡ 0 → digits k val acc ≡ acc
unfolding digits
digits-zero zero val acc e = refl
digits-zero (suc k) val acc e = rw e

-- A number below 10 ^ k takes `k` places at most.
pub start-write_digits :
    (k i val : ℕ) (buf : Bytes) → val < 10 ^ k → i - k ≤ (write_digits i val buf).start
unfolding write_digits
start-write_digits k zero val buf h = omega arith
start-write_digits zero (suc i) val buf h = ground arith
start-write_digits (suc k) (suc i) val buf h =
    ground (arith, start-write_digits k i (val / 10) (set buf i (b'0' + val % 10)) (tenth k val h))

-- Reading the digits back: the scan continues behind them with the number.
pub scan-digits :
    (limit k val : ℕ) (acc : Bytes)
    → val < 10 ^ k
    → val < limit
    → scan limit (digits k val acc) 0 ≡ scan limit acc val
unfolding digits
scan-digits limit zero val acc h l = ap (scan limit acc) (omega arith)
scan-digits limit (suc k) val acc h l = elim (Bool-cases (ltb 0 val)) [
  | inl more ↦ rw more (
      scan-digits limit k (val / 10) ((b'0' + val % 10) ∷ acc) (tenth k val h) (omega arith)
      ∙ scan_digit limit val acc l)
  | inr done ↦ rw done (ap (scan limit acc) (ground arith))
]

-- The first digit of a positive number is not a zero.
pub digits_leading :
    (k val : ℕ) (acc : Bytes)
    → 0 < val
    → val < 10 ^ k
    → (c : ℕ) × (rest : Bytes) × (digits k val acc ≡ c ∷ rest) × (b'0' < c) × (c ≤ b'9')
unfolding digits
digits_leading zero val acc p h = absurd (omega arith)
digits_leading (suc k) val acc p h = rw (lt→ltb 0 val p) (elim (dec_lt 0 (val / 10)) [
  | yes q ↦ digits_leading k (val / 10) ((b'0' + val % 10) ∷ acc) q (tenth k val h)
  | no n ↦
      (b'0' + val % 10, acc, digits-zero k (val / 10) _ (omega arith), omega arith, omega arith)
])

pub digits-append :
    (k val : ℕ) (acc rest : Bytes) → digits k val (acc ++ rest) ≡ digits k val acc ++ rest
unfolding digits
digits-append zero val acc rest = refl
digits-append (suc k) val acc rest =
    ground (arith, digits-append k (val / 10) ((b'0' + val % 10) ∷ acc) rest)

drop-replicate {ℓ} : {A : Type ℓ} (m : ℕ) (a : A) → drop m (replicate (suc m) a) ≡ a ∷ []
drop-replicate zero a = refl
drop-replicate (suc m) a = drop-replicate m a

write_fresh :
    (m val : ℕ)
    → drop
        (write_digits m val (replicate (suc m) 0)).start
        (write_digits m val (replicate (suc m) 0)).buf
      ≡ digits m val [] ++ 0 ∷ []
write_fresh m val =
    write_digits_lem m val (replicate (suc m) 0) (omega (arith, length-replicate {A = ℕ} (suc m) 0))
    ∙ ap (digits m val) (drop-replicate m 0)
    ∙ digits-append m val [] (0 ∷ [])

-- In a fresh buffer of `n` bytes the loop leaves the digits, closed by the NUL.
pub write_digits-fresh :
    (n val : ℕ)
    → 0 < n
    → drop
        (write_digits (n - 1) val (replicate n 0)).start
        (write_digits (n - 1) val (replicate n 0)).buf
      ≡ digits (n - 1) val [] ++ 0 ∷ []
write_digits-fresh zero val h = absurd (omega arith)
write_digits-fresh (suc m) val h = let e : suc m - 1 ≡ m = omega arith in rw e (write_fresh m val)

take_exact {ℓ} : {A : Type ℓ} (n : ℕ) (xs ys : List A) → n ≡ length xs → take n (xs ++ ys) ≡ xs
take_exact n xs ys e = rw e (take-append_length xs ys)

-- What stands from `start` on, without the NUL, is the text.
pub as_bytes_lem : (s : IntStr) (xs : Bytes) → drop s.start s.buf ≡ xs ++ 0 ∷ [] → as_bytes s ≡ xs
unfolding as_bytes
as_bytes_lem s xs e = rw e (
    take_exact _ xs (0 ∷ [])
      (omega (arith, length-drop s.start s.buf, ap length e, length-append xs (0 ∷ []))))
