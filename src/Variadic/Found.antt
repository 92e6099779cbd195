-- ===== src/Variadic/Found.antt =====
-- llib/src/variadic.rs: what the iterator over the specifiers finds.
use l_builtin.Base.{
  ℕ, zero, suc, ◌+◌, ◌-◌, ◌≤◌, ◌<◌, ◌≡◌, refl, inl, inr, Option, none, some, Bool, true, false,
  Bytes, ◌==◌, ltb, ltb→lt, length, get_or, take, drop, Bool-cases, arith,
}
use l_builtin.Variadic.{
  skip, number, precision, conversion, specifier, Specifier, Step, or_further, next, has_byte,
  read_width, read_prec, is_flag, is_ascii_digit, is_length_modifier,
}

-- A specifier stands in the format from a percent sign on, not before the place, up to the next one.
abbrev pub IsFound : Bytes → ℕ → Option Specifier × ℕ → Type 0
IsFound bytes idx (none, i) = length bytes ≤ i
IsFound bytes idx (some s, i) =
    (start : ℕ) × (idx ≤ start)
    × (start < i)
    × (i ≤ length bytes)
    × ((get_or bytes start 0 == b'%') ≡ true)
    × (s.text ≡ take (i - start) (drop start bytes))

abbrev Finds : Bytes → ℕ → Step → Type 0
Finds bytes idx none = ⊥
Finds bytes idx (some r) = IsFound bytes idx r

earlier :
    (bytes : Bytes) (idx further : ℕ) (r : Step)
    → idx ≤ further
    → Finds bytes further r
    → Finds bytes idx r
earlier bytes idx further (some (none, i)) le h = h
earlier bytes idx further (some (some s, i)) le (start, a, b, c, d, e) =
    (start, omega arith, b, c, d, e)
earlier bytes idx further none le h = elim h [ ]

skip-le : (p : ℕ → Bool) (bytes : Bytes) (j : ℕ) → j ≤ skip p bytes j
unfolding skip
skip-le p bytes j = omega arith

number-le : (bytes : Bytes) (j : ℕ) → j ≤ (number bytes j).1
unfolding number
number-le bytes j = elim (Bool-cases (has_byte bytes j b'*')) [
  | inl e ↦ rw e (omega arith)
  | inr e ↦ rw e (skip-le is_ascii_digit bytes j)
]

precision-le : (bytes : Bytes) (j : ℕ) → j ≤ (precision bytes j).1
unfolding precision
precision-le bytes j = elim (Bool-cases (has_byte bytes j b'.')) [
  | inl e ↦ rw e (omega (arith, number-le bytes (j + 1)))
  | inr e ↦ rw e (omega arith)
]

conversion-lt : (bytes : Bytes) (start : ℕ) → start < conversion bytes start
unfolding conversion
conversion-lt bytes start =
    let flags = skip-le is_flag bytes (start + 1) in
    let width = number-le bytes (skip is_flag bytes (start + 1)) in
    let prec = precision-le bytes (read_width bytes start).1 in
    let modifiers = skip-le is_length_modifier bytes (read_prec bytes start).1 in omega arith

or_further-Finds :
    (bytes : Bytes) (idx : ℕ) (step : Step)
    → (get_or bytes idx 0 == b'%') ≡ true
    → Finds bytes idx step
    → Finds bytes idx (or_further (specifier bytes idx) step)
unfolding specifier
or_further-Finds bytes idx step sign h =
    elim (Bool-cases (ltb (conversion bytes idx) (length bytes))) [
      | inl e ↦
          let inside = ltb→lt (conversion bytes idx) (length bytes) e in
          let behind = conversion-lt bytes idx in
          rw e (idx, omega arith, omega arith, omega arith, sign, refl)
      | inr e ↦ rw e h
    ]

next-Finds :
    (n : ℕ) (bytes : Bytes) (idx : ℕ) → length bytes - idx < n → Finds bytes idx (next n bytes idx)
unfolding next
next-Finds zero bytes idx fuel = absurd (omega arith)
next-Finds (suc n) bytes idx fuel = elim (Bool-cases (ltb idx (length bytes))) [
  | inr e ↦ rw e (past idx (length bytes) e)
  | inl e ↦
      let inside = ltb→lt idx (length bytes) e in
      let further =
        earlier bytes idx (idx + 1) (next n bytes (idx + 1)) (omega arith)
          (next-Finds n bytes (idx + 1) (omega arith)) in
      let escaped =
        earlier bytes idx (idx + 2) (next n bytes (idx + 2)) (omega arith)
          (next-Finds n bytes (idx + 2) (omega arith)) in
      elim (Bool-cases (get_or bytes idx 0 == b'%')) [
        | inr f ↦ rw (e, f) further
        | inl f ↦ elim (Bool-cases (has_byte bytes (idx + 1) b'%')) [
          | inl g ↦ rw (e, f, g) escaped
          | inr g ↦ rw (e, f, g) (or_further-Finds bytes idx (next n bytes (idx + 1)) f further)
        ]
      ]
]
  where
    past : (i n : ℕ) → ltb i n ≡ false → n ≤ i
    past i n e = ground arith

-- The iterator ends: with a round for each byte that is left, and one more, it has either found a
-- specifier, whose text stands in the format from a percent sign at or behind its place up to its next place, or
-- gone through the whole format.
pub next-IsFound :
    (n : ℕ) (bytes : Bytes) (idx : ℕ)
    → length bytes - idx < n
    → (r : Option Specifier × ℕ) × (next n bytes idx ≡ some r) × IsFound bytes idx r
next-IsFound n bytes idx fuel = found (next n bytes idx) (next-Finds n bytes idx fuel)
  where
    found :
        (step : Step)
        → Finds bytes idx step
        → (r : Option Specifier × ℕ) × (step ≡ some r) × IsFound bytes idx r
    found (some r) h = (r, refl, h)
    found none h = elim h [ ]
