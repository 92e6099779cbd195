-- ===== src/Hex/Accepted.antt =====
-- io_common.rs: which strings `hex_decode` accepts.
use l_builtin.Base.{
  ℕ, ◌+◌, ◌*◌, ◌%◌, ◌≤◌, ◌≡◌, ◌↔◌, ◌⊎◌, inl, inr, [], ◌∷◌, Option, none, some, Bytes, length, arith,
  ◌==◌, ==_iff, false, refl, ◌-◌, Bool-cases,
}
use l_builtin.Hex.{two_digits, push, hex_digit, byte_of_pair, decode_pairs, hex_decode}

-- `0`-`9`, `a`-`f` or `A`-`F`
abbrev pub IsHexDigit : ℕ → Type 0
IsHexDigit c = ((b'0' ≤ c) × (c ≤ b'9')) ⊎ ((b'a' ≤ c) × (c ≤ b'f')) ⊎ ((b'A' ≤ c) × (c ≤ b'F'))

-- Pairs of bytes, each a hexadecimal digit, but that the first may be a plus sign.
abbrev pub IsHexPairs : Bytes → Type 0
IsHexPairs [] = Unit {0}
IsHexPairs (a ∷ b ∷ rest) = ((a ≡ b'+') ⊎ IsHexDigit a) × IsHexDigit b × IsHexPairs rest
IsHexPairs (a ∷ []) = ⊥

hex_digit-of : (c : ℕ) → IsHexDigit c → (d : ℕ) × (hex_digit c ≡ some d)
unfolding hex_digit
hex_digit-of c (inl h) = (c - 48, ground arith)
hex_digit-of c (inr (inl h)) = (c - 97 + 10, ground arith)
hex_digit-of c (inr (inr h)) = (c - 65 + 10, ground arith)

hex_digit-only : (c d : ℕ) → hex_digit c ≡ some d → IsHexDigit c
unfolding hex_digit
hex_digit-only c d h = ground arith

two_digits-only :
    (a b v : ℕ) (x y : Option ℕ)
    → hex_digit a ≡ x
    → hex_digit b ≡ y
    → two_digits x y ≡ some v
    → IsHexDigit a × IsHexDigit b
two_digits-only a b v (some x) (some y) p q h = (hex_digit-only a x p, hex_digit-only b y q)
two_digits-only a b v none y p q h = cc
two_digits-only a b v (some x) none p q h = cc

byte_of_pair-only :
    (a b v : ℕ) → byte_of_pair a b ≡ some v → ((a ≡ b'+') ⊎ IsHexDigit a) × IsHexDigit b
unfolding byte_of_pair
byte_of_pair-only a b v h = elim (Bool-cases (a == b'+')) [
  | inl plus ↦ (inl ((==_iff a b'+').0 plus), hex_digit-only b v (rw plus at h))
  | inr other ↦
      let r = two_digits-only a b v (hex_digit a) (hex_digit b) refl refl (rw other at h) in
      (inr r.0, r.1)
]

byte_of_pair-of :
    (a b : ℕ) → (a ≡ b'+') ⊎ IsHexDigit a → IsHexDigit b → (v : ℕ) × (byte_of_pair a b ≡ some v)
unfolding byte_of_pair
byte_of_pair-of a b ha hb = elim (Bool-cases (a == b'+')) [
  | inl plus ↦ let (d, q) = hex_digit-of b hb in (d, rw plus q)
  | inr other ↦
      let (d, q) = hex_digit-of b hb in
      let (c, p) = hex_digit-of a (digit_part ha other) in (c * 16 + d, rw (other, p, q))
]
  where
    digit_part : (a ≡ b'+') ⊎ IsHexDigit a → (a == b'+') ≡ false → IsHexDigit a
    digit_part (inl e) n = absurd (ground arith)
    digit_part (inr d) n = d

decode_pairs-only : (s out : Bytes) → decode_pairs s ≡ some out → IsHexPairs s
unfolding decode_pairs
decode_pairs-only [] out h = tt
decode_pairs-only (a ∷ []) out h = cc
decode_pairs-only (a ∷ b ∷ rest) out h =
    split (byte_of_pair a b) (decode_pairs rest) refl refl h (decode_pairs-only rest)
  where
    split :
        (x : Option ℕ) (y : Option Bytes)
        → byte_of_pair a b ≡ x
        → decode_pairs rest ≡ y
        → push x y ≡ some out
        → ((out : Bytes) → decode_pairs rest ≡ some out → IsHexPairs rest)
        → ((a ≡ b'+') ⊎ IsHexDigit a) × IsHexDigit b × IsHexPairs rest
    split (some x) (some y) p q e ih = let r = byte_of_pair-only a b x p in (r.0, r.1, ih y q)
    split none y p q e ih = cc
    split (some x) none p q e ih = cc

decode_pairs-of : (s : Bytes) → IsHexPairs s → (out : Bytes) × (decode_pairs s ≡ some out)
unfolding decode_pairs
decode_pairs-of [] h = ([], refl)
decode_pairs-of (a ∷ []) h = absurd h
decode_pairs-of (a ∷ b ∷ rest) (ha, hb, hr) =
    let (v, p) = byte_of_pair-of a b ha hb in
    let (out, q) = decode_pairs-of rest hr in (v ∷ out, rw (p, q))

IsHexPairs-even : (s : Bytes) → IsHexPairs s → length s % 2 ≡ 0
IsHexPairs-even [] h = refl
IsHexPairs-even (a ∷ []) h = absurd h
IsHexPairs-even (a ∷ b ∷ rest) (ha, hb, hr) = omega (arith, IsHexPairs-even rest hr)

none-ne-some : (out : Bytes) → none ≡ some out → ⊥
none-ne-some out e = cc

-- A string is accepted exactly when it is made of pairs of hexadecimal digits, where a plus sign
-- may stand for the first digit of a pair.
pub hex_decode_iff : (s : Bytes) → ((out : Bytes) × (hex_decode s ≡ some out)) ↔ IsHexPairs s
unfolding hex_decode
hex_decode_iff s = (only, of)
  where
    only : (out : Bytes) × (hex_decode s ≡ some out) → IsHexPairs s
    only (out, h) = elim (Bool-cases (length s % 2 == 0)) [
      | inl even ↦ decode_pairs-only s out (rw even at h)
      | inr odd ↦ absurd (none-ne-some out (rw odd at h))
    ]

    of : IsHexPairs s → (out : Bytes) × (hex_decode s ≡ some out)
    of h =
        let (out, e) = decode_pairs-of s h in
        (out, rw ((==_iff (length s % 2) 0).1 (IsHexPairs-even s h)) e)
