-- ===== src/IntLookup/Sorted.antt =====
-- Tables whose keys ascend strictly, by rows and by indices.
use l_builtin.Base.{ℕ, zero, suc, ◌*◌, ◌/◌, ◌^◌, ◌≤◌, ◌<◌, ◌≡◌, [], ◌∷◌, some, get_elem?, arith}
use l_builtin.IntLookup.{Rows}
use l_builtin.IntLookup.Find.{masked}

module _ {ℓ} {V : Type ℓ} where
  -- every key of `rows` is above `k`
  abbrev pub Above : ℕ → Rows V → Type 0
  Above k [] = Unit
  Above k (row ∷ rows) = (k < row.0) × Above k rows

  abbrev pub IsSorted : Rows V → Type 0
  IsSorted [] = Unit
  IsSorted (row ∷ rows) = Above row.0 rows × IsSorted rows

  pub Above-index :
      (k : ℕ) (rows : Rows V) (i : ℕ) (row : ℕ × V)
      → Above k rows
      → get_elem? rows i ≡ some row
      → k < row.0
  Above-index k [] i row h e = cc
  Above-index k (r ∷ rows) zero row h e = ground arith
  Above-index k (r ∷ rows) (suc i) row h e = Above-index k rows i row h.1 e

  pub IsSorted-index :
      (rows : Rows V) (i j : ℕ) (r s : ℕ × V)
      → IsSorted rows
      → get_elem? rows i ≡ some r
      → get_elem? rows j ≡ some s
      → i ≤ j
      → r.0 ≤ s.0
  IsSorted-index [] i j r s h p q l = cc
  IsSorted-index (x ∷ rows) zero zero r s h p q l = ground arith
  IsSorted-index (x ∷ rows) zero (suc j) r s h p q l =
      ground (arith, Above-index x.0 rows j s h.0 q)
  IsSorted-index (x ∷ rows) (suc i) zero r s h p q l = absurd (omega arith)
  IsSorted-index (x ∷ rows) (suc i) (suc j) r s h p q l =
      IsSorted-index rows i j r s h.1 p q (omega arith)

  -- strictly, between different rows
  pub IsSorted-index_lt :
      (rows : Rows V) (i j : ℕ) (r s : ℕ × V)
      → IsSorted rows
      → get_elem? rows i ≡ some r
      → get_elem? rows j ≡ some s
      → i < j
      → r.0 < s.0
  IsSorted-index_lt [] i j r s h p q l = cc
  IsSorted-index_lt (x ∷ rows) i zero r s h p q l = absurd (omega arith)
  IsSorted-index_lt (x ∷ rows) zero (suc j) r s h p q l =
      ground (arith, Above-index x.0 rows j s h.0 q)
  IsSorted-index_lt (x ∷ rows) (suc i) (suc j) r s h p q l =
      IsSorted-index_lt rows i j r s h.1 p q (omega arith)

  -- so rows with one key are one row
  pub IsSorted-injective :
      (rows : Rows V) (i j : ℕ) (r s : ℕ × V)
      → IsSorted rows
      → get_elem? rows i ≡ some r
      → get_elem? rows j ≡ some s
      → r.0 ≡ s.0
      → i ≡ j
  IsSorted-injective rows i j r s h p q e =
      ground (arith, IsSorted-index_lt rows i j r s h p q, IsSorted-index_lt rows j i s r h q p)

-- clearing low bits keeps the order
pub masked_mono : (shift a b : ℕ) → a ≤ b → masked shift a ≤ masked shift b
masked_mono shift a b h = div_mul_mono (2 ^ shift) a b h
  where
    div_mul_mono : (d a b : ℕ) → a ≤ b → a / d * d ≤ b / d * d
    div_mul_mono d a b h = grind arith
