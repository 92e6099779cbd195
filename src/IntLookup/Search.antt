-- ===== src/IntLookup/Search.antt =====
-- intlookup.rs: the binary search ends, never reads outside the table, and splits it at the target;
-- with that, the lookup is a filter of the table.
use l_builtin.Base.{
  get_elem?-in, if◌then◌else◌, ◌⊎◌, true, false, ◌⊎◌, false, true, ℕ, zero, suc, ◌+◌, ◌-◌, ◌/◌, ◌≤◌,
  ◌<◌, ◌≡◌, some, length, get_elem?, arith, ltb, Bool-cases, inl, inr,
}
use l_builtin.Base.Partial.{Partial, done}
use l_builtin.IntLookup.{Rows}
use l_builtin.IntLookup.Find.{masked, lower_bound}
use l_builtin.IntLookup.Sorted.{IsSorted, IsSorted-index, masked_mono}

module _ {ℓ} {V : Type ℓ} where
  -- the keys before `low` are below the masked target, and the others are not
  pub record Splits (shift target : ℕ) (rows : Rows V) (low : ℕ) : Type ℓ where
    pub inside : low ≤ length rows
    pub below :
        (i : ℕ) (r : ℕ × V) → get_elem? rows i ≡ some r → i < low → masked shift r.0 < target
    pub above :
        (i : ℕ) (r : ℕ × V) → get_elem? rows i ≡ some r → low ≤ i → target ≤ masked shift r.0

  module _ (shift target : ℕ) (rows : Rows V) (sorted : IsSorted rows) where
    -- what the loop knows of the range that is left
    pub record Inv (low high : ℕ) : Type ℓ where
      pub ordered : low ≤ high
      pub inside : high ≤ length rows
      pub below :
          (i : ℕ) (r : ℕ × V) → get_elem? rows i ≡ some r → i < low → masked shift r.0 < target
      pub above :
          (i : ℕ) (r : ℕ × V) → get_elem? rows i ≡ some r → high ≤ i → target ≤ masked shift r.0

    upper-Inv :
        (low high mid : ℕ) (row : ℕ × V)
        → Inv low high
        → get_elem? rows mid ≡ some row
        → mid < high
        → masked shift row.0 < target
        → Inv (mid + 1) high
    upper-Inv low high mid row inv e h small = record {
      ordered = omega arith;
      inside = inv.inside;
      below = λ i r p l. ground (
        arith,
        masked_mono shift r.0 row.0 (IsSorted-index rows i mid r row sorted p e (omega arith)),
      );
      above = inv.above;
    }

    lower-Inv :
        (low high mid : ℕ) (row : ℕ × V)
        → Inv low high
        → get_elem? rows mid ≡ some row
        → low ≤ mid
        → mid < high
        → target ≤ masked shift row.0
        → Inv low mid
    lower-Inv low high mid row inv e h k large = record {
      ordered = omega arith;
      inside = omega (arith, inv.inside);
      below = inv.below;
      above = λ i r p l. ground (
        arith,
        masked_mono shift row.0 r.0 (IsSorted-index rows mid i row r sorted e p (omega arith)),
      );
    }

    Inv→Splits : (low high : ℕ) → Inv low high → high ≤ low → Splits shift target rows low
    Inv→Splits low high inv h = record {
      inside = omega (arith, inv.inside, inv.ordered);
      below = inv.below;
      above = λ i r e l. inv.above i r e (omega arith);
    }

-- One round, at the row that it reads.
lower_bound-round {ℓ} :
    {V : Type ℓ} (shift target : ℕ) (rows : Rows V) (fuel low high : ℕ) (row : ℕ × V)
    → ltb low high ≡ true
    → get_elem? rows (low + (high - low) / 2) ≡ some row
    → lower_bound shift target rows (suc fuel) low high ≡ (
        if ltb (masked shift row.0) target
        then lower_bound shift target rows fuel (low + (high - low) / 2 + 1) high
        else lower_bound shift target rows fuel low (low + (high - low) / 2))
unfolding lower_bound
lower_bound-round shift target rows fuel low high row more e = rw (more, e) (ground arith)

lower_bound-end {ℓ} :
    {V : Type ℓ} (shift target : ℕ) (rows : Rows V) (fuel low high : ℕ)
    → ltb low high ≡ false
    → lower_bound shift target rows (suc fuel) low high ≡ done low
unfolding lower_bound
lower_bound-end shift target rows fuel low high empty = rw empty

module _ {ℓ} {V : Type ℓ} (shift target : ℕ) (rows : Rows V) (sorted : IsSorted rows) where
  abbrev Found : Partial ℕ → Type ℓ
  Found p = (r : ℕ) × (p ≡ done r) × Splits shift target rows r

  -- With more fuel than the range is wide the search ends at the index that splits the table.
  pub lower_bound-Splits :
      (fuel low high : ℕ)
      → high - low < fuel
      → Inv shift target rows sorted low high
      → Found (lower_bound shift target rows fuel low high)
  lower_bound-Splits zero low high h inv = absurd (omega arith)
  lower_bound-Splits (suc fuel) low high h inv = elim (Bool-cases (ltb low high)) [
    | inr empty ↦ (
      low,
      lower_bound-end shift target rows fuel low high empty,
      Inv→Splits shift target rows sorted low high inv (ground arith),
    )
    | inl more ↦
        let in_range : low + (high - low) / 2 < high = ground arith in
        let (row, e) = get_elem?-in rows (low + (high - low) / 2) (omega (arith, inv.inside)) in
        rw (lower_bound-round shift target rows fuel low high row more e) (
          pick row e in_range (Bool-cases (ltb (masked shift row.0) target))
            (λ (i : Inv shift target rows sorted (low + (high - low) / 2 + 1) high).
              lower_bound-Splits fuel (low + (high - low) / 2 + 1) high (omega arith) i)
            (λ (i : Inv shift target rows sorted low (low + (high - low) / 2)).
              lower_bound-Splits fuel low (low + (high - low) / 2) (omega arith) i))
  ]
    where
      pick :
          (row : ℕ × V)
          → get_elem? rows (low + (high - low) / 2) ≡ some row
          → low + (high - low) / 2 < high
          → (ltb (masked shift row.0) target ≡ true) ⊎ (ltb (masked shift row.0) target ≡ false)
          → (Inv shift target rows sorted (low + (high - low) / 2 + 1) high
              → Found (lower_bound shift target rows fuel (low + (high - low) / 2 + 1) high))
          → (Inv shift target rows sorted low (low + (high - low) / 2)
              → Found (lower_bound shift target rows fuel low (low + (high - low) / 2)))
          → Found (
              if ltb (masked shift row.0) target
              then lower_bound shift target rows fuel (low + (high - low) / 2 + 1) high
              else lower_bound shift target rows fuel low (low + (high - low) / 2))
      pick row e h (inl small) up down =
          rw small (up (upper-Inv shift target rows sorted low high _ row inv e h (ground arith)))
      pick row e h (inr large) up down = rw large (
          down (
            lower-Inv shift target rows sorted low high _ row inv e (omega arith) h (ground arith)))
