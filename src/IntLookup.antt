-- ===== src/IntLookup.antt =====
-- llib/src/intlookup.rs: the table that dispatches subcommands. Keys of at most 4, 8 or 16 bytes are
-- packed into integers, sorted, and searched by their shortest unique prefix.
pub mod Find
pub mod Sorted
pub mod Pack
pub mod Build
pub mod Search
pub mod Unique
pub mod Prefix
pub mod Resolve
mod Tests
use l_builtin.Base.{
  ℕ, zero, suc, ◌+◌, ◌-◌, ◌*◌, ◌/◌, ◌^◌, List, [], ◌∷◌, Option, none, some, Bytes, length, set,
  get_elem?, map, Bool, true, false, ◌&&◌, not, ltb, leb, ◌==◌, if◌then◌else◌,
}
use l_builtin.Base.Partial.{Partial, done, panic, ◌>>=◌, ◌>>◌, assert, index}

-- The rows of an `IntLookup<V, N>`: its two arrays, which are always written together, side by side.
abbrev pub Rows {ℓ} : Type ℓ → Type ℓ
Rows V = List (ℕ × V)

-- `keys_max_bits`: the loop that keeps the longest length
unfoldable pub longest {ℓ} : {V : Type ℓ} → List (Bytes × V) → ℕ → ℕ
longest [] max = max
longest ((name, v) ∷ arr) max = longest arr (if ltb max (length name) then length name else max)

unfoldable pub keys_max_bits {ℓ} : {V : Type ℓ} → List (Bytes × V) → Partial ℕ
unfolding longest
keys_max_bits arr = do
  assert (not (length arr == 0))
  assert (not (longest arr 0 == 0))
  done (longest arr 0)

-- `key_type_bits`: the narrowest of u32, u64 and u128 that holds every key
unfoldable pub width_of : ℕ → Partial ℕ
width_of max =
    if leb max 4
    then done 32
    else if leb max 8
    then done 64
    else if leb max 16
    then done 128
    else panic

unfoldable pub key_type_bits {ℓ} : {V : Type ℓ} → List (Bytes × V) → Partial ℕ
unfolding keys_max_bits width_of
key_type_bits arr = do max ← keys_max_bits arr; width_of max

-- In all that follows `t_bytes` is `T_BYTES`, the size of the integer type.

-- The loop of `pack`. Byte `i` goes to the bits from `(T_BYTES - 1 - i) * 8` up; no two bytes share a
-- bit, so `|=` adds.
unfoldable pub pack_from : ℕ → ℕ → Bytes → ℕ → ℕ
pack_from t_bytes i [] val = val
pack_from t_bytes i (b ∷ bytes) val =
    pack_from t_bytes (i + 1) bytes (val + b * 2 ^ ((t_bytes - 1 - i) * 8))

unfoldable pub pack : ℕ → Bytes → Partial ℕ
unfolding pack_from
pack t_bytes bytes = do
  assert (leb (length bytes) t_bytes)
  assert (not (length bytes == 0))
  done (pack_from t_bytes 0 bytes 0)

-- the least length of the longest key, for which no narrower type would do
unfoldable pub min_required_len : ℕ → ℕ
min_required_len t_bytes = if t_bytes == 16 then 9 else if t_bytes == 8 then 5 else 0

module _ {ℓ} {V : Type ℓ} where
  -- the inner loop of `sort`, and the write behind it; `key` and `val` are those of the row
  unfoldable pub insert_at : ℕ → Rows V → ℕ × V → Partial (Rows V)
  insert_at zero rows row = done (set rows 0 row)
  insert_at (suc j) rows row = index rows j >>= λ prev.
      let shifted = insert_at j (set rows (suc j) prev) row in
      if row.0 == prev.0
      then panic
      else if leb prev.0 row.0
      then done (set rows (suc j) row)
      else shifted

  -- the outer loop of `sort`, with the number of rounds left
  unfoldable pub sort_from : ℕ → ℕ → Rows V → Partial (Rows V)
  unfolding insert_at
  sort_from zero i rows = done rows
  sort_from (suc left) i rows = do
    row ← index rows i
    rows' ← insert_at i rows row
    sort_from left (i + 1) rows'

  unfoldable pub sort : Rows V → Partial (Rows V)
  unfolding sort_from
  sort rows = sort_from (length rows) 0 rows

  -- the loop of `new` that fills the arrays
  unfoldable pub pack_rows : ℕ → List (Bytes × V) → Partial (Rows V)
  unfolding pack
  pack_rows t_bytes [] = done []
  pack_rows t_bytes ((name, v) ∷ arr) = do
    key ← pack t_bytes name
    rows ← pack_rows t_bytes arr
    done ((key, v) ∷ rows)

  -- `IntLookup::new`
  unfoldable pub new : ℕ → List (Bytes × V) → Partial (Rows V)
  unfolding keys_max_bits min_required_len pack_rows sort
  new t_bytes arr = do
    max_len ← keys_max_bits arr
    assert (leb max_len t_bytes)
    assert (leb (min_required_len t_bytes) max_len)
    rows ← pack_rows t_bytes arr
    sort rows

  -- `intlookup!`: the width, in bytes, and the table
  unfoldable pub intlookup : List (Bytes × V) → Partial (ℕ × Rows V)
  unfolding key_type_bits new
  intlookup arr = do bits ← key_type_bits arr; rows ← new (bits / 8) arr; done (bits / 8, rows)
