-- ===== src/IntLookup/Find.antt =====
-- intlookup.rs: `lookup` and `lookup_shortest_unique_prefix`.
use l_builtin.Base.{
  ℕ, zero, suc, ◌+◌, ◌-◌, ◌*◌, ◌/◌, ◌^◌, Option, none, some, Bytes, length, get_elem?, Bool, true,
  false, ltb, ◌==◌, if◌then◌else◌,
}
use l_builtin.Base.Partial.{Partial, done, panic, ◌>>=◌, ◌>>◌, index}
use l_builtin.IntLookup.{Rows, pack}

-- `key & mask`, where the mask clears the low `shift` bits
abbrev pub masked : ℕ → ℕ → ℕ
masked shift key = key / 2 ^ shift * 2 ^ shift

module _ {ℓ} {V : Type ℓ} where
  -- the binary search for the first key that is not below `masked_target`
  unfoldable pub lower_bound : ℕ → ℕ → Rows V → ℕ → ℕ → ℕ → Partial ℕ
  lower_bound shift masked_target rows zero low high = panic
  lower_bound shift masked_target rows (suc fuel) low high =
      let mid = low + (high - low) / 2 in
      let round = index rows mid >>= λ row. elim (ltb (masked shift row.0) masked_target) [
        | true ↦ lower_bound shift masked_target rows fuel (mid + 1) high
        | false ↦ lower_bound shift masked_target rows fuel low mid
      ] in
      if ltb low high then round else done low

  -- `low + 1 < N && (self.0[low + 1] & mask) == masked_target`
  abbrev pub row_matches : ℕ → ℕ → Option (ℕ × V) → Bool
  row_matches shift masked_target none = false
  row_matches shift masked_target (some row) = masked shift row.0 == masked_target

  -- what stands at the lower bound and behind it decides
  unfoldable pub decide_match : ℕ → ℕ → ℕ → Option (ℕ × V) → Option (ℕ × V) → Option V
  decide_match shift target masked_target none next = none
  decide_match shift target masked_target (some row) next =
      if masked shift row.0 == masked_target
      then (if row.0 == target
          then some row.1
          else if row_matches shift masked_target next
          then none
          else some row.1)
      else none

  unfoldable pub lookup_shortest_unique_prefix : ℕ → Rows V → Bytes → Partial (Option V)
  unfolding pack lower_bound decide_match
  lookup_shortest_unique_prefix t_bytes rows key =
      if ltb t_bytes (length key) then done none else do
        target ← pack t_bytes key
        let shift = (t_bytes - length key) * 8
        let masked_target = masked shift target
        low ← lower_bound shift masked_target rows (length rows + 1) 0 (length rows)
        done (
            decide_match shift target masked_target (get_elem? rows low) (get_elem? rows (low + 1)))

  -- `IntLookup::lookup`; the branches behind `if false` are never taken
  unfoldable pub lookup : ℕ → Rows V → Bytes → Partial (Option V)
  unfolding lookup_shortest_unique_prefix pack
  lookup t_bytes rows key =
      if ltb t_bytes (length key)
      then done none
      else do pack t_bytes key; lookup_shortest_unique_prefix t_bytes rows key
