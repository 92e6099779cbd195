-- ===== src/IntLookup/Unique.antt =====
-- intlookup.rs: on a sorted table, which row `lookup` resolves a packed prefix to.
use l_builtin.Base.{
  ap, ◌^◌, if◌then◌else◌, ◌*◌, ◌/◌, refl, ◌↔◌, Bool-cases, dec_lt, get_elem?-lt, ==_iff, ◌∙◌,
  get_elem?-in, true, none-ne-some, false, ℕ, ◌+◌, ◌≤◌, ◌<◌, ◌≡◌, ◌⊎◌, inl, inr, some, none, Option,
  get_elem?, In, In-index, index-In, arith, ◌==◌,
}
use l_builtin.IntLookup.{Rows}
use l_builtin.IntLookup.Find.{masked, row_matches, decide_match}
use l_builtin.IntLookup.Sorted.{
  IsSorted-injective, IsSorted-index_lt, masked_mono, IsSorted, IsSorted-index,
}
use l_builtin.IntLookup.Search.{Splits}

module _ {ℓ} {V : Type ℓ} where
  -- A row matches, and it is the target itself or the only one that matches.
  pub record Resolves (shift target : ℕ) (rows : Rows V) (v : V) : Type ℓ where
    pub key : ℕ
    pub at : In (key, v) rows
    pub matching : masked shift key ≡ masked shift target
    pub exact_or_only :
        (key ≡ target)
        ⊎ ((k : ℕ) (w : V) → In (k, w) rows → masked shift k ≡ masked shift target → k ≡ key)

module _ {ℓ} {V : Type ℓ} (shift target : ℕ) (rows : Rows V) (sorted : IsSorted rows) where
  module _ (low : ℕ) (splits : Splits shift (masked shift target) rows low) where
    -- If the row behind the lower bound does not match, no later row does.
    only_match :
        (row : ℕ × V)
        → get_elem? rows low ≡ some row
        → row_matches shift (masked shift target) (get_elem? rows (low + 1)) ≡ false
        → (k : ℕ) (w : V) → In (k, w) rows
        → masked shift k ≡ masked shift target
        → k ≡ row.0
    only_match row e n k w h m = at_index (In-index (k, w) rows h)
      where
        later : (j : ℕ) → get_elem? rows j ≡ some (k, w) → low < j → ⊥
        later j p l =
            let (s, q) =
              get_elem?-in rows (low + 1) (omega (arith, get_elem?-lt rows j (k, w) p)) in
            clash s q (IsSorted-index rows (low + 1) j s (k, w) sorted q p (omega arith))
          where
            clash : (s : ℕ × V) → get_elem? rows (low + 1) ≡ some s → s.0 ≤ k → ⊥
            clash s q le =
                ground (
                  arith,
                  q,
                  n,
                  masked_mono shift s.0 k le,
                  splits.above (low + 1) s q (omega arith),
                )

        at_index : (j : ℕ) × (get_elem? rows j ≡ some (k, w)) → k ≡ row.0
        at_index (j, p) = elim (dec_lt j low) [
          | yes l ↦ absurd (omega (arith, splits.below j (k, w) p l))
          | no nl ↦ elim (dec_lt low j) [
            | yes l ↦ absurd (later j p l)
            | no ng ↦ let same : j ≡ low = omega arith in cc (p, e, same)
          ]
        ]

    decide-only :
        (v : V) (o : Option (ℕ × V))
        → get_elem? rows low ≡ o
        → decide_match shift target (masked shift target) o (get_elem? rows (low + 1)) ≡ some v
        → Resolves shift target rows v
    unfolding decide_match
    decide-only v none p e = absurd (none-ne-some e)
    decide-only v (some row) p e = elim (Bool-cases (masked shift row.0 == masked shift target)) [
      | inr other ↦ absurd (none-ne-some (rw other at e))
      | inl hit ↦ elim (Bool-cases (row.0 == target)) [
        | inl exact ↦ found (rw (hit, exact) at e) hit (inl ((==_iff row.0 target).0 exact))
        | inr prefix ↦
            elim (Bool-cases (row_matches shift (masked shift target) (get_elem? rows (low + 1)))) [
              | inl more ↦ absurd (none-ne-some (rw (hit, prefix, more) at e))
              | inr last ↦ found (rw (hit, prefix, last) at e) hit (inr (only_match row p last))
            ]
      ]
    ]
      where
        found :
            some row.1 ≡ some v
            → (masked shift row.0 == masked shift target) ≡ true
            → (row.0 ≡ target)
              ⊎ ((k : ℕ) (w : V)
                  → In (k, w) rows
                  → masked shift k ≡ masked shift target
                  → k ≡ row.0)
            → Resolves shift target rows v
        found q hit why = record {
          key = row.0;
          at = index-In (row.0, v) rows low (p ∙ cc q);
          matching = (==_iff (masked shift row.0) (masked shift target)).0 hit;
          exact_or_only = why;
        }

    -- The row at the lower bound matches, if any row does.
    first_match :
        (k : ℕ) (v : V) (i : ℕ)
        → get_elem? rows i ≡ some (k, v)
        → masked shift k ≡ masked shift target
        → (row : ℕ × V) × (get_elem? rows low ≡ some row)
          × (masked shift row.0 ≡ masked shift target)
          × (row.0 ≤ k)
    first_match k v i p m = elim (dec_lt i low) [
      | yes l ↦ absurd (omega (arith, splits.below i (k, v) p l))
      | no nl ↦
          let (row, q) = get_elem?-in rows low (omega (arith, get_elem?-lt rows i (k, v) p)) in
          hit row q (IsSorted-index rows low i row (k, v) sorted q p (omega arith))
    ]
      where
        hit :
            (row : ℕ × V)
            → get_elem? rows low ≡ some row
            → row.0 ≤ k
            → (row : ℕ × V) × (get_elem? rows low ≡ some row)
              × (masked shift row.0 ≡ masked shift target)
              × (row.0 ≤ k)
        hit row q le = (
          row,
          q,
          omega (arith, masked_mono shift row.0 k le, splits.above low row q (omega arith)),
          le,
        )

    -- two rows with one key hold one value
    same_value :
        (k : ℕ) (v : V) (row : ℕ × V)
        → In (k, v) rows
        → get_elem? rows low ≡ some row
        → row.0 ≡ k
        → row.1 ≡ v
    same_value k v row h q e =
        let (i, p) = In-index (k, v) rows h in
        let same : low ≡ i = IsSorted-injective rows low i row (k, v) sorted q p e in
        cc (p, q, same)

    -- the row behind it does not match, if only its key does
    no_second :
        (k : ℕ) (row : ℕ × V)
        → get_elem? rows low ≡ some row
        → row.0 ≡ k
        → ((k' : ℕ) (w : V) → In (k', w) rows → masked shift k' ≡ masked shift target → k' ≡ k)
        → (o : Option (ℕ × V)) → get_elem? rows (low + 1) ≡ o
        → row_matches shift (masked shift target) o ≡ false
    no_second k row q e only none p = refl
    no_second k row q e only (some s) p =
        let above : row.0 < s.0 =
          IsSorted-index_lt rows low (low + 1) row s sorted q p (omega arith) in
        elim (Bool-cases (masked shift s.0 == masked shift target)) [
          | inr no_hit ↦ no_hit
          | inl hit ↦ absurd (
              omega (
                arith,
                only s.0 s.1 (index-In s rows (low + 1) p)
                    ((==_iff (masked shift s.0) (masked shift target)).0 hit),
              ))
        ]

    decide-of :
        masked shift target ≡ target
        → (v : V) → Resolves shift target rows v
        → decide_match shift target
            (masked shift target)
            (get_elem? rows low)
            (get_elem? rows (low + 1))
          ≡ some v
    unfolding decide_match
    decide-of whole v r =
        let (i, p) = In-index (r.key, v) rows r.at in
        let (row, q, hit, le) = first_match r.key v i p r.matching in
        rw q (rw ((==_iff _ _).1 hit) (close row q hit le r.exact_or_only))
      where
        masked-le : (d a : ℕ) → a / d * d ≤ a
        masked-le d a = grind arith

        close :
            (row : ℕ × V)
            → get_elem? rows low ≡ some row
            → masked shift row.0 ≡ masked shift target
            → row.0 ≤ r.key
            → (r.key ≡ target)
              ⊎ ((k : ℕ) (w : V)
                  → In (k, w) rows
                  → masked shift k ≡ masked shift target
                  → k ≡ r.key)
            → (if row.0 == target
                then some row.1
                else if row_matches shift (masked shift target) (get_elem? rows (low + 1))
                then none
                else some row.1)
              ≡ some v
        close row q hit le (inl exact) =
            let e : row.0 ≡ target = omega (arith, masked-le (2 ^ shift) row.0) in
            rw ((==_iff row.0 target).1 e) (ap some (same_value r.key v row r.at q (omega arith)))
        close row q hit le (inr only) =
            let e : row.0 ≡ r.key = only row.0 row.1 (index-In row rows low q) hit in
            let last = no_second r.key row q e only (get_elem? rows (low + 1)) refl in
            rw last (ground (arith, same_value r.key v row r.at q e))

  -- What the lookup decides is the row that resolves the target, if there is one.
  pub decide_match_iff :
      (low : ℕ)
      → Splits shift (masked shift target) rows low
      → masked shift target ≡ target
      → (v : V)
      → (decide_match shift target
            (masked shift target)
            (get_elem? rows low)
            (get_elem? rows (low + 1))
          ≡ some v)
        ↔ Resolves shift target rows v
  decide_match_iff low splits whole v =
      (decide-only low splits v (get_elem? rows low) refl, decide-of low splits whole v)
