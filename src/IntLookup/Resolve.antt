-- ===== src/IntLookup/Resolve.antt =====
-- intlookup.rs: `lookup` on a table that `intlookup!` built, as its documentation has it: an exact name,
-- or a unique prefix of one.
use l_builtin.Base.{
  get_elem?-lt, true, dec_lt, ◌/◌, false, ℕ, ◌+◌, ◌-◌, ◌*◌, ◌≤◌, ◌<◌, ◌≡◌, ◌↔◌, ◌⊎◌, refl, ap, sym,
  ◌∙◌, inl, inr, List, [], ◌∷◌, Option, some, none, Bytes, In, length, get_elem?, arith, ltb,
  none-ne-some,
}
use l_builtin.Base.Partial.{Partial, done, >>=-eq-done}
use mathlib.Core.Path.{subst}
use l_builtin.IntLookup.Build.Insertion.{done-injective}
use l_builtin.IntLookup.{Rows, key_type_bits, new, intlookup}
use l_builtin.IntLookup.Find.{masked, lower_bound, decide_match, lookup}
use l_builtin.IntLookup.Search.{lower_bound-Splits}
use l_builtin.IntLookup.Unique.{Resolves, decide_match_iff}
use l_builtin.IntLookup.Pack.{pack_lem}
use l_builtin.IntLookup.Prefix.{IsText, IsPrefix, packed, masked-packed, matching_iff}
use l_builtin.IntLookup.Build.{Built, new-Built}

IsPrefix-length : (key name : Bytes) → IsPrefix key name → length key ≤ length name
IsPrefix-length [] name p = omega arith
IsPrefix-length (b ∷ key) [] p = absurd p
IsPrefix-length (b ∷ key) (c ∷ name) p = omega (arith, IsPrefix-length key name p.1)

IsPrefix-refl : (key : Bytes) → IsPrefix key key
IsPrefix-refl [] = tt
IsPrefix-refl (b ∷ key) = (refl, IsPrefix-refl key)

IsPrefix-antisym : (key name : Bytes) → IsPrefix key name → IsPrefix name key → key ≡ name
IsPrefix-antisym [] [] p q = refl
IsPrefix-antisym [] (c ∷ name) p q = absurd q
IsPrefix-antisym (b ∷ key) [] p q = absurd p
IsPrefix-antisym (b ∷ key) (c ∷ name) p q = cc (IsPrefix-antisym key name p.1 q.1)

packed-injective :
    (t : ℕ) (m n : Bytes)
    → IsText m
    → IsText n
    → length m ≤ t
    → length n ≤ t
    → packed t m ≡ packed t n
    → m ≡ n
packed-injective t m n hm hn lm ln e =
    IsPrefix-antisym m n
      ((matching_iff t m hm lm n hn ln).0 (ap (masked ((t - length m) * 8)) (sym e)))
      ((matching_iff t n hn ln m hm lm).0 (ap (masked ((t - length n) * 8)) e))

module _ {ℓ} {V : Type ℓ} where
  -- The names of a table are C strings.
  abbrev pub AreTexts : List (Bytes × V) → Type 0
  AreTexts [] = Unit
  AreTexts ((name, v) ∷ arr) = IsText name × AreTexts arr

  IsText-at :
      (arr : List (Bytes × V))
      → AreTexts arr
      → (name : Bytes) (v : V) → In (name, v) arr
      → IsText name
  IsText-at [] h name v i = elim i [ ]
  IsText-at ((n, w) ∷ arr) h name v (inl e) = subst IsText (ap (λ (r : Bytes × V). r.0) (sym e)) h.0
  IsText-at ((n, w) ∷ arr) h name v (inr i) = IsText-at arr h.1 name v i

  -- An entry that has the key as a prefix, and is the key itself or the only such entry's name.
  pub record Chosen (arr : List (Bytes × V)) (key : Bytes) (v : V) : Type ℓ where
    pub name : Bytes
    pub at : In (name, v) arr
    pub prefix : IsPrefix key name
    pub exact_or_only :
        (name ≡ key) ⊎ ((n : Bytes) (w : V) → In (n, w) arr → IsPrefix key n → n ≡ name)

  module _ (t : ℕ) (arr : List (Bytes × V)) (rows : Rows V) (texts : AreTexts arr)
      (built : Built t arr rows) (key : Bytes) (text : IsText key) (short : length key ≤ t) where
    Resolves→Chosen :
        (v : V) → Resolves ((t - length key) * 8) (packed t key) rows v → Chosen arr key v
    Resolves→Chosen v r =
        let (name, i, p) = built.only r.key v r.at in
        record {
          name = name;
          at = i;
          prefix =
              (matching_iff t key text short name (IsText-at arr texts name v i) p.short).0
                (ap (masked ((t - length key) * 8)) (sym p.value) ∙ r.matching);
          exact_or_only = elim r.exact_or_only [
            | inl e ↦ inl (
                packed-injective t name key (IsText-at arr texts name v i) text p.short short
                  (sym p.value ∙ e))
            | inr only ↦ inr (λ n w j h.
                let (q, k) = built.of n w j in
                packed-injective t n name (IsText-at arr texts n w j) (IsText-at arr texts name v i)
                  q.short p.short
                  (only (packed t n) w k
                      ((matching_iff t key text short n (IsText-at arr texts n w j) q.short).1 h)
                    ∙ p.value))
          ];
        }

    Chosen→Resolves :
        (v : V) → Chosen arr key v → Resolves ((t - length key) * 8) (packed t key) rows v
    Chosen→Resolves v c =
        let (p, i) = built.of c.name v c.at in
        record {
          key = packed t c.name;
          at = i;
          matching =
              (matching_iff t key text short c.name (IsText-at arr texts c.name v c.at) p.short).1
                c.prefix;
          exact_or_only = elim c.exact_or_only [
            | inl e ↦ inl (ap (packed t) e)
            | inr only ↦ inr (λ k w j m.
                let (n, i', q) = built.only k w j in
                q.value
                ∙ ap (packed t) (
                    only n w i' (
                      (matching_iff t key text short n (IsText-at arr texts n w i') q.short).0
                        (ap (masked ((t - length key) * 8)) (sym q.value) ∙ m))))
          ];
        }

  -- The lookup of a key that fits into the integer, step by step.
  lookup-short :
      (t : ℕ) (rows : Rows V) (key : Bytes) (low : ℕ)
      → length key ≤ t
      → 0 < length key
      → lower_bound
          ((t - length key) * 8)
          (masked ((t - length key) * 8) (packed t key))
          rows
          (length rows + 1)
          0
          (length rows)
        ≡ done low
      → lookup t rows key
        ≡ done (
            decide_match
              ((t - length key) * 8)
              (packed t key)
              (masked ((t - length key) * 8) (packed t key))
              (get_elem? rows low)
              (get_elem? rows (low + 1)))
  unfolding lookup
  lookup-short t rows key low short filled e =
      let fits : ltb t (length key) ≡ false = ground arith in
      rw (fits, pack_lem t key short filled) (rw e)

  lookup-long :
      (t : ℕ) (rows : Rows V) (key : Bytes) → t < length key → lookup t rows key ≡ done none
  unfolding lookup
  lookup-long t rows key long = let over : ltb t (length key) ≡ true = ground arith in rw over

  abbrev Answers : List (Bytes × V) → Bytes → Partial (Option V) → Type ℓ
  Answers arr key m = (o : Option V) × (m ≡ done o) × ((v : V) → (o ≡ some v) ↔ Chosen arr key v)

  -- On the table that `new` built, at any width.
  pub lookup-new :
      (t : ℕ) (arr : List (Bytes × V)) (rows : Rows V)
      → AreTexts arr
      → Built t arr rows
      → (key : Bytes) → IsText key
      → 0 < length key
      → Answers arr key (lookup t rows key)
  lookup-new t arr rows texts built key text filled = elim (dec_lt t (length key)) [
    | yes long ↦ (
      none,
      lookup-long t rows key long,
      λ v. (λ e. absurd (none-ne-some e), λ c. absurd (too_long c long)),
    )
    | no fits ↦
        let short : length key ≤ t = omega arith in
        let (low, e, splits) =
          lower_bound-Splits ((t - length key) * 8) (masked ((t - length key) * 8) (packed t key))
            rows built.sorted (length rows + 1) 0 (length rows) (omega arith)
            (record {
              ordered = omega arith;
              inside = omega arith;
              below = λ i r p l. absurd (omega arith);
              above = λ i r p l. absurd (omega (arith, get_elem?-lt rows i r p));
            }) in
        (
          decide_match ((t - length key) * 8) (packed t key)
              (masked ((t - length key) * 8) (packed t key)) (get_elem? rows low)
              (get_elem? rows (low + 1)),
          lookup-short t rows key low short filled e,
          λ v.
              let d =
                decide_match_iff ((t - length key) * 8) (packed t key) rows built.sorted low splits
                  (masked-packed t key text short) v in
              (
                λ q. Resolves→Chosen t arr rows texts built key text short v (d.0 q),
                λ c. d.1 (Chosen→Resolves t arr rows texts built key text short v c),
              ),
        )
  ]
    where
      too_long : {v : V} → Chosen arr key v → t < length key → ⊥
      too_long {v} c long =
          let (p, i) = built.of c.name v c.at in
          omega (arith, p.short, IsPrefix-length key c.name c.prefix)

  -- On a table that `intlookup!` built from C strings, the lookup of a key that is not empty returns,
  -- and it finds a value exactly if the key names an entry, or is a prefix of one entry's name only:
  -- that entry's value.
  pub lookup_iff :
      (arr : List (Bytes × V)) (table : ℕ × Rows V)
      → intlookup arr ≡ done table
      → AreTexts arr
      → (key : Bytes) → IsText key
      → 0 < length key
      → (o : Option V) × (lookup table.0 table.1 key ≡ done o)
        × ((v : V) → (o ≡ some v) ↔ Chosen arr key v)
  unfolding intlookup
  lookup_iff arr table e texts key text filled =
      let (bits, _, e1) = >>=-eq-done (key_type_bits arr) _ e in
      let (rows, p, e2) = >>=-eq-done (new (bits / 8) arr) _ e1 in
      subst (λ (t : ℕ × Rows V). Answers arr key (lookup t.0 t.1 key)) (done-injective e2)
        (lookup-new (bits / 8) arr rows texts (new-Built (bits / 8) arr rows p) key text filled)
