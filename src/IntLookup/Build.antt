-- ===== src/IntLookup/Build.antt =====
-- intlookup.rs: what `new` builds: the packed names, sorted.
pub mod Insertion
pub mod Order
use l_builtin.Base.{
  true, ℕ, zero, suc, ◌-◌, ◌*◌, ◌≤◌, ◌<◌, ◌≡◌, ◌↔◌, ◌⊎◌, refl, ap, sym, ◌∙◌, inl, inr, List, [],
  ◌∷◌, Bytes, In, length, arith, leb, ltb, ◌==◌, not, Bool-cases,
}
use mathlib.Core.Path.{subst}
use l_builtin.IntLookup.Build.Insertion.{done-injective}
use l_builtin.IntLookup.Build.Order.{sort_correct}
use l_builtin.Base.Partial.{Partial, done, panic, ◌>>=◌, >>=-eq-done, assert, assert-eq-done}
use l_builtin.IntLookup.{
  Rows, keys_max_bits, min_required_len, pack, pack_rows, sort, new, intlookup,
}
use l_builtin.IntLookup.Sorted.{IsSorted}
use l_builtin.IntLookup.Pack.{pack_lem}
use l_builtin.IntLookup.Prefix.{packed}

-- A key that is packed has a length from 1 to the size of the integer.
pub record Packs (t : ℕ) (name : Bytes) (key : ℕ) : Type 0 where
  pub short : length name ≤ t
  pub filled : 0 < length name
  pub value : key ≡ packed t name

pub pack-done : (t : ℕ) (name : Bytes) (key : ℕ) → pack t name ≡ done key → Packs t name key
unfolding pack
pack-done t name key e =
    let (u, long, e') = >>=-eq-done (assert (leb (length name) t)) _ e in
    let (u', nonempty, e'') = >>=-eq-done (assert (not (length name == 0))) _ e' in
    let short : length name ≤ t = fits (assert-eq-done _ long) in
    let filled : 0 < length name = full (length name) (assert-eq-done _ nonempty) in
    record {
      short = short;
      filled = filled;
      value = same (e ∙ refl) (pack_lem t name short filled);
    }
  where
    fits : leb (length name) t ≡ true → length name ≤ t
    fits h = ground arith

    full : (n : ℕ) → not (n == 0) ≡ true → 0 < n
    full n h = ground arith

    same : {a b : ℕ} {m : Partial ℕ} → m ≡ done a → m ≡ done b → a ≡ b
    same p q = cc

module _ {ℓ} {V : Type ℓ} (t : ℕ) where
  -- the rows before they are sorted
  pub pack_rows-only :
      (arr : List (Bytes × V)) (rows : Rows V)
      → pack_rows t arr ≡ done rows
      → (key : ℕ) (v : V) → In (key, v) rows
      → (name : Bytes) × In (name, v) arr × Packs t name key
  unfolding pack_rows
  pack_rows-only [] rows e key v i = elim (subst (In (key, v)) (sym (done-injective e)) i) [ ]
  pack_rows-only ((n, w) ∷ arr) rows e key v i =
      let (k, p, e') = >>=-eq-done (pack t n) _ e in
      let (rows', q, e'') = >>=-eq-done (pack_rows t arr) _ e' in
      split k p rows' (pack_rows-only arr rows' q key v)
        (subst (In (key, v)) (sym (done-injective e'')) i)
    where
      split :
          (k : ℕ)
          → pack t n ≡ done k
          → (rows' : Rows V)
          → (In (key, v) rows' → (name : Bytes) × In (name, v) arr × Packs t name key)
          → In (key, v) ((k, w) ∷ rows')
          → (name : Bytes) × In (name, v) ((n, w) ∷ arr) × Packs t name key
      split k p rows' ih (inl h) =
          let first : k ≡ key = ap (λ (r : ℕ × V). r.0) (sym h) in
          let second : v ≡ w = ap (λ (r : ℕ × V). r.1) h in
          (n, inl (ap (λ x. (n, x)) second), pack-done t n key (rw first at p))
      split k p rows' ih (inr j) = let (name, a, b) = ih j in (name, inr a, b)

  pub pack_rows-of :
      (arr : List (Bytes × V)) (rows : Rows V)
      → pack_rows t arr ≡ done rows
      → (name : Bytes) (v : V) → In (name, v) arr
      → Packs t name (packed t name) × In (packed t name, v) rows
  unfolding pack_rows
  pack_rows-of [] rows e name v i = elim i [ ]
  pack_rows-of ((n, w) ∷ arr) rows e name v i =
      let (k, p, e') = >>=-eq-done (pack t n) _ e in
      let (rows', q, e'') = >>=-eq-done (pack_rows t arr) _ e' in
      subst (λ r. Packs t name (packed t name) × In (packed t name, v) r) (done-injective e'')
        (split k (pack-done t n k p) rows' (pack_rows-of arr rows' q name v) i)
    where
      split :
          (k : ℕ)
          → Packs t n k
          → (rows' : Rows V)
          → (In (name, v) arr → Packs t name (packed t name) × In (packed t name, v) rows')
          → In (name, v) ((n, w) ∷ arr)
          → Packs t name (packed t name) × In (packed t name, v) ((k, w) ∷ rows')
      split k p rows' ih (inl h) =
          let first : name ≡ n = ap (λ (r : Bytes × V). r.0) h in
          let second : v ≡ w = ap (λ (r : Bytes × V). r.1) h in
          rw (first, second)
            (
              record { short = p.short; filled = p.filled; value = refl },
              inl (ap (λ x. (x, w)) (sym p.value)),
            )
      split k p rows' ih (inr j) = let (a, b) = ih j in (a, inr b)

  -- `new`, where it does not panic: a table of strictly ascending keys, which are the packed names.
  pub record Built (arr : List (Bytes × V)) (rows : Rows V) : Type ℓ where
    pub sorted : IsSorted rows
    pub only :
        (key : ℕ) (v : V) → In (key, v) rows → (name : Bytes) × In (name, v) arr × Packs t name key
    pub of :
        (name : Bytes) (v : V)
        → In (name, v) arr
        → Packs t name (packed t name) × In (packed t name, v) rows

  pub new-Built : (arr : List (Bytes × V)) (rows : Rows V) → new t arr ≡ done rows → Built arr rows
  unfolding new
  new-Built arr rows e =
      let (n, _, e1) = >>=-eq-done (keys_max_bits arr) _ e in
      let (_, _, e2) = >>=-eq-done (assert (leb n t)) _ e1 in
      let (_, _, e3) = >>=-eq-done (assert (leb (min_required_len t) n)) _ e2 in
      let (rows', p, e4) = >>=-eq-done (pack_rows t arr) _ e3 in
      let (sorted, kept) = sort_correct rows' rows e4 in
      record {
        sorted = sorted;
        only = λ key v i. pack_rows-only arr rows' p key v ((kept (key, v)).0 i);
        of = λ name v i.
            let (a, b) = pack_rows-of arr rows' p name v i in (a, (kept (packed t name, v)).1 b);
      }
