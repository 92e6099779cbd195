-- ===== src/Base/Assoc.antt =====
-- `HashMap` as a list of entries, each key once; the order of the entries is that of an iteration.
use l_builtin.Base.{◌⊎◌}
use Prim.Native.Nat.{ℕ}
use mathlib.Core.Path.{◌≡◌, refl, ap, sym, ◌∙◌}
use mathlib.Core.Logic.{◌⊎◌, ◌↔◌, inl, inr}
use mathlib.Core.Bool.{Bool, true, false, ◌&&◌}
use mathlib.Core.Option.{Option, none, some}
use mathlib.Core.List.{List, [], ◌∷◌}
use native.Mathlib.Omega.{arith}
use l_builtin.Base.Tests.{◌==◌, ==_iff, if◌then◌else◌, Bool-cases}
use l_builtin.Base.Lists.{Bytes}

-- Keys with a Boolean equality.
pub record Key (K : Type 0) : Type 0 where
  pub same : K → K → Bool
  pub same_iff : (a b : K) → (same a b ≡ true) ↔ (a ≡ b)

instance abbrev pub id_key : Key ℕ
id_key = record { same = ◌==◌; same_iff = ==_iff }

abbrev pub bytes_eq : Bytes → Bytes → Bool
bytes_eq [] [] = true
bytes_eq [] (c ∷ t) = false
bytes_eq (b ∷ s) [] = false
bytes_eq (b ∷ s) (c ∷ t) = b == c && bytes_eq s t

bytes_eq-only : (s t : Bytes) → bytes_eq s t ≡ true → s ≡ t
bytes_eq-only [] [] h = refl
bytes_eq-only [] (c ∷ t) h = cc
bytes_eq-only (b ∷ s) [] h = cc
bytes_eq-only (b ∷ s) (c ∷ t) h = ground (arith, bytes_eq-only s t)

bytes_eq_refl : (s : Bytes) → bytes_eq s s ≡ true
bytes_eq_refl [] = refl
bytes_eq_refl (b ∷ s) = ground (arith, bytes_eq_refl s)

pub bytes_eq_iff : (s t : Bytes) → (bytes_eq s t ≡ true) ↔ (s ≡ t)
bytes_eq_iff s t = (bytes_eq-only s t, λ e. ap (bytes_eq s) (sym e) ∙ bytes_eq_refl s)

instance abbrev pub bytes_key : Key Bytes
bytes_key = record { same = bytes_eq; same_iff = bytes_eq_iff }

abbrev pub Assoc {ℓ} : Type 0 → Type ℓ → Type ℓ
Assoc K V = List (K × V)

module _ {K : Type 0} ⦃e : Key K⦄ where
  pub same_refl : (k : K) → e.same k k ≡ true
  same_refl k = (e.same_iff k k).1 refl

  -- The key that an entry has is the one looked for, or it is not.
  pub same-cases : (j k : K) → ((j ≡ k) × (e.same j k ≡ true)) ⊎ (e.same j k ≡ false)
  same-cases j k = elim (Bool-cases (e.same j k)) [
    | inl p ↦ inl ((e.same_iff j k).0 p, p)
    | inr p ↦ inr p
  ]

  pub same_flip : (j k : K) → e.same j k ≡ false → e.same k j ≡ false
  same_flip j k p = elim (same-cases k j) [
    | inl (q, h) ↦ absurd (clash (sym p ∙ ap (e.same j) q ∙ same_refl j))
    | inr h ↦ h
  ]
    where
      clash : false ≡ true → ⊥
      clash h = cc

module _ {ℓ} {K : Type 0} {V : Type ℓ} ⦃e : Key K⦄ where
  unfoldable pub get : Assoc K V → K → Option V
  get [] k = none
  get ((j, v) ∷ m) k = if e.same j k then some v else get m k

  -- `insert`: the value of a key that is there is replaced
  unfoldable pub put : Assoc K V → K → V → Assoc K V
  put [] k v = (k, v) ∷ []
  put ((j, w) ∷ m) k v = let rest = put m k v in if e.same j k then (k, v) ∷ m else (j, w) ∷ rest

  unfoldable pub remove : Assoc K V → K → Assoc K V
  remove [] k = []
  remove ((j, v) ∷ m) k = let rest = remove m k in if e.same j k then rest else (j, v) ∷ rest

  pub get-put :
      (m : Assoc K V) (k j : K) (v : V)
      → get (put m k v) j ≡ (if e.same k j then some v else get m j)
  unfolding get put
  get-put [] k j v = refl
  get-put ((i, w) ∷ m) k j v = elim (Bool-cases (e.same i k)) [
    | inl p ↦
        let q = (e.same_iff i k).0 p in
        rw p (elim (Bool-cases (e.same k j)) [
          | inl r ↦ rw r
          | inr r ↦ let n : e.same i j ≡ false = ap (λ x. e.same x j) q ∙ r in rw (r, n)
        ])
    | inr p ↦ rw p (elim (Bool-cases (e.same i j)) [
      | inl r ↦
          let n : e.same k j ≡ false =
            ap (e.same k) (sym ((e.same_iff i j).0 r)) ∙ same_flip i k p in
          rw (r, n)
      | inr r ↦ rw (r, get-put m k j v)
    ])
  ]

  pub get-remove :
      (m : Assoc K V) (k j : K) → get (remove m k) j ≡ (if e.same k j then none else get m j)
  unfolding get remove
  get-remove [] k j = elim (Bool-cases (e.same k j)) [ inl r ↦ rw r | inr r ↦ rw r ]
  get-remove ((i, w) ∷ m) k j = elim (same-cases i k) [
    | inl (q, p) ↦
        rw (p, get-remove m k j)
          (elim (Bool-cases (e.same k j)) [
            | inl r ↦ rw r
            | inr r ↦ let n : e.same i j ≡ false = ap (λ x. e.same x j) q ∙ r in rw (r, n)
          ])
    | inr p ↦ rw p (elim (Bool-cases (e.same i j)) [
      | inl r ↦
          let n : e.same k j ≡ false =
            ap (e.same k) (sym ((e.same_iff i j).0 r)) ∙ same_flip i k p in
          rw (r, n)
      | inr r ↦ rw (r, get-remove m k j)
    ])
  ]
