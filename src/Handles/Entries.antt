-- ===== src/Handles/Entries.antt =====
-- How often a pointer stands in a registry (l_builtin/src/handles.rs) whose ids are distinct and
-- below the next one.
use l_builtin.Base.{
  ==_refl, ==_iff, sym, ap, ◌∙◌, ℕ, ◌≡◌, ◌<◌, ◌+◌, List, [], ◌∷◌, none, some, map, arith, true,
  false, if◌then◌else◌, refl, Bool-cases, inl, inr, ◌==◌,
}
use l_builtin.Base.Assoc.{id_key, Assoc, get, put, remove, get-put, get-remove}
use l_builtin.Handles.{Registry, HandleEntry}

abbrev pub at : ℕ → ℕ → ℕ
at p q = if p == q then 1 else 0

pub here_is_one : (p more n : ℕ) → n ≡ at p p + more → 0 < n
here_is_one p more n e = ground (arith, ==_refl p)

abbrev pub occurrences : ℕ → List ℕ → ℕ
occurrences q [] = 0
occurrences q (p ∷ ps) = at p q + occurrences q ps

abbrev pub Entries : Type 0
Entries = Assoc ℕ HandleEntry

abbrev pub pointers_of : Entries → List ℕ
pointers_of m = map (λ entry. entry.1.ptr) m

-- Each id stands once, and below the bound.
unfoldable pub Distinct : ℕ → Entries → Type 0
Distinct n [] = Unit {0}
Distinct n ((j, v) ∷ m) = (j < n) × (get m j ≡ none) × Distinct n m

abbrev pub IsRegistry : Registry → Type 0
IsRegistry inner = Distinct inner.next inner.entries

pub get-fresh : (n : ℕ) (m : Entries) → Distinct n m → get m n ≡ none
unfolding Distinct get
get-fresh n [] d = refl
get-fresh n ((j, v) ∷ m) (below, once, rest) =
    let other : (j == n) ≡ false = ground arith in rw (other, get-fresh n m rest) refl

pub Distinct-wider : (n : ℕ) (m : Entries) → Distinct n m → Distinct (n + 1) m
unfolding Distinct
Distinct-wider n [] d = tt
Distinct-wider n ((j, v) ∷ m) (below, once, rest) = (omega arith, once, Distinct-wider n m rest)

none_if_other :
    (j k : ℕ) (v : HandleEntry) (m : Entries)
    → get ((j, v) ∷ m) k ≡ none
    → ((j == k) ≡ false) × (get m k ≡ none)
unfolding get
none_if_other j k v m h = ground arith

apart : (j k : ℕ) → (j == k) ≡ false → (k == j) ≡ false
apart j k h = ground arith

found_behind :
    (j k : ℕ) (w v : HandleEntry) (m : Entries)
    → (j == k) ≡ false
    → get ((j, w) ∷ m) k ≡ some v
    → get m k ≡ some v
unfolding get
found_behind j k w v m e h = rw (sym h, e) refl

found_here :
    (j k : ℕ) (w v : HandleEntry) (m : Entries)
    → (j == k) ≡ true
    → get ((j, w) ∷ m) k ≡ some v
    → w ≡ v
unfolding get
found_here j k w v m e h = cc

pub occurrences-put :
    (m : Entries) (k q : ℕ) (v : HandleEntry)
    → get m k ≡ none
    → occurrences q (pointers_of (put m k v)) ≡ occurrences q (pointers_of m) + at v.ptr q
unfolding put
occurrences-put [] k q v absent = omega arith
occurrences-put ((j, w) ∷ m) k q v absent =
    let a = none_if_other j k w m absent in
    rw (a.0) (let ih = occurrences-put m k q v a.1 in omega arith)

pub Distinct-put :
    (m : Entries) (n k : ℕ) (v : HandleEntry)
    → k < n
    → get m k ≡ none
    → Distinct n m
    → Distinct n (put m k v)
unfolding put Distinct get
Distinct-put [] n k v below absent d = (below, refl, tt)
Distinct-put ((j, w) ∷ m) n k v below absent (low, once, rest) =
    let a = none_if_other j k w m absent in
    rw (a.0) (
      low,
      get-put m k j v ∙ ap (λ b. if b then some v else get m j) (apart j k a.0) ∙ once,
      Distinct-put m n k v below a.1 rest,
    )

pub remove-absent : (m : Entries) (k : ℕ) → get m k ≡ none → remove m k ≡ m
unfolding remove
remove-absent [] k absent = refl
remove-absent ((j, w) ∷ m) k absent =
    let a = none_if_other j k w m absent in rw (a.0) (ap (λ t. (j, w) ∷ t) (remove-absent m k a.1))

pub occurrences-remove :
    (m : Entries) (n k q : ℕ) (v : HandleEntry)
    → Distinct n m
    → get m k ≡ some v
    → occurrences q (pointers_of (remove m k)) + at v.ptr q ≡ occurrences q (pointers_of m)
unfolding get remove Distinct
occurrences-remove [] n k q v d found = cc
occurrences-remove ((j, w) ∷ m) n k q v (low, once, rest) found = elim (Bool-cases (j == k)) [
  | inl e ↦
      let same_ptr = ap (λ x. x.ptr) (found_here j k w v m e found) in
      let gone = remove-absent m k (ap (get m) (sym ((==_iff j k).0 e)) ∙ once) in
      rw (e, gone, same_ptr) (omega arith)
  | inr e ↦
      rw e
        (let ih = occurrences-remove m n k q v rest (found_behind j k w v m e found) in omega arith)
]

pub Distinct-remove : (m : Entries) (n k : ℕ) → Distinct n m → Distinct n (remove m k)
unfolding remove Distinct
Distinct-remove [] n k d = tt
Distinct-remove ((j, w) ∷ m) n k (low, once, rest) = elim (Bool-cases (j == k)) [
  | inl e ↦ rw e (Distinct-remove m n k rest)
  | inr e ↦ rw e (
    low,
    get-remove m k j ∙ ap (λ b. if b then none else get m j) (apart j k e) ∙ once,
    Distinct-remove m n k rest,
  )
]
