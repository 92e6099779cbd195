-- ===== src/IntLookup/Build/Order.antt =====
-- intlookup.rs: insertion keeps the rows and their order, and fails on a key that is there already.
use l_builtin.Base.{
  false, ℕ, ◌≤◌, ◌<◌, ◌≡◌, ◌≢◌, ◌⊎◌, ◌↔◌, refl, ap, sym, ◌∙◌, [], ◌∷◌, In, arith, leb, ◌==◌,
  Bool-cases, inl, inr,
}
use mathlib.Core.Path.{subst}
use l_builtin.Base.Partial.{done, >>=-eq-done}
use l_builtin.IntLookup.{Rows, sort}
use l_builtin.IntLookup.Sorted.{Above, IsSorted}
use l_builtin.IntLookup.Build.Insertion.{
  rev_onto, insert_desc, insert_all, sort-insert_all, panic-ne-done, done-injective,
}

module _ {ℓ} {V : Type ℓ} where
  abbrev Below : ℕ → Rows V → Type 0
  Below k [] = Unit
  Below k (row ∷ rows) = (row.0 < k) × Below k rows

  abbrev IsDescending : Rows V → Type 0
  IsDescending [] = Unit
  IsDescending (row ∷ rows) = Below row.0 rows × IsDescending rows

  Below-mono : (j k : ℕ) (rows : Rows V) → Below j rows → j ≤ k → Below k rows
  Below-mono j k [] h l = tt
  Below-mono j k (r ∷ rows) h l = (omega arith, Below-mono j k rows h.1 l)

  Above-mono : (j k : ℕ) (rows : Rows V) → Above k rows → j ≤ k → Above j rows
  Above-mono j k [] h l = tt
  Above-mono j k (r ∷ rows) h l = (omega arith, Above-mono j k rows h.1 l)

  -- what an insertion that does not panic does
  record Inserted (r : Rows V) (row : ℕ × V) (r' : Rows V) : Type ℓ where
    sorted : IsDescending r'
    below : (k : ℕ) → Below k r → row.0 < k → Below k r'
    kept : (x : ℕ × V) → In x r ⊎ (x ≡ row) → In x r'
    only : (x : ℕ × V) → In x r' → In x r ⊎ (x ≡ row)

  insert_desc-Inserted :
      (r : Rows V) (row : ℕ × V) (r' : Rows V)
      → IsDescending r
      → insert_desc r row ≡ done r'
      → Inserted r row r'
  unfolding insert_desc
  insert_desc-Inserted [] row r' h e = subst (Inserted [] row) (done-injective e) (record {
    sorted = (tt, tt);
    below = λ k b l. (l, tt);
    kept = λ x i. elim i [ inl i ↦ elim i [ ] | inr q ↦ inl q ];
    only = λ x i. elim i [ inl q ↦ inr q | inr i ↦ elim i [ ] ];
  })
  insert_desc-Inserted (p ∷ r) row r' h e = elim (Bool-cases (row.0 == p.0)) [
    | inl same ↦ absurd (panic-ne-done (rw same at e))
    | inr other ↦ elim (Bool-cases (leb p.0 row.0)) [
      | inl stop ↦
          let above : p.0 < row.0 = ground arith in
          subst (Inserted (p ∷ r) row) (done-injective (rw (other, stop) at e)) (record {
            sorted = ((above, Below-mono p.0 row.0 r h.0 (omega arith)), h);
            below = λ k b l. (l, b);
            kept = λ x i. elim i [ inl i ↦ inr i | inr q ↦ inl q ];
            only = λ x i. elim i [ inl q ↦ inr q | inr i ↦ inl i ];
          })
      | inr on ↦
          let (s, q, w) = >>=-eq-done (insert_desc r row) _ (rw (other, on) at e) in
          let under : row.0 < p.0 = ground arith in
          deeper s w under (insert_desc-Inserted r row s h.1 q)
    ]
  ]
    where
      deeper :
          (s : Rows V)
          → done (p ∷ s) ≡ done r'
          → row.0 < p.0
          → Inserted r row s
          → Inserted (p ∷ r) row r'
      deeper s w under i = subst (Inserted (p ∷ r) row) (done-injective w) (record {
        sorted = (i.below p.0 h.0 under, i.sorted);
        below = λ k b l. (b.0, i.below k b.1 l);
        kept = λ x j. elim j [
          | inl j ↦ elim j [ inl q ↦ inl q | inr j ↦ inr (i.kept x (inl j)) ]
          | inr q ↦ inr (i.kept x (inr q))
        ];
        only = λ x j. elim j [
          | inl q ↦ inl (inl q)
          | inr j ↦ elim (i.only x j) [ inl j ↦ inl (inr j) | inr q ↦ inr q ]
        ];
      })

  -- no row has the key
  abbrev pub Misses : ℕ → Rows V → Type ℓ
  Misses k rows = (x : ℕ × V) → In x rows → k ≢ x.0

  abbrev pub Distinct : Rows V → Type ℓ
  Distinct [] = Unit
  Distinct (row ∷ rows) = Misses row.0 rows × Distinct rows

  -- A key that is not there yet is inserted.
  insert_desc_total :
      (r : Rows V) (row : ℕ × V) → Misses row.0 r → (r' : Rows V) × (insert_desc r row ≡ done r')
  unfolding insert_desc
  insert_desc_total [] row m = (row ∷ [], refl)
  insert_desc_total (p ∷ r) row m =
      let other : (row.0 == p.0) ≡ false = ground (arith, m p (inl refl)) in
      let (s, q) = insert_desc_total r row (λ x i. m x (inr i)) in
      elim (Bool-cases (leb p.0 row.0)) [
        | inl stop ↦ (row ∷ p ∷ r, rw (other, stop))
        | inr on ↦ (p ∷ s, rw (other, on) (rw q))
      ]

  -- what a run of insertions does
  record Merged (r post r' : Rows V) : Type ℓ where
    sorted : IsDescending r'
    kept : (x : ℕ × V) → In x r ⊎ In x post → In x r'
    only : (x : ℕ × V) → In x r' → In x r ⊎ In x post

  insert_all-Merged :
      (post r r' : Rows V) → IsDescending r → insert_all r post ≡ done r' → Merged r post r'
  unfolding insert_all
  insert_all-Merged [] r r' h e = subst (Merged r []) (done-injective e) (record {
    sorted = h;
    kept = λ x i. elim i [ inl i ↦ i | inr i ↦ elim i [ ] ];
    only = λ x i. inl i;
  })
  insert_all-Merged (y ∷ post) r r' h e =
      let (s, q, w) = >>=-eq-done (insert_desc r y) _ e in
      both s (insert_desc-Inserted r y s h q) (insert_all-Merged post s r') w
    where
      both :
          (s : Rows V)
          → Inserted r y s
          → (IsDescending s → insert_all s post ≡ done r' → Merged s post r')
          → insert_all s post ≡ done r'
          → Merged r (y ∷ post) r'
      both s i ih w =
          let m = ih i.sorted w in
          record {
            sorted = m.sorted;
            kept = λ x j. elim j [
              | inl j ↦ m.kept x (inl (i.kept x (inl j)))
              | inr j ↦ elim j [
                | inl q ↦ m.kept x (inl (i.kept x (inr q)))
                | inr j ↦ m.kept x (inr j)
              ]
            ];
            only = λ x j. elim (m.only x j) [
              | inl j ↦ elim (i.only x j) [ inl j ↦ inl j | inr q ↦ inr (inl q) ]
              | inr j ↦ inr (inr j)
            ];
          }

  insert_all_total :
      (post r : Rows V)
      → IsDescending r
      → Distinct post
      → ((x : ℕ × V) → In x post → Misses x.0 r)
      → (r' : Rows V) × (insert_all r post ≡ done r')
  unfolding insert_all
  insert_all_total [] r h d m = (r, refl)
  insert_all_total (y ∷ post) r h d m =
      let (s, q) = insert_desc_total r y (m y (inl refl)) in
      let i = insert_desc-Inserted r y s h q in
      let (r', w) = insert_all_total post s i.sorted d.1 (λ x j z k. elim (i.only z k) [
        | inl k ↦ m x (inr j) z k
        | inr e ↦ λ p. d.0 x j (sym (p ∙ ap (λ (row : ℕ × V). row.0) e))
      ]) in
      (r', rw q w)

  -- the first row of `r` is below all of `acc`
  abbrev Leads : Rows V → Rows V → Type 0
  Leads [] acc = Unit
  Leads (p ∷ r) acc = Above p.0 acc

  Leads-nil : (r : Rows V) → Leads r []
  Leads-nil [] = tt
  Leads-nil (p ∷ r) = tt

  -- turning a descending list round
  rev_onto-IsSorted :
      (r acc : Rows V) → IsDescending r → IsSorted acc → Leads r acc → IsSorted (rev_onto r acc)
  rev_onto-IsSorted [] acc d h l = h
  rev_onto-IsSorted (p ∷ []) acc d h l = (l, h)
  rev_onto-IsSorted (p ∷ q ∷ r) acc d h l =
      rev_onto-IsSorted (q ∷ r) (p ∷ acc) d.1 (l, h)
        (d.0.0, Above-mono q.0 p.0 acc l (omega (arith, d.0.0)))

  rev_onto-kept : (r acc : Rows V) (x : ℕ × V) → In x r ⊎ In x acc → In x (rev_onto r acc)
  rev_onto-kept [] acc x (inl i) = elim i [ ]
  rev_onto-kept [] acc x (inr i) = i
  rev_onto-kept (p ∷ r) acc x (inl (inl e)) = rev_onto-kept r (p ∷ acc) x (inr (inl e))
  rev_onto-kept (p ∷ r) acc x (inl (inr i)) = rev_onto-kept r (p ∷ acc) x (inl i)
  rev_onto-kept (p ∷ r) acc x (inr i) = rev_onto-kept r (p ∷ acc) x (inr (inr i))

  rev_onto-only : (r acc : Rows V) (x : ℕ × V) → In x (rev_onto r acc) → In x r ⊎ In x acc
  rev_onto-only [] acc x i = inr i
  rev_onto-only (p ∷ r) acc x i = elim (rev_onto-only r (p ∷ acc) x i) [
    | inl i ↦ inl (inr i)
    | inr i ↦ elim i [ inl e ↦ inl (inl e) | inr i ↦ inr i ]
  ]

  -- Where the sort does not panic, the rows ascend strictly by their keys, and are the rows that
  -- were there before, no more and no fewer.
  pub sort_correct :
      (rows sorted : Rows V)
      → sort rows ≡ done sorted
      → IsSorted sorted × ((x : ℕ × V) → In x sorted ↔ In x rows)
  sort_correct rows sorted e =
      let (r, q, w) = >>=-eq-done (insert_all [] rows) _ (sym (sort-insert_all rows) ∙ e) in
      let m = insert_all-Merged rows [] r tt q in
      subst (λ t. IsSorted t × ((x : ℕ × V) → In x t ↔ In x rows)) (done-injective w)
        (
          rev_onto-IsSorted r [] m.sorted tt (Leads-nil r),
          λ x. (
            λ i. elim (rev_onto-only r [] x i) [
              | inl i ↦ elim (m.only x i) [ inl i ↦ elim i [ ] | inr i ↦ i ]
              | inr i ↦ elim i [ ]
            ],
            λ i. rev_onto-kept r [] x (inl (m.kept x (inr i))),
          ),
        )

  -- The sort panics on no table whose keys are distinct.
  pub sort_total : (rows : Rows V) → Distinct rows → (sorted : Rows V) × (sort rows ≡ done sorted)
  sort_total rows d =
      let (r, q) = insert_all_total rows [] tt d (λ x i z k. elim k [ ]) in
      (rev_onto r [], sort-insert_all rows ∙ rw q)
