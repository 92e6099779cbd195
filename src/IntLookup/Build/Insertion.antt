-- ===== src/IntLookup/Build/Insertion.antt =====
-- intlookup.rs: the in-place insertion sort of the rows, as insertion into a descending list.
use l_builtin.Base.{
  ℕ, suc, ◌+◌, ◌≡◌, refl, ap, sym, ◌∙◌, [], ◌∷◌, some, length, set, get_elem?, arith, leb, ◌==◌,
  if◌then◌else◌, Bool-cases, inl, inr,
}
use l_builtin.Base.Partial.{>>=-eq-done, Partial, done, panic, ◌>>=◌}
use l_builtin.IntLookup.{sort, sort_from, Rows, insert_at}

pub panic-ne-done {ℓ} : {A : Type ℓ} {a : A} → panic ≡ done a → ⊥
panic-ne-done e = cc

pub done-injective {ℓ} : {A : Type ℓ} {a b : A} → done a ≡ done b → a ≡ b
done-injective e = cc

module _ {ℓ} {V : Type ℓ} where
  -- `xs`, turned round, in front of `acc`
  abbrev pub rev_onto : Rows V → Rows V → Rows V
  rev_onto [] acc = acc
  rev_onto (x ∷ xs) acc = rev_onto xs (x ∷ acc)

  -- insertion into the sorted part, its last row first
  unfoldable pub insert_desc : Rows V → ℕ × V → Partial (Rows V)
  insert_desc [] row = done (row ∷ [])
  insert_desc (p ∷ r) row =
      let rest = insert_desc r row >>= λ r'. done (p ∷ r') in
      if row.0 == p.0 then panic else if leb p.0 row.0 then done (row ∷ p ∷ r) else rest

  unfoldable pub insert_all : Rows V → Rows V → Partial (Rows V)
  insert_all r [] = done r
  insert_all r (x ∷ post) = insert_desc r x >>= λ r'. insert_all r' post

  get-rev_onto :
      (r acc : Rows V) (i : ℕ) → get_elem? (rev_onto r acc) (length r + i) ≡ get_elem? acc i
  get-rev_onto [] acc i = let e : 0 + i ≡ i = omega arith in rw e
  get-rev_onto (q ∷ r) acc i =
      let e : suc (length r) + i ≡ length r + suc i = omega arith in
      rw e (get-rev_onto r (q ∷ acc) (suc i))

  set-rev_onto :
      (r acc : Rows V) (i : ℕ) (y : ℕ × V)
      → set (rev_onto r acc) (length r + i) y ≡ rev_onto r (set acc i y)
  set-rev_onto [] acc i y = let e : 0 + i ≡ i = omega arith in rw e
  set-rev_onto (q ∷ r) acc i y =
      let e : suc (length r) + i ≡ length r + suc i = omega arith in
      rw e (set-rev_onto r (q ∷ acc) (suc i) y)

  -- the row at the seam
  get_seam : (r post : Rows V) (x : ℕ × V) → get_elem? (rev_onto r (x ∷ post)) (length r) ≡ some x
  get_seam r post x =
      let e : length r ≡ length r + 0 = omega arith in
      ap (get_elem? (rev_onto r (x ∷ post))) e ∙ get-rev_onto r (x ∷ post) 0

  set_seam :
      (r post : Rows V) (x y : ℕ × V)
      → set (rev_onto r (x ∷ post)) (length r) y ≡ rev_onto r (y ∷ post)
  set_seam r post x y =
      let e : length r ≡ length r + 0 = omega arith in
      ap (λ i. set (rev_onto r (x ∷ post)) i y) e ∙ set-rev_onto r (x ∷ post) 0 y

  set_behind :
      (r post : Rows V) (p x y : ℕ × V)
      → set (rev_onto r (p ∷ x ∷ post)) (suc (length r)) y ≡ rev_onto r (p ∷ y ∷ post)
  set_behind r post p x y =
      let e : suc (length r) ≡ length r + 1 = omega arith in
      ap (λ i. set (rev_onto r (p ∷ x ∷ post)) i y) e ∙ set-rev_onto r (p ∷ x ∷ post) 1 y

  -- what the rest of a run does with the sorted part
  abbrev onto : Rows V → Partial (Rows V) → Partial (Rows V)
  onto post m = m >>= λ r. done (rev_onto r post)

  onto-cons :
      (p : ℕ × V) (post : Rows V) (m : Partial (Rows V))
      → onto post (m >>= λ r. done (p ∷ r)) ≡ onto (p ∷ post) m
  onto-cons p post (done r) = refl
  onto-cons p post panic = refl

  -- The inner loop, at the end of the sorted part `r`, inserts the row into it.
  insert_at-insert_desc :
      (r post : Rows V) (x row : ℕ × V)
      → insert_at (length r) (rev_onto r (x ∷ post)) row ≡ onto post (insert_desc r row)
  unfolding insert_at insert_desc
  insert_at-insert_desc [] post x row = refl
  insert_at-insert_desc (p ∷ r) post x row =
      rw (get_seam r (x ∷ post) p, set_behind r post p x p, set_behind r post p x row)
        (branch (insert_at-insert_desc r (p ∷ post) p row) (onto-cons p post (insert_desc r row)))
    where
      branch :
          insert_at (length r) (rev_onto r (p ∷ p ∷ post)) row ≡ onto (p ∷ post) (insert_desc r row)
          → onto post (insert_desc r row >>= λ r'. done (p ∷ r'))
            ≡ onto (p ∷ post) (insert_desc r row)
          → (if row.0 == p.0
              then panic
              else if leb p.0 row.0
              then done (rev_onto r (p ∷ row ∷ post))
              else insert_at (length r) (rev_onto r (p ∷ p ∷ post)) row)
            ≡ onto post (
                if row.0 == p.0
                then panic
                else if leb p.0 row.0
                then done (row ∷ p ∷ r)
                else (insert_desc r row >>= λ r'. done (p ∷ r')))
      branch ih step = elim (Bool-cases (row.0 == p.0)) [
        | inl same ↦ rw same
        | inr other ↦ elim (Bool-cases (leb p.0 row.0)) [
          | inl stop ↦ rw (other, stop)
          | inr on ↦ rw (other, on) (ih ∙ sym step)
        ]
      ]

  length-insert_desc :
      (r : Rows V) (row : ℕ × V) (r' : Rows V)
      → insert_desc r row ≡ done r'
      → length r' ≡ suc (length r)
  unfolding insert_desc
  length-insert_desc [] row r' e = ground arith
  length-insert_desc (p ∷ r) row r' e = elim (Bool-cases (row.0 == p.0)) [
    | inl same ↦ absurd (panic-ne-done (rw same at e))
    | inr other ↦ elim (Bool-cases (leb p.0 row.0)) [
      | inl stop ↦ ap length (sym (done-injective (rw (other, stop) at e)))
      | inr on ↦
          let (s, q, w) = >>=-eq-done (insert_desc r row) _ (rw (other, on) at e) in
          ap length (sym (done-injective w)) ∙ ap suc (length-insert_desc r row s q)
    ]
  ]

  -- The outer loop inserts the rows that are left, one after the other.
  sort_from-insert_all :
      (post r : Rows V)
      → sort_from (length post) (length r) (rev_onto r post) ≡ onto [] (insert_all r post)
  unfolding sort_from insert_all
  sort_from-insert_all [] r = refl
  sort_from-insert_all (x ∷ post) r =
      rw (get_seam r post x, insert_at-insert_desc r post x x)
        (round (insert_desc r x) refl (λ r'. sort_from-insert_all post r'))
    where
      round :
          (m : Partial (Rows V))
          → insert_desc r x ≡ m
          → ((r' : Rows V)
              → sort_from (length post) (length r') (rev_onto r' post)
                ≡ onto [] (insert_all r' post))
          → (onto post m >>= λ rows'. sort_from (length post) (length r + 1) rows')
            ≡ onto [] (m >>= λ r'. insert_all r' post)
      round panic e ih = refl
      round (done r') e ih =
          let n : length r + 1 ≡ length r' = omega (arith, length-insert_desc r x r' e) in
          rw n (ih r')

  -- `sort` is insertion into an empty list, turned round.
  pub sort-insert_all : (rows : Rows V) → sort rows ≡ onto [] (insert_all [] rows)
  unfolding sort
  sort-insert_all rows = sort_from-insert_all rows []
