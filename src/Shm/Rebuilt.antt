-- ===== src/Shm/Rebuilt.antt =====
-- l_builtin/src/cmd_shm.rs: after a getter the array of bash holds what the database does.
use l_builtin.Base.{
  ◌≡◌, refl, sym, ap, ◌∙◌, inl, inr, Option, none, some, [], ◌∷◌, Bytes, if◌then◌else◌, Bool-cases,
  Option-cases,
}
use l_builtin.Base.Assoc.{
  Assoc, Key, get, put, remove, get-put, get-remove, bytes_eq, bytes_eq_iff, same-cases,
}
use l_builtin.Shm.Tables.{
  BashTable, BashTableLaws, IsMap, differs, collect, update_entries, delete_entries, rebuild,
  insert_entries,
}

-- The first of two answers that is there
abbrev pub or_else : Option Bytes → Option Bytes → Option Bytes
or_else (some v) other = some v
or_else none other = other

-- The second answer, unless the first is there
abbrev unless : Option Bytes → Option Bytes → Option Bytes
unless (some v) other = none
unless none other = other

pub or_else-none : (o : Option Bytes) → or_else o none ≡ o
or_else-none none = refl
or_else-none (some v) = refl

unless-none : (o : Option Bytes) → unless o none ≡ none
unless-none none = refl
unless-none (some v) = refl

unless_same :
    (found current : Option Bytes) → unless (unless found current) (or_else found current) ≡ found
unless_same none none = refl
unless_same none (some v) = refl
unless_same (some w) current = refl

module _ {K : Type 0} ⦃e : Key K⦄ where
  pub get-collect :
      (m existing : Assoc K Bytes) (k : K)
      → IsMap m
      → get (collect m existing) k ≡ or_else (get m k) (get existing k)
  unfolding get collect
  get-collect [] existing k h = refl
  get-collect ((j, v) ∷ m) existing k (once, h) = elim (same-cases j k) [
    | inl (q, p) ↦
        let fresh : get m k ≡ none = ap (get m) (sym q) ∙ once in
        get-collect m (put existing j v) k h ∙ rw (fresh, get-put existing j k v, p) refl
    | inr p ↦ get-collect m (put existing j v) k h ∙ rw (get-put existing j k v, p) refl
  ]

  module _ (table : BashTable K) (laws : BashTableLaws table) where
    -- What is collected from the array is still in it.
    Current : Assoc K Bytes → table.Table → Type 0
    Current existing t =
        (j : K) (v : Bytes) → get existing j ≡ some v → get (table.entries t) j ≡ some v

    abbrev stepped : Assoc K Bytes → table.Table → K → Bytes → table.Table
    stepped existing t k v = if differs (get existing k) v then table.insert t k v else t

    get-stepped :
        (existing : Assoc K Bytes) (t : table.Table) (k j : K) (v : Bytes)
        → Current existing t
        → get (table.entries (stepped existing t k v)) j
          ≡ (if e.same k j then some v else get (table.entries t) j)
    unfolding Current
    get-stepped existing t k j v current = elim (Option-cases (get existing k)) [
      | inl gone ↦ rw gone (laws.after_insert t k j v)
      | inr (old, there) ↦ elim (Bool-cases (bytes_eq old v)) [
        | inr p ↦ rw (there, p) (laws.after_insert t k j v)
        | inl p ↦
            rw (there, p)
              (elim (same-cases k j) [
                | inr q ↦ rw q refl
                | inl (q, r) ↦ rw r (
                    ap (get (table.entries t)) (sym q)
                    ∙ current k old there
                    ∙ ap some ((bytes_eq_iff old v).0 p))
              ])
      ]
    ]

    Current-after :
        (existing : Assoc K Bytes) (t : table.Table) (k : K) (v : Bytes)
        → Current existing t
        → Current (remove existing k) (stepped existing t k v)
    unfolding Current
    Current-after existing t k v current j w h = elim (Bool-cases (e.same k j)) [
      | inl p ↦
          let gone : get (remove existing k) j ≡ none = get-remove existing k j ∙ rw p refl in
          absurd (no_some w (sym gone ∙ h))
      | inr p ↦
          let same : get (remove existing k) j ≡ get existing j =
            get-remove existing k j ∙ rw p refl in
          let kept = sym same ∙ h in get-stepped existing t k j v current ∙ rw p (current j w kept)
    ]
      where
        no_some : (v : Bytes) → none ≡ some v → ⊥
        no_some v h = cc

    get-update_entries :
        (m existing : Assoc K Bytes) (t : table.Table) (k : K)
        → IsMap m
        → Current existing t
        → (get (update_entries table m existing t).0 k ≡ unless (get m k) (get existing k))
          × (get (table.entries (update_entries table m existing t).1) k
              ≡ or_else (get m k) (get (table.entries t) k))
    unfolding get update_entries
    get-update_entries [] existing t k h current = (refl, refl)
    get-update_entries ((j, v) ∷ m) existing t k (once, h) current =
        let r =
          get-update_entries m (remove existing j) (stepped existing t j v) k h
            (Current-after existing t j v current) in
        let gone = get-remove existing j k in
        let put_in = get-stepped existing t j k v current in
        elim (same-cases j k) [
          | inl (q, p) ↦
              let fresh : get m k ≡ none = ap (get m) (sym q) ∙ once in
              rw p (r.0 ∙ rw (fresh, gone, p) refl, r.1 ∙ rw (fresh, put_in, p) refl)
          | inr p ↦ rw p (r.0 ∙ rw (gone, p) refl, r.1 ∙ rw (put_in, p) refl)
        ]

    get-delete_entries :
        (m : Assoc K Bytes) (t : table.Table) (k : K)
        → get (table.entries (delete_entries table m t)) k
          ≡ unless (get m k) (get (table.entries t) k)
    unfolding get delete_entries
    get-delete_entries [] t k = refl
    get-delete_entries ((j, v) ∷ m) t k = elim (Bool-cases (e.same j k)) [
      | inl p ↦
          get-delete_entries m (table.delete t j) k
          ∙ rw (laws.after_delete t j k, p) (unless-none (get m k))
      | inr p ↦ get-delete_entries m (table.delete t j) k ∙ rw (laws.after_delete t j k, p) refl
    ]

    Current-first : (t : table.Table) → Current (collect (table.entries t) []) t
    unfolding Current get
    Current-first t j v h =
        sym (or_else-none (get (table.entries t) j))
        ∙ sym (get-collect (table.entries t) [] j (laws.each_once t))
        ∙ h

    -- After the getter's loop, each key has what the database says, and no other key is left. The
    -- database's map and the arrays have each key once.
    pub get-rebuild :
        (m : Assoc K Bytes) (t : table.Table) (k : K)
        → IsMap m
        → get (table.entries (rebuild table m t)) k ≡ get m k
    unfolding rebuild get
    get-rebuild m t k h =
        let existing = collect (table.entries t) [] in
        let collected = get-collect (table.entries t) [] k (laws.each_once t) in
        let found : get existing k ≡ get (table.entries t) k =
          collected ∙ or_else-none (get (table.entries t) k) in
        let r = get-update_entries m existing t k h (Current-first t) in
        let last =
          get-delete_entries (update_entries table m existing t).0
            (update_entries table m existing t).1 k in
        last ∙ rw (r.0, r.1, found) (unless_same (get m k) (get (table.entries t) k))

    get-insert_entries :
        (m : Assoc K Bytes) (t : table.Table) (k : K)
        → IsMap m
        → get (table.entries (insert_entries table m t)) k
          ≡ or_else (get m k) (get (table.entries t) k)
    unfolding get insert_entries
    get-insert_entries [] t k h = refl
    get-insert_entries ((j, v) ∷ m) t k (once, h) = elim (same-cases j k) [
      | inl (q, p) ↦
          let fresh : get m k ≡ none = ap (get m) (sym q) ∙ once in
          rw p (
            get-insert_entries m (table.insert t j v) k h
            ∙ rw (fresh, laws.after_insert t j k v, p) refl)
      | inr p ↦
          rw p
            (get-insert_entries m (table.insert t j v) k h ∙ rw (laws.after_insert t j k v, p) refl)
    ]

    pub get-fresh :
        (m : Assoc K Bytes) (k : K)
        → IsMap m
        → get (table.entries (insert_entries table m table.fresh)) k ≡ get m k
    unfolding get
    get-fresh m k h =
        get-insert_entries m table.fresh k h ∙ rw laws.no_entries (or_else-none (get m k))
