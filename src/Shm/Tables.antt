-- ===== src/Shm/Tables.antt =====
-- l_builtin/src/cmd_shm.rs: a bash array and the map of the database that it shows.
use l_builtin.Base.{◌≡◌, Option, none, some, [], ◌∷◌, Bool, true, not, Bytes, if◌then◌else◌}
use l_builtin.Base.Assoc.{Assoc, Key, get, put, remove, bytes_eq}

-- An indexed or an associative array of bash, as its iterator and its insertion show it.
pub record BashTable (K : Type 0) : Type 1 where
  pub Table : Type 0
  pub fresh : Table
  pub entries : Table → Assoc K Bytes
  pub insert : Table → K → Bytes → Table
  pub delete : Table → K → Table

-- Each key once
abbrev pub IsMap {ℓ} : {K : Type 0} {V : Type ℓ} ⦃e : Key K⦄ → Assoc K V → Type ℓ
IsMap [] = Unit
IsMap ((k, v) ∷ m) = (get m k ≡ none) × IsMap m

-- What bash's arrays do.
pub record BashTableLaws {K : Type 0} ⦃e : Key K⦄ (table : BashTable K) : Type 0 where
  pub no_entries : table.entries table.fresh ≡ []
  pub each_once : (t : table.Table) → IsMap (table.entries t)
  pub after_insert :
      (t : table.Table) (k j : K) (v : Bytes)
      → get (table.entries (table.insert t k v)) j
        ≡ (if e.same k j then some v else get (table.entries t) j)
  pub after_delete :
      (t : table.Table) (k j : K)
      → get (table.entries (table.delete t k)) j
        ≡ (if e.same k j then none else get (table.entries t) j)

abbrev pub differs : Option Bytes → Bytes → Bool
differs none value = true
differs (some current) value = not (bytes_eq current value)

module _ {K : Type 0} ⦃e : Key K⦄ where
  -- The `HashMap` of what an iterator gives
  unfoldable pub collect : Assoc K Bytes → Assoc K Bytes → Assoc K Bytes
  collect [] existing = existing
  collect ((k, v) ∷ rest) existing = collect rest (put existing k v)

  module _ (table : BashTable K) where
    -- The loop over the database's entries: what is left of `existing`, and the array.
    unfoldable pub update_entries :
        Assoc K Bytes → Assoc K Bytes → table.Table → Assoc K Bytes × table.Table
    update_entries [] existing t = (existing, t)
    update_entries ((k, v) ∷ rest) existing t =
        update_entries rest (remove existing k)
          (if differs (get existing k) v then table.insert t k v else t)

    unfoldable pub delete_entries : Assoc K Bytes → table.Table → table.Table
    delete_entries [] t = t
    delete_entries ((k, v) ∷ rest) t = delete_entries rest (table.delete t k)

    -- The array made to hold the entries: `shm_array_getter` and `shm_assoc_getter`.
    unfoldable pub rebuild : Assoc K Bytes → table.Table → table.Table
    rebuild entries t =
        let r = update_entries entries (collect (table.entries t) []) t in delete_entries r.0 r.1

    -- `restore_plain_variable`
    unfoldable pub insert_entries : Assoc K Bytes → table.Table → table.Table
    insert_entries [] t = t
    insert_entries ((k, v) ∷ rest) t = insert_entries rest (table.insert t k v)
