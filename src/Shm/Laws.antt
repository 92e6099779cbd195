-- ===== src/Shm/Laws.antt =====
-- What l_builtin/src/cmd_shm.rs relies on of bash and of the database, and maps whose keys occur once.
use l_builtin.Base.{
  Option, ℕ, ◌≡◌, refl, sym, ap, ◌∙◌, inl, inr, none, some, [], ◌∷◌, Bytes, ok, if◌then◌else◌,
}
use l_builtin.Base.Assoc.{Assoc, Key, bytes_key, bytes_eq, get, put, get-put, same-cases, same_flip}
use l_builtin.Base.Hoare.{Gives}
use l_builtin.VarDb.{DatabaseRepr, int_key}
use l_builtin.Shm.Tables.{BashTableLaws, IsMap, collect}
use l_builtin.Shm.State.{Bash, Store, Shell, Variable}
use l_builtin.Shm.Callbacks.{set_if}

module _ {ℓ} {K : Type 0} {V : Type ℓ} ⦃e : Key K⦄ where
  pub IsMap-put : (m : Assoc K V) (k : K) (v : V) → IsMap m → IsMap (put m k v)
  unfolding get put
  IsMap-put [] k v h = (refl, tt)
  IsMap-put ((j, w) ∷ m) k v (once, h) = elim (same-cases j k) [
    | inl (q, p) ↦ rw p (ap (get m) (sym q) ∙ once, h)
    | inr p ↦ rw p (get-put m k j v ∙ rw (same_flip j k p) once, IsMap-put m k v h)
  ]

pub IsMap-collect :
    {K : Type 0} ⦃e : Key K⦄ (m existing : Assoc K Bytes)
    → IsMap existing
    → IsMap (collect m existing)
unfolding collect
IsMap-collect [] existing h = h
IsMap-collect ((k, v) ∷ m) existing h =
    IsMap-collect m (put existing k v) (IsMap-put existing k v h)

-- The arrays and the variables of bash: a change through a pointer is seen under the name, a variable
-- that was unbound is gone, and what is prepared is empty and has no callbacks.
pub record BashLaws {B : Type 0} (bash : Bash B) : Type 0 where
  pub arrays_hold : BashTableLaws bash.arrays
  pub hashes_hold : BashTableLaws bash.hashes
  pub cell_of_set :
      (b : B) (name other : Bytes) (cell : Variable bash.arrays.Table bash.hashes.Table)
      → bash.cell_of (bash.set_cell b name cell) other
        ≡ (if bytes_eq name other then some cell else bash.cell_of b other)
  pub cell_of_unbound :
      (b : B) (name other : Bytes)
      → bash.cell_of (bash.l_unbind_variable name b) other
        ≡ (if bytes_eq name other then none else bash.cell_of b other)
  pub indexed_prepared :
      (b after : B) (name : Bytes)
      → bash.l_prepare_indexed_array name b ≡ some after
      → bash.cell_of after name ≡ some (Variable.indexed bash.arrays.fresh)
  pub associative_prepared :
      (b after : B) (name : Bytes)
      → bash.l_prepare_assoc_array name b ≡ some after
      → bash.cell_of after name ≡ some (Variable.associative bash.hashes.fresh)

-- A database that holds its variables: a read returns them, and a write whose result it can store
-- leaves what the change made of them.
pub record StoreLaws {World : Type 0} (store : Store World) : Type 1 where
  pub Holds : ℕ → DatabaseRepr → World → Type 0
  pub CanStore : DatabaseRepr → Type 0
  pub reads :
      (db : ℕ) (repr : DatabaseRepr)
      → Gives (Holds db repr) (store.read db) (ok repr) (Holds db repr)
  pub writes :
      (db : ℕ) (repr : DatabaseRepr) (f : DatabaseRepr → DatabaseRepr)
      → CanStore (f repr)
      → Gives (Holds db repr) (store.with_write db f) (ok tt) (Holds db (f repr))

-- What a change of a variable leaves alone
module _ {B World : Type 0} (bash : Bash B) (store : Store World) (name : Bytes)
    (s : Shell B World) where
  pub set_if-rest :
      (cell : Option (Variable bash.arrays.Table bash.hashes.Table))
      → ((set_if bash store name cell s).world ≡ s.world)
        × ((set_if bash store name cell s).registry ≡ s.registry)
  set_if-rest none = (refl, refl)
  set_if-rest (some cell) = (refl, refl)
