-- ===== src/Shm/Shown.antt =====
-- l_builtin/src/cmd_shm.rs: what one process assigns to a shared variable, another one reads.
use mathlib.Core.Path.{subst}
use l_builtin.Base.{ℕ, ◌≡◌, refl, sym, ◌∙◌, Option, none, some, Bytes, Outcome, ok, err}
use l_builtin.Base.Int.{ℤ}
use l_builtin.Base.Assoc.{Assoc, bytes_key, get, put, get-put, same_refl}
use l_builtin.Base.Hoare.{ok-injective, err-ok}
use l_builtin.VarDb.{DatabaseRepr, VarData, int_key, insert_index, as_array}
use l_builtin.Shm.Tables.{IsMap, rebuild}
use l_builtin.Shm.Rebuilt.{get-rebuild}
use l_builtin.Shm.State.{Bash, Store, Shell, Variable, on_world, back}
use l_builtin.Shm.Callbacks.{
  entries_or_empty, as_array_of, as_assoc_of, or_default, insert_index_of, on_indexed, change_array,
  array_shown, get_shm, shm_array_getter, shm_array_setter, next_index,
}
use l_builtin.Shm.Laws.{set_if-rest, IsMap-put, BashLaws, StoreLaws}

-- The indexed array, or the associative one, that the database has for a variable
abbrev pub array_in : DatabaseRepr → Bytes → Assoc ℤ Bytes
array_in repr name = entries_or_empty (as_array_of (get repr.vars name))

abbrev pub assoc_in : DatabaseRepr → Bytes → Assoc Bytes Bytes
assoc_in repr name = entries_or_empty (as_assoc_of (get repr.vars name))

array_in-insert_index_of :
    (name : Bytes) (index : ℤ) (value : Bytes) (repr : DatabaseRepr)
    → array_in (insert_index_of name index value repr) name ≡ put (array_in repr name) index value
unfolding insert_index_of insert_index as_array put
array_in-insert_index_of name index value repr =
    rw
      (
        get-put repr.vars name name (insert_index (or_default (get repr.vars name)) index value),
        same_refl name,
      )
      (go (get repr.vars name))
  where
    go :
        (old : Option VarData)
        → entries_or_empty (as_array (insert_index (or_default old) index value))
          ≡ put (entries_or_empty (as_array_of old)) index value
    go none = refl
    go (some (VarData.array m)) = refl
    go (some (VarData.assoc m)) = refl

module _ {B World : Type 0} (bash : Bash B) (store : Store World) (laws : BashLaws bash)
    (kept : StoreLaws store) where
  -- The variable of the shell holds those entries.
  abbrev pub HasArray : Shell B World → Bytes → Assoc ℤ Bytes → Type 0
  HasArray s name m =
      (t : bash.arrays.Table) × (bash.cell_of s.bash name ≡ some (Variable.indexed t))
      × ((k : ℤ) → get (bash.arrays.entries t) k ≡ get m k)

  abbrev pub IsBound : Shell B World → Bytes → ℕ → DatabaseRepr → Type 0
  IsBound s name db repr = (get s.registry name ≡ some db) × kept.Holds db repr s.world

  change_array-set :
      (name : Bytes) (f : bash.arrays.Table → bash.arrays.Table) (s : Shell B World)
      (t : bash.arrays.Table)
      → bash.cell_of s.bash name ≡ some (Variable.indexed t)
      → bash.cell_of (change_array bash store name f s).bash name ≡ some (Variable.indexed (f t))
  change_array-set name f s t h =
      rw h (laws.cell_of_set s.bash name name (Variable.indexed (f t)) ∙ rw (same_refl name) refl)

  shown-HasArray :
      (name : Bytes) (repr : DatabaseRepr) (s : Shell B World) (t : bash.arrays.Table)
      → bash.cell_of s.bash name ≡ some (Variable.indexed t)
      → IsMap (array_in repr name)
      → HasArray (array_shown bash store name (ok repr, s)) name (array_in repr name)
  shown-HasArray name repr s t h once = (
    rebuild bash.arrays (array_in repr name) t,
    change_array-set name (rebuild bash.arrays (array_in repr name)) s t h,
    λ k. get-rebuild bash.arrays laws.arrays_hold (array_in repr name) t k once,
  )

  read-HasArray :
      (name : Bytes) (db : ℕ) (repr : DatabaseRepr) (s : Shell B World) (t : bash.arrays.Table)
      → bash.cell_of s.bash name ≡ some (Variable.indexed t)
      → IsMap (array_in repr name)
      → (x : Outcome DatabaseRepr × World) → x.0 ≡ ok repr
      → kept.Holds db repr x.1
      → let shown = array_shown bash store name (back s x) in
        HasArray shown name (array_in repr name) × kept.Holds db repr shown.world
  read-HasArray name db repr s t h once (ok r, w) e holds =
      let after = record s { world = w } in
      subst
        (λ r.
          let shown = array_shown bash store name (ok r, after) in
          HasArray shown name (array_in repr name) × kept.Holds db repr shown.world)
        (sym (ok-injective r repr e))
        (
          shown-HasArray name repr after t h once,
          subst (kept.Holds db repr)
              (sym
                (set_if-rest bash store name after (
                  on_indexed bash store (rebuild bash.arrays (array_in repr name))
                    (bash.cell_of after.bash name))).0)
              holds,
        )
  read-HasArray name db repr s t h once (err code, w) e holds =
      absurd (err-ok code repr (err code) refl e)

  -- The getter of an indexed array makes the variable hold what the database has for it, nothing if it has
  -- nothing of that kind, and the database stays as it is.
  pub shm_array_getter-HasArray :
      (s : Shell B World) (name : Bytes) (db : ℕ) (repr : DatabaseRepr) (t : bash.arrays.Table)
      → IsBound s name db repr
      → bash.cell_of s.bash name ≡ some (Variable.indexed t)
      → IsMap (array_in repr name)
      → HasArray (shm_array_getter bash store name s) name (array_in repr name)
        × kept.Holds db repr (shm_array_getter bash store name s).world
  unfolding shm_array_getter get_shm on_world
  shm_array_getter-HasArray s name db repr t (bound, holds) h once =
      let r = (kept.reads db repr).apply s.world holds in
      rw bound (read-HasArray name db repr s t h once (store.read db s.world) r.0 r.1)

  -- An index that an assignment names, or the one behind the last element
  abbrev pub assigned_index : ℤ → bash.arrays.Table → ℤ
  assigned_index index t = next_index bash store index (some (Variable.indexed t))

  written-Holds :
      (s : Shell B World) (name value : Bytes) (index : ℤ) (db : ℕ) (repr : DatabaseRepr)
      (t : bash.arrays.Table)
      → IsBound s name db repr
      → bash.cell_of s.bash name ≡ some (Variable.indexed t)
      → kept.CanStore (insert_index_of name (assigned_index index t) value repr)
      → kept.Holds db
          (insert_index_of name (assigned_index index t) value repr)
          (shm_array_setter bash store name (some value) index s).world
  unfolding shm_array_setter get_shm on_world
  written-Holds s name value index db repr t (bound, holds) h can =
      rw (bound, h)
        (((kept.writes db repr (insert_index_of name (assigned_index index t) value) can).apply
          s.world holds).1)

  -- An assignment to a shared array in one process is what any process that shares the database sees
  -- next: the element has the new value, and the others are those that the database had.
  pub shm_array_setter-getter :
      (s r : Shell B World) (name value : Bytes) (index : ℤ) (db : ℕ) (repr : DatabaseRepr)
      (t u : bash.arrays.Table)
      → IsBound s name db repr
      → bash.cell_of s.bash name ≡ some (Variable.indexed t)
      → kept.CanStore (insert_index_of name (assigned_index index t) value repr)
      → IsMap (array_in repr name)
      → get r.registry name ≡ some db
      → r.world ≡ (shm_array_setter bash store name (some value) index s).world
      → bash.cell_of r.bash name ≡ some (Variable.indexed u)
      → HasArray
          (shm_array_getter bash store name r)
          name
          (put (array_in repr name) (assigned_index index t) value)
  shm_array_setter-getter s r name value index db repr t u sets h can once bound same there =
      let after = insert_index_of name (assigned_index index t) value repr in
      let holds = written-Holds s name value index db repr t sets h can in
      let same_entries = array_in-insert_index_of name (assigned_index index t) value repr in
      subst (HasArray (shm_array_getter bash store name r) name) same_entries
        (shm_array_getter-HasArray r name db after u
          (bound, subst (kept.Holds db after) (sym same) holds) there
          (subst IsMap (sym same_entries)
            (IsMap-put (array_in repr name) (assigned_index index t) value once))).0
