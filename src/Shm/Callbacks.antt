-- ===== src/Shm/Callbacks.antt =====
-- l_builtin/src/cmd_shm.rs: the getters and setters that bash calls on a shared variable.
use l_builtin.Base.{ℕ, Option, none, some, [], Bytes, Outcome, ok, err, if◌then◌else◌}
use l_builtin.Base.Int.{succ, ℤ, is_negative}
use l_builtin.Base.Assoc.{Assoc, bytes_key, get, put}
use l_builtin.VarDb.{
  DatabaseRepr, VarData, default_var, insert_index, insert_key, as_array, as_assoc, int_key,
}
use l_builtin.Shm.Tables.{rebuild}
use l_builtin.Shm.State.{Bash, Store, Shell, Variable, on_world}

-- The entries of a variable, none where it is not there or of the other kind
abbrev pub entries_or_empty : {K : Type 0} → Option (Assoc K Bytes) → Assoc K Bytes
entries_or_empty none = []
entries_or_empty (some m) = m

abbrev pub as_array_of : Option VarData → Option (Assoc ℤ Bytes)
as_array_of none = none
as_array_of (some data_of) = as_array data_of

abbrev pub as_assoc_of : Option VarData → Option (Assoc Bytes Bytes)
as_assoc_of none = none
as_assoc_of (some data_of) = as_assoc data_of

-- `ptr_or_empty`
abbrev pub value_or_empty : Option Bytes → Bytes
value_or_empty none = []
value_or_empty (some value) = value

-- `entry(name).or_insert_with(default)`
abbrev pub or_default : Option VarData → VarData
or_default none = default_var
or_default (some data_of) = data_of

unfoldable pub insert_index_of : Bytes → ℤ → Bytes → DatabaseRepr → DatabaseRepr
insert_index_of name index value repr = record {
  vars = put repr.vars name (insert_index (or_default (get repr.vars name)) index value);
}

unfoldable pub insert_key_of : Bytes → Bytes → Bytes → DatabaseRepr → DatabaseRepr
insert_key_of name key value repr = record {
  vars = put repr.vars name (insert_key (or_default (get repr.vars name)) key value);
}

module _ {B World : Type 0} (bash : Bash B) (store : Store World) where
  -- A getter is called with its variable, which has the kind it was bound with.
  abbrev pub on_indexed :
      (bash.arrays.Table → bash.arrays.Table)
      → Option (Variable bash.arrays.Table bash.hashes.Table)
      → Option (Variable bash.arrays.Table bash.hashes.Table)
  on_indexed f none = none
  on_indexed f (some (Variable.scalar value)) = none
  on_indexed f (some (Variable.indexed t)) = some (Variable.indexed (f t))
  on_indexed f (some (Variable.associative t)) = none

  abbrev pub on_associative :
      (bash.hashes.Table → bash.hashes.Table)
      → Option (Variable bash.arrays.Table bash.hashes.Table)
      → Option (Variable bash.arrays.Table bash.hashes.Table)
  on_associative f none = none
  on_associative f (some (Variable.scalar value)) = none
  on_associative f (some (Variable.indexed t)) = none
  on_associative f (some (Variable.associative t)) = some (Variable.associative (f t))

  abbrev pub set_if :
      Bytes → Option (Variable bash.arrays.Table bash.hashes.Table) → Shell B World → Shell B World
  set_if name none s = s
  set_if name (some cell) s = record s { bash = bash.set_cell s.bash name cell }

  abbrev pub change_array :
      Bytes → (bash.arrays.Table → bash.arrays.Table) → Shell B World → Shell B World
  change_array name f s = set_if name (on_indexed f (bash.cell_of s.bash name)) s

  abbrev pub change_hash :
      Bytes → (bash.hashes.Table → bash.hashes.Table) → Shell B World → Shell B World
  change_hash name f s = set_if name (on_associative f (bash.cell_of s.bash name)) s

  -- A read that fails leaves the variable as it is.
  abbrev pub array_shown : Bytes → Outcome DatabaseRepr × Shell B World → Shell B World
  array_shown name (ok repr, s) =
      change_array name (rebuild bash.arrays (entries_or_empty (as_array_of (get repr.vars name))))
        s
  array_shown name (err code, s) = s

  abbrev pub assoc_shown : Bytes → Outcome DatabaseRepr × Shell B World → Shell B World
  assoc_shown name (ok repr, s) =
      change_hash name (rebuild bash.hashes (entries_or_empty (as_assoc_of (get repr.vars name)))) s
  assoc_shown name (err code, s) = s

  -- `get_shm` finds nothing for a variable that is not bound; its message is not modelled.
  abbrev pub array_from : Bytes → Option ℕ → Shell B World → Shell B World
  array_from name none s = s
  array_from name (some db) s = array_shown name (on_world (store.read db) s)

  abbrev pub assoc_from : Bytes → Option ℕ → Shell B World → Shell B World
  assoc_from name none s = s
  assoc_from name (some db) s = assoc_shown name (on_world (store.read db) s)

  unfoldable pub get_shm : Bytes → Shell B World → Option ℕ
  get_shm name s = get s.registry name

  unfoldable pub shm_array_getter : Bytes → Shell B World → Shell B World
  shm_array_getter name s = array_from name (get_shm name s) s

  unfoldable pub shm_assoc_getter : Bytes → Shell B World → Shell B World
  shm_assoc_getter name s = assoc_from name (get_shm name s) s

  -- An assignment without an index goes behind the last element.
  abbrev pub next_index : ℤ → Option (Variable bash.arrays.Table bash.hashes.Table) → ℤ
  next_index index none = index
  next_index index (some (Variable.scalar value)) = index
  next_index index (some (Variable.indexed t)) =
      if is_negative index then succ (bash.l_array_max_index t) else index
  next_index index (some (Variable.associative t)) = index

  abbrev pub array_assigned : Bytes → Bytes → ℤ → Option ℕ → Shell B World → Shell B World
  array_assigned name value index none s = s
  array_assigned name value index (some db) s =
      let at = next_index index (bash.cell_of s.bash name) in
      (on_world (store.with_write db (insert_index_of name at value))
        (change_array name (λ t. bash.arrays.insert t at value) s)).1

  -- The result of the write is ignored.
  unfoldable pub shm_array_setter : Bytes → Option Bytes → ℤ → Shell B World → Shell B World
  shm_array_setter name value index s =
      array_assigned name (value_or_empty value) index (get_shm name s) s

  abbrev pub assoc_assigned : Bytes → Bytes → Bytes → Option ℕ → Shell B World → Shell B World
  assoc_assigned name value key none s = s
  assoc_assigned name value key (some db) s =
      (on_world (store.with_write db (insert_key_of name key value))
        (change_hash name (λ t. bash.hashes.insert t key value) s)).1

  unfoldable pub shm_assoc_setter :
      Bytes → Option Bytes → Option Bytes → Shell B World → Shell B World
  shm_assoc_setter name value key s =
      assoc_assigned name (value_or_empty value) (value_or_empty key) (get_shm name s) s
