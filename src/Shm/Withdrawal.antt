-- ===== src/Shm/Withdrawal.antt =====
-- l_builtin/src/cmd_shm.rs: the subcommands that push a variable, and those that take one away.
use l_builtin.Base.{
  ◌>>=◌, ◌>>◌, ℕ, Option, none, some, List, [], ◌∷◌, Bytes, Outcome, ok, err, succeed, fail,
  execution_failure, if◌then◌else◌,
}
use l_builtin.Base.Int.{ℤ}
use l_builtin.Base.Assoc.{Assoc, bytes_key, bytes_eq, get, remove}
use l_builtin.VarDb.{DatabaseRepr, VarData, default_repr, int_key}
use l_builtin.VarDb.Backend.{DbPath}
use l_builtin.Shm.Place.{ShmLocArgs, resolve_dbloc, db_key}
use l_builtin.Shm.Tables.{collect, insert_entries}
use l_builtin.Shm.State.{Bash, Store, Shell, Variable, on_world}
use l_builtin.Shm.Callbacks.{change_array, change_hash, get_shm}
use l_builtin.Shm.Commands.{
  ShmSyncArgs, as_outcome, reported, Action, get_db_loc, find_variable, write_var, for_each,
  some_vars,
}

unfoldable pub without_var : Bytes → DatabaseRepr → DatabaseRepr
without_var name repr = record { vars = remove repr.vars name }

abbrev pub without_vars : DatabaseRepr → DatabaseRepr
without_vars repr = default_repr

module _ {B World : Type 0} (bash : Bash B) (store : Store World) where
  -- `sync` takes a variable that is no associative array for an indexed one, a scalar too; what a
  -- scalar's cell is then read as is not defined, and `none` stands for it.
  abbrev pub pushed : Option (Variable bash.arrays.Table bash.hashes.Table) → Option VarData
  pushed none = none
  pushed (some (Variable.associative t)) = some (VarData.assoc (collect (bash.hashes.entries t) []))
  pushed (some (Variable.indexed t)) = some (VarData.array (collect (bash.arrays.entries t) []))
  pushed (some (Variable.scalar value)) = none

  abbrev push : ℕ → Bytes → Option VarData → Action bash store (Unit {0})
  push db name none = fail execution_failure
  push db name (some value) = write_var bash store db name value

  unfoldable pub sync_var : ℕ → Bytes → Action bash store (Unit {0})
  sync_var db name = do cell ← find_variable bash store name; push db name (pushed cell)

  unfoldable pub shm_sync_subcommand : ShmSyncArgs → Action bash store (Unit {0})
  shm_sync_subcommand args = do
    loc ← as_outcome (resolve_dbloc args.loc)
    db ← (λ s. reported (get_db_loc bash store loc s))
    for_each bash store (sync_var db) args.vars

  unfoldable pub unbind_name : Bytes → Shell B World → Shell B World
  unbind_name name s = record s {
    registry = remove s.registry name;
    bash = bash.l_unbind_variable name s.bash;
  }

  module _ (to_string_lossy : Bytes → Bytes) where
    -- The variables of the registry whose database has the key
    unfoldable pub bound_to : Bytes → World → Assoc Bytes ℕ → List Bytes
    bound_to key w [] = []
    bound_to key w ((name, db) ∷ rest) =
        let names = bound_to key w rest in
        if bytes_eq (db_key to_string_lossy (store.path w db)) key then name ∷ names else names

    abbrev pub unbind_all : List Bytes → Shell B World → Shell B World
    unbind_all [] s = s
    unbind_all (name ∷ names) s = unbind_all names (unbind_name name s)

    unfoldable pub unbind_registry_vars : Bytes → Shell B World → Shell B World
    unbind_registry_vars key s = unbind_all (bound_to key s.world s.registry) s

    abbrev unlink_db_backing : DbPath → World → World
    unlink_db_backing (DbPath.file path) w = store.remove_file path w
    unlink_db_backing (DbPath.shm name) w = store.unlink_shm name w
    unlink_db_backing (DbPath.mem name) w = w
    unlink_db_backing (DbPath.mmap name size) w = w

    abbrev unlinked : DbPath → Shell B World → Shell B World
    unlinked loc s = record s { world = unlink_db_backing loc s.world }

    unfoldable pub shm_rm_subcommand : ShmLocArgs → Action bash store (Unit {0})
    shm_rm_subcommand args = do
      loc ← as_outcome (resolve_dbloc args)
      λ s. (ok tt, unlinked loc (unbind_registry_vars (db_key to_string_lossy loc) s))

  abbrev pub var_of : Bytes → Outcome DatabaseRepr → Option VarData
  var_of name (ok repr) = get repr.vars name
  var_of name (err code) = none

  abbrev pub with_var :
      Bytes → Outcome DatabaseRepr × Shell B World → Outcome (Option VarData) × Shell B World
  with_var name (result, s) = (ok (var_of name result), s)

  abbrev pub read_var : Bytes → Option ℕ → Action bash store (Option VarData)
  read_var name none s = (ok none, s)
  read_var name (some db) s = with_var name (on_world (store.read db) s)

  unfoldable pub snapshot_var : Bytes → Action bash store (Option VarData)
  snapshot_var name s = read_var name (get s.registry name) s

  abbrev pub filled_array : Bytes → Assoc ℤ Bytes → Option B → Shell B World → Shell B World
  filled_array name m none s = s
  filled_array name m (some b) s =
      change_array bash store name (insert_entries bash.arrays m) (record s { bash = b })

  abbrev pub filled_hash : Bytes → Assoc Bytes Bytes → Option B → Shell B World → Shell B World
  filled_hash name m none s = s
  filled_hash name m (some b) s =
      change_hash bash store name (insert_entries bash.hashes m) (record s { bash = b })

  unfoldable pub restore_plain_variable : Bytes → VarData → Shell B World → Shell B World
  restore_plain_variable name (VarData.array m) s =
      filled_array name m (bash.l_prepare_indexed_array name s.bash) s
  restore_plain_variable name (VarData.assoc m) s =
      filled_hash name m (bash.l_prepare_assoc_array name s.bash) s

  abbrev pub restored : Bytes → Option VarData → Shell B World → Shell B World
  restored name none s = s
  restored name (some value) s = restore_plain_variable name value s

  unfoldable pub unbind_var : Bytes → Action bash store (Unit {0})
  unbind_var name = do
    snapshot ← snapshot_var name
    λ s. (ok tt, restored name snapshot (unbind_name name s))

  unfoldable pub shm_unbind_subcommand : List Bytes → Action bash store (Unit {0})
  shm_unbind_subcommand vars = do some_vars bash store vars; for_each bash store unbind_var vars

  abbrev bound_db : Option ℕ → Action bash store ℕ
  bound_db none = fail execution_failure
  bound_db (some db) = succeed db

  unfoldable pub drop_var : Bytes → Action bash store (Unit {0})
  drop_var name = do
    db ← (λ s. bound_db (get_shm bash store name s) s)
    λ s. reported (on_world (store.with_write db (without_var name)) s)
    λ s. (ok tt, unbind_name name s)

  unfoldable pub shm_drop_subcommand : List Bytes → Action bash store (Unit {0})
  shm_drop_subcommand vars = for_each bash store drop_var vars

  unfoldable pub shm_clear_subcommand : ShmLocArgs → Action bash store (Unit {0})
  shm_clear_subcommand args = do
    loc ← as_outcome (resolve_dbloc args)
    db ← (λ s. reported (get_db_loc bash store loc s))
    λ s. reported (on_world (store.with_write db without_vars) s)
