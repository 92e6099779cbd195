-- ===== src/Shm/Commands.antt =====
-- l_builtin/src/cmd_shm.rs: the subcommands, on arguments that are parsed.
use l_builtin.Base.{
  ◌>>=◌, ◌>>◌, ℕ, Option, none, some, List, [], ◌∷◌, Bool, false, Bytes, Command, Outcome, ok, err,
  succeed, fail, execution_failure, ex_usage, if◌then◌else◌,
}
use l_builtin.Base.Int.{pos}
use l_builtin.Base.Assoc.{Assoc, bytes_key, bytes_eq, put}
use l_builtin.VarDb.{DatabaseRepr, VarData, int_key}
use l_builtin.VarDb.Backend.{DbPath}
use l_builtin.Shm.Place.{ShmLocArgs, resolve_dbloc}
use l_builtin.Shm.Tables.{collect}
use l_builtin.Shm.State.{Bash, Store, Shell, Variable, Dynamic, on_world}
use l_builtin.Shm.Callbacks.{shm_array_getter, shm_assoc_getter, value_or_empty}

pub record ShmBindArgs : Type 0 where
  pub loc : ShmLocArgs
  pub assoc : Bool
  pub preserve : Bool
  pub vars : List Bytes

pub record ShmSyncArgs : Type 0 where
  pub loc : ShmLocArgs
  pub vars : List Bytes

abbrev pub as_outcome : {State A : Type 0} → Outcome A → Command State A
as_outcome (ok a) s = (ok a, s)
as_outcome (err code) s = (err code, s)

abbrev same_place : DbPath → DbPath → Bool
same_place (DbPath.mem name) (DbPath.mem n) = bytes_eq n name
same_place (DbPath.mmap name size) (DbPath.mmap n other) = bytes_eq n name
same_place loc other = false

-- An error that is printed with its text
abbrev pub reported : {State A : Type 0} → Outcome A × State → Outcome A × State
reported (ok a, s) = (ok a, s)
reported (err code, s) = (err execution_failure, s)

module _ {B World : Type 0} (bash : Bash B) (store : Store World) where
  abbrev pub Action : Type 0 → Type 0
  Action A = Command (Shell B World) A

  abbrev pub find_place : DbPath → Assoc Bytes ℕ → World → Option ℕ
  find_place loc [] w = none
  find_place loc ((name, db) ∷ rest) w =
      if same_place loc (store.path w db) then some db else find_place loc rest w

  abbrev found_or_none : Option ℕ → Action ℕ
  found_or_none none = fail execution_failure
  found_or_none (some db) = succeed db

  unfoldable pub get_db_loc : DbPath → Action ℕ
  get_db_loc (DbPath.mem name) s = found_or_none (find_place (DbPath.mem name) s.registry s.world) s
  get_db_loc (DbPath.mmap name size) s =
      found_or_none (find_place (DbPath.mmap name size) s.registry s.world) s
  get_db_loc (DbPath.shm name) s = on_world (store.open_db_loc (DbPath.shm name)) s
  get_db_loc (DbPath.file path) s = on_world (store.open_db_loc (DbPath.file path)) s

  abbrev open_failed : DbPath → ℕ
  open_failed (DbPath.mmap name none) = ex_usage
  open_failed (DbPath.mmap name (some size)) = execution_failure
  open_failed (DbPath.mem name) = execution_failure
  open_failed (DbPath.shm name) = execution_failure
  open_failed (DbPath.file path) = execution_failure

  abbrev or_failure : ℕ → Outcome ℕ × Shell B World → Outcome ℕ × Shell B World
  or_failure code (ok db, s) = (ok db, s)
  or_failure code (err c, s) = (err code, s)

  abbrev or_created : DbPath → Outcome ℕ × Shell B World → Outcome ℕ × Shell B World
  or_created loc (ok db, s) = (ok db, s)
  or_created loc (err code, s) = or_failure (open_failed loc) (on_world (store.open_db_loc loc) s)

  -- The database that `bind` uses: the one that is there, or a new one.
  unfoldable pub get_or_create : DbPath → Action ℕ
  get_or_create loc s = or_created loc (get_db_loc loc s)

  abbrev pub captured : Option (Variable bash.arrays.Table bash.hashes.Table) → Option VarData
  captured none = none
  captured (some (Variable.associative t)) =
      some (VarData.assoc (collect (bash.hashes.entries t) []))
  captured (some (Variable.indexed t)) = some (VarData.array (collect (bash.arrays.entries t) []))
  captured (some (Variable.scalar value)) =
      some (VarData.array (put [] (pos 0) (value_or_empty value)))

  abbrev pub shown_by : Option Dynamic → Bytes → Shell B World → Shell B World
  shown_by none name s = s
  shown_by (some Dynamic.array_callbacks) name s = shm_array_getter bash store name s
  shown_by (some Dynamic.assoc_callbacks) name s = shm_assoc_getter bash store name s

  -- `find_variable` calls the getter of a dynamic variable.
  unfoldable pub find_variable :
      Bytes → Action (Option (Variable bash.arrays.Table bash.hashes.Table))
  find_variable name s =
      let t = shown_by (bash.callbacks s.bash name) name s in (ok (bash.cell_of t.bash name), t)

  unfoldable pub capture_current_value : Bytes → Action (Option VarData)
  capture_current_value name = do cell ← find_variable name; succeed (captured cell)

  unfoldable pub register : Bytes → ℕ → Action (Unit {0})
  register name db s = (ok tt, record s { registry = put s.registry name db })

  abbrev made_dynamic : Option B → Action (Unit {0})
  made_dynamic none s = (err execution_failure, s)
  made_dynamic (some b) s = (ok tt, record s { bash = b })

  unfoldable pub make_dynamic : Bool → Bytes → Action (Unit {0})
  make_dynamic assoc name s =
      made_dynamic
        (if assoc
          then bash.l_init_dynamic_assoc_var name s.bash
          else bash.l_init_dynamic_array_var name s.bash)
        s

  unfoldable pub set_var : Bytes → VarData → DatabaseRepr → DatabaseRepr
  set_var name value repr = record { vars = put repr.vars name value }

  unfoldable pub write_var : ℕ → Bytes → VarData → Action (Unit {0})
  write_var db name value s = reported (on_world (store.with_write db (set_var name value)) s)

  abbrev pub seeded : ℕ → Bytes → Option VarData → Action (Unit {0})
  seeded db name none = succeed tt
  seeded db name (some value) = write_var db name value

  abbrev pub preserved : Bool → Bytes → Action (Option VarData)
  preserved preserve name = if preserve then capture_current_value name else succeed none

  unfoldable pub bind_var : ShmBindArgs → ℕ → Bytes → Action (Unit {0})
  bind_var args db name = do
    value ← preserved args.preserve name
    register name db
    make_dynamic args.assoc name
    seeded db name value

  unfoldable pub for_each : (Bytes → Action (Unit {0})) → List Bytes → Action (Unit {0})
  for_each body [] = succeed tt
  for_each body (name ∷ names) = do body name; for_each body names

  abbrev pub some_vars : List Bytes → Action (Unit {0})
  some_vars [] = fail ex_usage
  some_vars (name ∷ names) = succeed tt

  unfoldable pub shm_bind_subcommand : ShmBindArgs → Action (Unit {0})
  shm_bind_subcommand args = do
    loc ← as_outcome (resolve_dbloc args.loc)
    db ← get_or_create loc
    some_vars args.vars
    for_each (bind_var args db) args.vars
