-- ===== src/Shm/State.antt =====
-- l_builtin/src/cmd_shm.rs: the state of a shell with shared variables, and what its commands use of
-- bash and of the database.
use l_builtin.Base.{ℕ, Option, List, Bytes, Command, Outcome}
use l_builtin.Base.Int.{ℤ}
use l_builtin.Base.Assoc.{Assoc, bytes_key}
use l_builtin.VarDb.{DatabaseRepr, int_key}
use l_builtin.VarDb.Backend.{DbPath}
use l_builtin.Shm.Tables.{BashTable}

-- A variable of bash: the value of a scalar may be missing.
pub data Variable (Indexed Associative : Type 0) : Type 0 where
  scalar : Option Bytes → Variable Indexed Associative
  indexed : Indexed → Variable Indexed Associative
  associative : Associative → Variable Indexed Associative

-- Which pair of getter and setter a dynamic variable has
pub data Dynamic : Type 0 where
  array_callbacks assoc_callbacks : Dynamic

-- The calls of bash, and of l_builtin/c/l_bash_api.c. `cell_of` and `set_cell` are the value of a
-- variable reached by its pointer; a null pointer is `none`.
pub record Bash (B : Type 0) : Type 1 where
  pub arrays : BashTable ℤ
  pub hashes : BashTable Bytes
  pub l_array_max_index : arrays.Table → ℤ
  pub cell_of : B → Bytes → Option (Variable arrays.Table hashes.Table)
  pub set_cell : B → Bytes → Variable arrays.Table hashes.Table → B
  pub callbacks : B → Bytes → Option Dynamic
  pub l_init_dynamic_array_var : Bytes → B → Option B
  pub l_init_dynamic_assoc_var : Bytes → B → Option B
  pub l_unbind_variable : Bytes → B → B
  pub l_prepare_indexed_array : Bytes → B → Option B
  pub l_prepare_assoc_array : Bytes → B → Option B

-- The database as its users see it: an open database has a number (its `Arc`).
pub record Store (World : Type 0) : Type 0 where
  pub open_db_loc : DbPath → Command World ℕ
  pub path : World → ℕ → DbPath
  pub read : ℕ → Command World DatabaseRepr
  pub with_write : ℕ → (DatabaseRepr → DatabaseRepr) → Command World (Unit {0})
  pub remove_file : Bytes → World → World
  pub unlink_shm : Bytes → World → World

-- `printed` has the lines of standard output, the last one first.
pub record Shell (B World : Type 0) : Type 0 where
  pub registry : Assoc Bytes ℕ
  pub bash : B
  pub world : World
  pub printed : List Bytes

module _ {B World : Type 0} where
  abbrev pub back : {A : Type 0} → Shell B World → Outcome A × World → Outcome A × Shell B World
  back s (result, w) = (result, record s { world = w })

  -- A command on the databases
  unfoldable pub on_world : {A : Type 0} → Command World A → Command (Shell B World) A
  on_world command s = back s (command s.world)
