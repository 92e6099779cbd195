-- ===== src/Shm/Preserved.antt =====
-- l_builtin/src/cmd_shm.rs: `bind -p` keeps the elements that a variable has.
use mathlib.Core.Path.{subst}
use l_builtin.Base.{
  ℕ, ◌≡◌, refl, sym, ap, ◌∙◌, none, some, List, [], true, false, Bytes, Outcome, ok, err,
}
use l_builtin.Base.Int.{ℤ}
use l_builtin.Base.Assoc.{Assoc, bytes_key, get, put, get-put, same_refl}
use l_builtin.Base.Hoare.{err-ok}
use l_builtin.VarDb.{as_array, DatabaseRepr, VarData, int_key}
use l_builtin.Shm.Place.{ShmLocArgs}
use l_builtin.Shm.Tables.{IsMap, collect}
use l_builtin.Shm.Rebuilt.{get-collect, or_else-none}
use l_builtin.Shm.State.{Bash, Store, Shell, Variable, on_world, back}
use l_builtin.Shm.Callbacks.{shm_array_getter}
use l_builtin.Shm.Commands.{
  ShmBindArgs, bind_var, capture_current_value, find_variable, register, make_dynamic, write_var,
  set_var, reported,
}
use l_builtin.Shm.Laws.{BashLaws, StoreLaws, IsMap-collect}
use l_builtin.Shm.Shown.{array_in, HasArray, shm_array_getter-HasArray}

abbrev pub bind_p : ShmLocArgs → List Bytes → ShmBindArgs
bind_p loc vars = record { loc = loc; assoc = false; preserve = true; vars = vars }

module _ {B World : Type 0} (bash : Bash B) (store : Store World) (laws : BashLaws bash)
    (kept : StoreLaws store) where
  -- The elements of an array, as they are written to the database
  abbrev pub elements_of : bash.arrays.Table → Assoc ℤ Bytes
  elements_of t = collect (bash.arrays.entries t) []

  module _ (name : Bytes) (db : ℕ) (repr : DatabaseRepr) (t u : bash.arrays.Table) where
    abbrev after_bind : DatabaseRepr
    after_bind = set_var bash store name (VarData.array (elements_of t)) repr

    array_in-set_var : array_in after_bind name ≡ elements_of t
    unfolding set_var as_array
    array_in-set_var =
        rw (get-put repr.vars name name (VarData.array (elements_of t)), same_refl name) refl

    seen_after :
        (s : Shell B World)
        → get s.registry name ≡ some db
        → bash.cell_of s.bash name ≡ some (Variable.indexed u)
        → kept.Holds db after_bind s.world
        → HasArray bash store laws kept
            (shm_array_getter bash store name s)
            name
            (bash.arrays.entries t)
    unfolding get
    seen_after s bound there holds =
        let once = IsMap-collect (bash.arrays.entries t) [] tt in
        let shown =
          (shm_array_getter-HasArray bash store laws kept s name db after_bind u (bound, holds)
            there (subst IsMap (sym array_in-set_var) once)).0 in
        (
          shown.0,
          shown.1,
          λ k.
              shown.2 k
              ∙ ap (λ m. get m k) array_in-set_var
              ∙ get-collect (bash.arrays.entries t) [] k (laws.arrays_hold.each_once t)
              ∙ or_else-none (get (bash.arrays.entries t) k),
        )

    -- A command that ends well, after which the getter gives these elements
    abbrev pub Keeps : Outcome (Unit {0}) × Shell B World → Type 0
    Keeps r =
        (r.0 ≡ ok tt)
        × HasArray bash store laws kept (shm_array_getter bash store name r.1) name
            (bash.arrays.entries t)

    written :
        (s : Shell B World)
        → get s.registry name ≡ some db
        → bash.cell_of s.bash name ≡ some (Variable.indexed u)
        → (x : Outcome (Unit {0}) × World) → x.0 ≡ ok tt
        → kept.Holds db after_bind x.1
        → Keeps (reported (back s x))
    written s bound there (ok v, w) e holds =
        (refl, seen_after (record s { world = w }) bound there holds)
    written s bound there (err code, w) e holds = absurd (err-ok code tt (err code) refl e)

    -- A variable that is bound with -p to a database keeps its elements: the getter gives those that the
    -- array had before. The variable was a plain indexed array, bash can bind it, and the database can
    -- store them.
    pub bind_var-Keeps :
        (loc : ShmLocArgs) (vars : List Bytes) (s : Shell B World) (b : B)
        → kept.Holds db repr s.world
        → bash.callbacks s.bash name ≡ none
        → bash.cell_of s.bash name ≡ some (Variable.indexed t)
        → bash.l_init_dynamic_array_var name s.bash ≡ some b
        → bash.cell_of b name ≡ some (Variable.indexed u)
        → kept.CanStore after_bind
        → Keeps (bind_var bash store (bind_p loc vars) db name s)
    unfolding bind_var capture_current_value find_variable register make_dynamic write_var on_world
    bind_var-Keeps loc vars s b holds plain there made dynamic can =
        let registered : Shell B World = record s { registry = put s.registry name db; bash = b } in
        let bound : get registered.registry name ≡ some db =
          get-put s.registry name name db ∙ rw (same_refl name) refl in
        let change = set_var bash store name (VarData.array (elements_of t)) in
        let w = (kept.writes db repr change can).apply s.world holds in
        rw (plain, there, made)
          (written registered bound dynamic (store.with_write db change s.world) w.0 w.1)
