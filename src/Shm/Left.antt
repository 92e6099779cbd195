-- ===== src/Shm/Left.antt =====
-- l_builtin/src/cmd_shm.rs: what `unbind` leaves in the shell, and which bindings `rm` takes away.
use mathlib.Core.Path.{subst}
use l_builtin.Base.{
  ℕ, ◌≡◌, refl, sym, ap, ◌∙◌, Option, none, some, Bytes, Outcome, ok, err, and_then,
}
use l_builtin.Base.Int.{ℤ}
use l_builtin.Base.Assoc.{Assoc, bytes_key, get, remove, get-remove, same_refl}
use l_builtin.Base.Hoare.{ok-injective, err-ok}
use l_builtin.VarDb.{DatabaseRepr, VarData, int_key}
use l_builtin.Shm.Tables.{IsMap, insert_entries}
use l_builtin.Shm.Rebuilt.{get-fresh}
use l_builtin.Shm.State.{Bash, Store, Shell, Variable, on_world, back}
use l_builtin.Shm.Callbacks.{on_indexed, on_associative}
use l_builtin.Shm.Withdrawal.{
  unbind_name, snapshot_var, with_var, filled_array, filled_hash, restore_plain_variable, restored,
  unbind_var,
}
use l_builtin.Shm.Laws.{set_if-rest, BashLaws, StoreLaws}

module _ {B World : Type 0} (bash : Bash B) (store : Store World) (laws : BashLaws bash) where
  -- A variable of bash that has what the database has.
  abbrev pub Shows : VarData → Option (Variable bash.arrays.Table bash.hashes.Table) → Type 0
  Shows value none = ⊥
  Shows value (some (Variable.scalar text)) = ⊥
  Shows (VarData.array m) (some (Variable.indexed t)) =
      (k : ℤ) → get (bash.arrays.entries t) k ≡ get m k
  Shows (VarData.array m) (some (Variable.associative t)) = ⊥
  Shows (VarData.assoc m) (some (Variable.indexed t)) = ⊥
  Shows (VarData.assoc m) (some (Variable.associative t)) =
      (k : Bytes) → get (bash.hashes.entries t) k ≡ get m k

  abbrev pub IsMapOf : VarData → Type 0
  IsMapOf (VarData.array m) = IsMap m
  IsMapOf (VarData.assoc m) = IsMap m

  -- bash prepares an array of the kind.
  abbrev pub CanPrepare : VarData → Bytes → B → Type 0
  CanPrepare (VarData.array m) name b =
      (after : B) × (bash.l_prepare_indexed_array name b ≡ some after)
  CanPrepare (VarData.assoc m) name b =
      (after : B) × (bash.l_prepare_assoc_array name b ≡ some after)

  filled_array-Shows :
      (name : Bytes) (m : Assoc ℤ Bytes) (b : B) (s : Shell B World)
      → bash.cell_of b name ≡ some (Variable.indexed bash.arrays.fresh)
      → IsMap m
      → Shows (VarData.array m) (bash.cell_of (filled_array bash store name m (some b) s).bash name)
  filled_array-Shows name m b s h once =
      let t = insert_entries bash.arrays m bash.arrays.fresh in
      let own : bash.cell_of (bash.set_cell b name (Variable.indexed t)) name
          ≡ some (Variable.indexed t) =
        laws.cell_of_set b name name (Variable.indexed t) ∙ rw (same_refl name) refl in
      rw (h, own) (λ k. get-fresh bash.arrays laws.arrays_hold m k once)

  filled_hash-Shows :
      (name : Bytes) (m : Assoc Bytes Bytes) (b : B) (s : Shell B World)
      → bash.cell_of b name ≡ some (Variable.associative bash.hashes.fresh)
      → IsMap m
      → Shows (VarData.assoc m) (bash.cell_of (filled_hash bash store name m (some b) s).bash name)
  filled_hash-Shows name m b s h once =
      let t = insert_entries bash.hashes m bash.hashes.fresh in
      let own : bash.cell_of (bash.set_cell b name (Variable.associative t)) name
          ≡ some (Variable.associative t) =
        laws.cell_of_set b name name (Variable.associative t) ∙ rw (same_refl name) refl in
      rw (h, own) (λ k. get-fresh bash.hashes laws.hashes_hold m k once)

  restored-Shows :
      (name : Bytes) (value : VarData) (s : Shell B World)
      → CanPrepare value name s.bash
      → IsMapOf value
      → Shows value (bash.cell_of (restore_plain_variable bash store name value s).bash name)
  unfolding restore_plain_variable
  restored-Shows name (VarData.array m) s (b, e) once =
      rw e (filled_array-Shows name m b s (laws.indexed_prepared s.bash b name e) once)
  restored-Shows name (VarData.assoc m) s (b, e) once =
      rw e (filled_hash-Shows name m b s (laws.associative_prepared s.bash b name e) once)

  restored-rest :
      (name : Bytes) (value : VarData) (s : Shell B World)
      → CanPrepare value name s.bash
      → let t = restore_plain_variable bash store name value s in
        (t.world ≡ s.world) × (t.registry ≡ s.registry)
  unfolding restore_plain_variable
  restored-rest name (VarData.array m) s (b, e) =
      let after : Shell B World = record s { bash = b } in
      rw e (
        set_if-rest bash store name after
          (on_indexed bash store (insert_entries bash.arrays m) (bash.cell_of b name)))
  restored-rest name (VarData.assoc m) s (b, e) =
      let after : Shell B World = record s { bash = b } in
      rw e (
        set_if-rest bash store name after
          (on_associative bash store (insert_entries bash.hashes m) (bash.cell_of b name)))

  module _ (kept : StoreLaws store) where
    -- What an unbound variable is left with
    abbrev pub IsLeft :
        Bytes → ℕ → DatabaseRepr → VarData → Outcome (Unit {0}) × Shell B World → Type 0
    IsLeft name db repr value r =
        (r.0 ≡ ok tt)
        × Shows value (bash.cell_of r.1.bash name)
        × (get r.1.registry name ≡ none)
        × kept.Holds db repr r.1.world

    IsLeft-behind :
        (name : Bytes) (db : ℕ) (repr : DatabaseRepr) (value : VarData) (s : Shell B World)
        → get repr.vars name ≡ some value
        → IsMapOf value
        → CanPrepare value name (bash.l_unbind_variable name s.bash)
        → (x : Outcome DatabaseRepr × World) → x.0 ≡ ok repr
        → kept.Holds db repr x.1
        → IsLeft name db repr value (
            and_then (with_var bash store name (back s x)) (λ snapshot t.
              (ok tt, restored bash store name snapshot (unbind_name bash store name t))))
    unfolding unbind_name
    IsLeft-behind name db repr value s there once can (ok r, w) e holds =
        let start : Shell B World = record {
          registry = remove s.registry name;
          bash = bash.l_unbind_variable name s.bash;
          world = w;
          printed = s.printed;
        } in
        let rest = restored-rest name value start can in
        let gone : get (remove s.registry name) name ≡ none =
          get-remove s.registry name name ∙ rw (same_refl name) refl in
        let same : get r.vars name ≡ some value =
          ap (λ q. get q.vars name) (ok-injective r repr e) ∙ there in
        rw same (
          refl,
          restored-Shows name value start can once,
          rw rest.1 gone,
          subst (kept.Holds db repr) (sym rest.0) holds,
        )
    IsLeft-behind name db repr value s there once can (err code, w) e holds =
        absurd (err-ok code repr (err code) refl e)

    -- A variable that is unbound keeps its value as a plain one: what the database has for it is what
    -- bash has after that, whichever kind it is of. It is no longer registered, and the database stays as
    -- it is. bash can prepare the array.
    pub unbind_var-IsLeft :
        (name : Bytes) (db : ℕ) (repr : DatabaseRepr) (value : VarData) (s : Shell B World)
        → get s.registry name ≡ some db
        → kept.Holds db repr s.world
        → get repr.vars name ≡ some value
        → IsMapOf value
        → CanPrepare value name (bash.l_unbind_variable name s.bash)
        → IsLeft name db repr value (unbind_var bash store name s)
    unfolding unbind_var snapshot_var on_world
    unbind_var-IsLeft name db repr value s bound holds there once can =
        let r = (kept.reads db repr).apply s.world holds in
        rw bound (IsLeft-behind name db repr value s there once can (store.read db s.world) r.0 r.1)
