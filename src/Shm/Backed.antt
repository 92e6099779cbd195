-- ===== src/Shm/Backed.antt =====
-- The databases of l_builtin/src/vardb.rs behind what l_builtin/src/cmd_shm.rs uses of them.
use mathlib.Core.Path.{subst}
use l_builtin.Base.{
  ℕ, ◌+◌, ◌≡◌, ◌∙◌, refl, Option, none, some, [], Bytes, Command, Outcome, ok, err,
}
use l_builtin.Base.Assoc.{Assoc, id_key, get, put, get-put, same_refl, remove, bytes_key}
use l_builtin.VarDb.{DatabaseRepr, Rkyv, RkyvLaws}
use l_builtin.VarDb.Os.{Os}
use l_builtin.VarDb.Backend.{DbPath}
use l_builtin.VarDb.Database.{LockedDatabase, open_db_loc, read, with_write, path, unlink_shm}
use l_builtin.VarDb.Cell.{stored, after_write, Cell, Use, Reply, read_reply, written_reply}
use l_builtin.VarDb.Cell.Refinement.{Agree, Represents, uses_alike, use_database}
use l_builtin.Shm.State.{Store}
use l_builtin.Shm.Laws.{StoreLaws}

-- The databases that are open in a process, each under the number of its `Arc`, and the system
pub record Databases : Type 0 where
  pub opened : Assoc ℕ LockedDatabase
  pub next : ℕ
  pub os : Os

module _ (rwlock_size : ℕ) (rkyv : Rkyv) where
  abbrev numbered : Databases → Outcome LockedDatabase × Os → Outcome ℕ × Databases
  numbered d (ok db, os) =
      (ok d.next, record { opened = put d.opened d.next db; next = d.next + 1; os = os })
  numbered d (err code, os) = (err code, record d { os = os })

  abbrev put_back :
      {A : Type 0} → ℕ → Databases → Outcome A × (LockedDatabase × Os) → Outcome A × Databases
  put_back n d (result, (db, os)) = (result, record d { opened = put d.opened n db; os = os })

  -- A number that no database has cannot be used.
  abbrev with_database :
      {A : Type 0}
      → Command (LockedDatabase × Os) A
      → ℕ
      → Databases
      → Option LockedDatabase
      → Outcome A × Databases
  with_database command n d none = (err 1, d)
  with_database command n d (some db) = put_back n d (command (db, d.os))

  abbrev path_or_empty : Option LockedDatabase → DbPath
  path_or_empty none = DbPath.file []
  path_or_empty (some db) = path db

  abbrev pub locked_store : Store Databases
  locked_store = record {
    open_db_loc = λ loc d. numbered d (open_db_loc rwlock_size loc d.os);
    path = λ d n. path_or_empty (get d.opened n);
    read = λ n d. with_database (read rwlock_size rkyv) n d (get d.opened n);
    with_write = λ n f d. with_database (with_write rwlock_size rkyv f) n d (get d.opened n);
    remove_file = λ p d. record d { os = record d.os { files = remove d.os.files p } };
    unlink_shm = λ name d. record d { os = unlink_shm name d.os };
  }

  -- The database of that number is open, and represents a cell without a bound that has the variables.
  abbrev pub IsHeld : ℕ → DatabaseRepr → Databases → Type 0
  IsHeld n repr d =
      (db : LockedDatabase) × (get d.opened n ≡ some db)
      × Represents rwlock_size rkyv (db, d.os) (record { value = repr; room = none })

  abbrev pub IsSerializable : DatabaseRepr → Type 0
  IsSerializable repr = (bytes : Bytes) × (rkyv.to_bytes repr ≡ some bytes)

  module _ (laws : RkyvLaws rkyv) where
    -- a result and a state whose reply is that of the cell
    IsHeld-again :
        {A : Type 0} (n : ℕ) (repr : DatabaseRepr) (d : Databases) (a : A)
        (x : Outcome A × (LockedDatabase × Os))
        → x.0 ≡ ok a
        → Represents rwlock_size rkyv x.1 (record { value = repr; room = none })
        → ((put_back n d x).0 ≡ ok a) × IsHeld n repr (put_back n d x).1
    IsHeld-again n repr d a (result, (db, os)) e h =
        let there : get (put d.opened n db) n ≡ some db =
          get-put d.opened n n db ∙ rw (same_refl n) refl in
        (e, (db, there, h))

    read_ok :
        (o : Outcome DatabaseRepr) (repr : DatabaseRepr)
        → read_reply o ≡ Reply.contents repr
        → o ≡ ok repr
    read_ok (ok r) repr h = cc
    read_ok (err code) repr h = cc

    written_ok : (o : Outcome (Unit {0})) → written_reply o ≡ Reply.done → o ≡ ok tt
    written_ok (ok u) h = refl
    written_ok (err code) h = cc

    -- What the commands rely on is what the databases do.
    pub locked_store-laws : StoreLaws locked_store
    locked_store-laws = record {
      Holds = IsHeld;
      CanStore = IsSerializable;
      reads = λ n repr. record {
        apply = λ d held.
            let cell : Cell = record { value = repr; room = none } in
            let r = uses_alike rwlock_size rkyv laws Use.read (held.0, d.os) cell held.2 in
            rw held.1 (
              IsHeld-again n repr d repr (read rwlock_size rkyv (held.0, d.os))
                (read_ok (read rwlock_size rkyv (held.0, d.os)).0 repr r.0) r.1);
      };
      writes = λ n repr f can. record {
        apply = λ d held.
            let cell : Cell = record { value = repr; room = none } in
            let after : Cell = record { value = f repr; room = none } in
            let fits : stored cell (f repr) (rkyv.to_bytes (f repr)) ≡ (ok tt, after) =
              rw can.1 refl in
            let r =
              subst
                (λ y.
                  Agree rwlock_size rkyv laws
                    (use_database rwlock_size rkyv (Use.write f) (held.0, d.os))
                    (after_write rkyv y))
                fits (uses_alike rwlock_size rkyv laws (Use.write f) (held.0, d.os) cell held.2) in
            rw held.1 (
              IsHeld-again n (f repr) d tt (with_write rwlock_size rkyv f (held.0, d.os))
                (written_ok (with_write rwlock_size rkyv f (held.0, d.os)).0 r.0) r.1);
      };
    }
