-- ===== src/VarDb/Database.antt =====
-- l_builtin/src/vardb.rs: `LockedDatabase`, the backing of a database behind one interface.
use l_builtin.Base.{◌>>=◌, ◌>>◌, ℕ, none, some, Bytes, Command, Outcome, succeed, fail}
use l_builtin.VarDb.{DatabaseRepr, Rkyv}
use l_builtin.Base.Assoc.{remove, bytes_key}
use l_builtin.VarDb.Os.{Os}
use l_builtin.VarDb.Backend.{
  DbPath, FlockBackend, MemfdBackend, MmapBackend, invalid_input, create_parent, shm_object_name,
  beside,
}
use l_builtin.VarDb.Backend.Flock
use l_builtin.VarDb.Backend.Memfd
use l_builtin.VarDb.Backend.Mmap

pub data LockedDatabase : Type 0 where
  flock : FlockBackend → LockedDatabase
  memfd : MemfdBackend → LockedDatabase
  mmap : MmapBackend → LockedDatabase

unfoldable pub path : LockedDatabase → DbPath
path (LockedDatabase.flock b) = b.path
path (LockedDatabase.memfd b) = DbPath.mem b.name
path (LockedDatabase.mmap b) = DbPath.mmap b.name none

module _ (rwlock_size : ℕ) where
  unfoldable pub open_file : Bytes → Command Os LockedDatabase
  open_file p = do b ← Flock.open_backend (DbPath.file p); succeed (LockedDatabase.flock b)

  unfoldable pub open_shm : Bytes → Command Os LockedDatabase
  open_shm name = do b ← Flock.open_backend (DbPath.shm name); succeed (LockedDatabase.flock b)

  unfoldable pub open_mem : Bytes → Command Os LockedDatabase
  open_mem name = do b ← Memfd.open_backend rwlock_size name; succeed (LockedDatabase.memfd b)

  unfoldable pub open_mmap : ℕ → Bytes → Command Os LockedDatabase
  open_mmap size name = do
    b ← Mmap.open_backend rwlock_size size name
    succeed (LockedDatabase.mmap b)

  -- The errors carry numbers in the place of texts.
  unfoldable pub open_db_loc : DbPath → Command Os LockedDatabase
  open_db_loc (DbPath.file p) = do create_parent p; open_file p
  open_db_loc (DbPath.shm name) = open_shm name
  open_db_loc (DbPath.mem name) = open_mem name
  open_db_loc (DbPath.mmap name none) = fail invalid_input
  open_db_loc (DbPath.mmap name (some size)) = open_mmap size name

  abbrev pub as_flock_too :
      {A : Type 0} → Outcome A × (FlockBackend × Os) → Outcome A × (LockedDatabase × Os)
  as_flock_too (result, (b, os)) = (result, (LockedDatabase.flock b, os))

  module _ (rkyv : Rkyv) where
    unfoldable pub read : Command (LockedDatabase × Os) DatabaseRepr
    read (LockedDatabase.flock b, os) = as_flock_too (Flock.read rkyv (b, os))
    read (LockedDatabase.memfd b, os) =
        beside (LockedDatabase.memfd b) (Memfd.read rwlock_size rkyv b os)
    read (LockedDatabase.mmap b, os) =
        beside (LockedDatabase.mmap b) (Mmap.read rwlock_size rkyv b os)

    unfoldable pub with_write :
        (DatabaseRepr → DatabaseRepr) → Command (LockedDatabase × Os) (Unit {0})
    with_write f (LockedDatabase.flock b, os) = as_flock_too (Flock.with_write rkyv f (b, os))
    with_write f (LockedDatabase.memfd b, os) =
        beside (LockedDatabase.memfd b) (Memfd.with_write rwlock_size rkyv f b os)
    with_write f (LockedDatabase.mmap b, os) =
        beside (LockedDatabase.mmap b) (Mmap.with_write rwlock_size rkyv f b os)

-- `shm_unlink`, whose errors are ignored
unfoldable pub unlink_shm : Bytes → Os → Os
unlink_shm name os = record os { objects = remove os.objects (shm_object_name name) }
