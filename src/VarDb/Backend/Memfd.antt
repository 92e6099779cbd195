-- ===== src/VarDb/Backend/Memfd.antt =====
-- l_builtin/src/vardb.rs: `MemfdBackend`, a file in memory that begins with its rwlock.
use l_builtin.Base.{◌>>=◌, ◌>>◌, ℕ, Bytes, Command, if◌then◌else◌, ltb, succeed}
use l_builtin.VarDb.{DatabaseRepr, Rkyv}
use l_builtin.VarDb.File.{len, set_len}
use l_builtin.VarDb.Blob.{read_blob_into, write_blob_at}
use l_builtin.VarDb.Os.{Os, Lockable, LockMode, on_file, may_fail}
use l_builtin.VarDb.Lock.{with_rwlock, init_pshared_rwlock}
use l_builtin.VarDb.Backend.{MemfdBackend, memfd_create_fd}

module _ (rwlock_size : ℕ) where
  abbrev pub long_enough : ℕ → ℕ → Command Os (Unit {0})
  long_enough inode n =
      if ltb n rwlock_size then on_file inode (set_len rwlock_size) else succeed tt

  -- the `mmap` of the rwlock is the second call that may fail
  unfoldable pub open_backend : Bytes → Command Os MemfdBackend
  open_backend name = do
    inode ← memfd_create_fd
    n ← on_file inode len
    long_enough inode n
    may_fail
    init_pshared_rwlock
    succeed (record { inode = inode; name = name })

  module _ (rkyv : Rkyv) where
    unfoldable pub read : MemfdBackend → Command Os DatabaseRepr
    read backing =
        with_rwlock (Lockable.of_file backing.inode) LockMode.shared
          (on_file backing.inode (read_blob_into rkyv rwlock_size))

    unfoldable pub with_write : (DatabaseRepr → DatabaseRepr) → MemfdBackend → Command Os (Unit {0})
    with_write f backing = with_rwlock (Lockable.of_file backing.inode) LockMode.exclusive (do
      repr ← on_file backing.inode (read_blob_into rkyv rwlock_size)
      on_file backing.inode (write_blob_at rkyv (f repr) rwlock_size))
