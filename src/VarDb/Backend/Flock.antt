-- ===== src/VarDb/Backend/Flock.antt =====
-- l_builtin/src/vardb.rs: `FlockBackend`, a file or a POSIX shared memory object under `flock`.
use l_builtin.Base.{◌>>=◌, ◌>>◌, ℕ, ◌==◌, ok, err, Command, Outcome, if◌then◌else◌}
use l_builtin.VarDb.{DatabaseRepr, blob_offset_flock, Rkyv}
use l_builtin.VarDb.Blob.{read_blob_into, write_blob_at}
use l_builtin.VarDb.Os.{Os, LockMode, on_file}
use l_builtin.VarDb.Lock.{with_flock}
use l_builtin.VarDb.Backend.{DbPath, FlockBackend, on_os, open_flock_fd_checked}

abbrev pub opened : DbPath → ℕ → Command Os FlockBackend
opened path inode os =
    (ok (record { path = path; state = record { inode = inode; pid = os.pid } }), os)

unfoldable pub open_backend : DbPath → Command Os FlockBackend
open_backend path = do inode ← open_flock_fd_checked path; opened path inode

abbrev pub reopened : FlockBackend → Outcome ℕ × Os → Outcome (Unit {0}) × (FlockBackend × Os)
reopened backing (ok inode, os) =
    (ok tt, (record backing { state = record { inode = inode; pid = os.pid } }, os))
reopened backing (err code, os) = (err code, (backing, os))

-- A process that was forked since the file was opened opens it again.
unfoldable pub refresh : Command (FlockBackend × Os) (Unit {0})
refresh (backing, os) =
    if backing.state.pid == os.pid
    then (ok tt, (backing, os))
    else reopened backing (open_flock_fd_checked backing.path os)

module _ (rkyv : Rkyv) where
  unfoldable pub read : Command (FlockBackend × Os) DatabaseRepr
  read = do
    refresh
    on_os (λ backing.
        with_flock backing.state.inode LockMode.shared
          (on_file backing.state.inode (read_blob_into rkyv blob_offset_flock)))

  unfoldable pub with_write : (DatabaseRepr → DatabaseRepr) → Command (FlockBackend × Os) (Unit {0})
  with_write f = do
    refresh
    on_os (λ backing. with_flock backing.state.inode LockMode.exclusive (do
      repr ← on_file backing.state.inode (read_blob_into rkyv blob_offset_flock)
      on_file backing.state.inode (write_blob_at rkyv (f repr) blob_offset_flock)))
