-- ===== src/VarDb/Cell/Memory.antt =====
-- l_builtin/src/vardb.rs: `MemfdBackend` and `MmapBackend` on a calm system keep what a cell does.
use l_builtin.Base.{[], ◌>>=◌, ℕ, ◌≡◌, Bytes, ok, Command, Outcome}
use l_builtin.Base.Hoare.{Gives, gives_then}
use l_builtin.VarDb.{DatabaseRepr, Rkyv}
use l_builtin.VarDb.Blob.{read_blob_into, write_blob_at}
use l_builtin.VarDb.Region.{read_blob_from_mem, write_blob_to_mem}
use l_builtin.VarDb.Os.{Os, LockMode, Lockable, may_fail, on_file, on_region}
use l_builtin.VarDb.Lock.{with_rwlock}
use l_builtin.VarDb.Backend.{DbPath, MemfdBackend, MmapBackend}
use l_builtin.VarDb.Backend.Memfd
use l_builtin.VarDb.Backend.Mmap
use l_builtin.VarDb.Cell.Calm.{
  FileHas, RegionHas, IgnoresLocks, on_file-Gives, on_region-Gives, may_fail-Gives, guarded-Gives,
}
use l_builtin.VarDb.Cell.Contents.{calm_file, Shows}

-- What is done under the rwlock
under_rwlock :
    {A : Type 0} (before after : Os → Type 0) (on : Lockable) (mode : LockMode)
    (body : Command Os A) (result : Outcome A)
    → ((os : Os) → before os → os.faults ≡ [])
    → IgnoresLocks before
    → IgnoresLocks after
    → Gives before body result after
    → Gives before (with_rwlock on mode body) result after
unfolding with_rwlock
under_rwlock before after on mode body result calm lax_before lax_after inside =
    guarded-Gives before after may_fail on mode body result lax_before lax_after
      (may_fail-Gives before calm) inside

module _ (rwlock_size : ℕ) (rkyv : Rkyv) (path : DbPath) (backing : MemfdBackend) (content : Bytes)
    (repr : DatabaseRepr) (shows : Shows rkyv rwlock_size content repr) where
  abbrev Has : Bytes → Os → Type 0
  Has = FileHas path backing.inode

  abbrev on : Lockable
  on = Lockable.of_file backing.inode

  seen :
      Gives
        (Has content)
        (on_file backing.inode (read_blob_into rkyv rwlock_size))
        (ok repr)
        (Has content)
  seen =
      on_file-Gives path backing.inode content content (read_blob_into rkyv rwlock_size) (ok repr)
        shows

  pub memfd_read-Gives :
      Gives (Has content) (Memfd.read rwlock_size rkyv backing) (ok repr) (Has content)
  unfolding Memfd.read
  memfd_read-Gives =
      under_rwlock (Has content) (Has content) on LockMode.shared
        (on_file backing.inode (read_blob_into rkyv rwlock_size)) (ok repr) (λ os h. h.1.0)
        (λ os locks h. h) (λ os locks h. h) seen

  pub memfd_write-Gives :
      (f : DatabaseRepr → DatabaseRepr) (after : Bytes) (result : Outcome (Unit {0}))
      → write_blob_at rkyv (f repr) rwlock_size (calm_file content) ≡ (result, calm_file after)
      → Gives (Has content) (Memfd.with_write rwlock_size rkyv f backing) result (Has after)
  unfolding Memfd.with_write
  memfd_write-Gives f after result writes =
      under_rwlock (Has content) (Has after) on LockMode.exclusive
        (on_file backing.inode (read_blob_into rkyv rwlock_size)
          >>= (λ r. on_file backing.inode (write_blob_at rkyv (f r) rwlock_size)))
        result (λ os h. h.1.0) (λ os locks h. h) (λ os locks h. h)
        (gives_then (λ r. on_file backing.inode (write_blob_at rkyv (f r) rwlock_size)) repr seen
          (on_file-Gives path backing.inode content after (write_blob_at rkyv (f repr) rwlock_size)
            result writes))

module _ (rwlock_size : ℕ) (rkyv : Rkyv) (backing : MmapBackend) (mem : Bytes) (repr : DatabaseRepr)
    (shows : read_blob_from_mem rkyv backing.len_offset mem ≡ (ok repr, mem)) where
  abbrev region : ℕ
  region = backing.region

  seen_mem :
      Gives
        (RegionHas region mem)
        (on_region region (read_blob_from_mem rkyv backing.len_offset))
        (ok repr)
        (RegionHas region mem)
  seen_mem =
      on_region-Gives region mem mem (read_blob_from_mem rkyv backing.len_offset) (ok repr) shows

  pub mmap_read-Gives :
      Gives
        (RegionHas region mem)
        (Mmap.read rwlock_size rkyv backing)
        (ok repr)
        (RegionHas region mem)
  unfolding Mmap.read
  mmap_read-Gives =
      under_rwlock (RegionHas region mem) (RegionHas region mem) (Lockable.of_region region)
        LockMode.shared (on_region region (read_blob_from_mem rkyv backing.len_offset)) (ok repr)
        (λ os h. h.1.0) (λ os locks h. h) (λ os locks h. h) seen_mem

  pub mmap_write-Gives :
      (f : DatabaseRepr → DatabaseRepr) (after : Bytes) (result : Outcome (Unit {0}))
      → write_blob_to_mem rkyv (f repr) backing.len_offset mem ≡ (result, after)
      → Gives
          (RegionHas region mem)
          (Mmap.with_write rwlock_size rkyv f backing)
          result
          (RegionHas region after)
  unfolding Mmap.with_write
  mmap_write-Gives f after result writes =
      under_rwlock (RegionHas region mem) (RegionHas region after) (Lockable.of_region region)
        LockMode.exclusive
        (on_region region (read_blob_from_mem rkyv backing.len_offset)
          >>= (λ r. on_region region (write_blob_to_mem rkyv (f r) backing.len_offset)))
        result (λ os h. h.1.0) (λ os locks h. h) (λ os locks h. h)
        (gives_then (λ r. on_region region (write_blob_to_mem rkyv (f r) backing.len_offset)) repr
          seen_mem
          (on_region-Gives region mem after (write_blob_to_mem rkyv (f repr) backing.len_offset)
            result writes))
