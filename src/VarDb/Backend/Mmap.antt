-- ===== src/VarDb/Backend/Mmap.antt =====
-- l_builtin/src/vardb.rs: `MmapBackend`, a region of memory of a fixed size that begins with its rwlock.
use l_builtin.Base.{
  ◌>>=◌, ◌>>◌, ℕ, ◌+◌, ◌^◌, Bytes, Command, if◌then◌else◌, ltb, leb, succeed, fail,
}
use l_builtin.VarDb.{DatabaseRepr, Rkyv}
use l_builtin.VarDb.Region.{read_blob_from_mem, write_blob_to_mem}
use l_builtin.VarDb.Os.{Os, Lockable, LockMode, on_region}
use l_builtin.VarDb.Lock.{with_rwlock, init_pshared_rwlock}
use l_builtin.VarDb.Backend.{MmapBackend, anon_mmap, invalid_input}

module _ (rwlock_size : ℕ) where
  unfoldable pub open_backend : ℕ → Bytes → Command Os MmapBackend
  open_backend size name =
      if leb (2 ^ 64) size
      then fail invalid_input
      else if ltb size (rwlock_size + 8 + 8)
      then fail invalid_input
      else do
        region ← anon_mmap size
        init_pshared_rwlock
        succeed (record { region = region; size = size; len_offset = rwlock_size; name = name })

  module _ (rkyv : Rkyv) where
    unfoldable pub read : MmapBackend → Command Os DatabaseRepr
    read backing =
        with_rwlock (Lockable.of_region backing.region) LockMode.shared
          (on_region backing.region (read_blob_from_mem rkyv backing.len_offset))

    unfoldable pub with_write : (DatabaseRepr → DatabaseRepr) → MmapBackend → Command Os (Unit {0})
    with_write f backing = with_rwlock (Lockable.of_region backing.region) LockMode.exclusive (do
      repr ← on_region backing.region (read_blob_from_mem rkyv backing.len_offset)
      on_region backing.region (write_blob_to_mem rkyv (f repr) backing.len_offset))
