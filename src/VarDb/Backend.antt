-- ===== src/VarDb/Backend.antt =====
-- l_builtin/src/vardb.rs: the three backings of a database, and what their opening shares.
pub mod Flock
pub mod Memfd
pub mod Mmap
use l_builtin.Base.{
  ◌>>=◌, ◌>>◌, ℕ, ◌+◌, ◌^◌, Option, none, some, Bool, true, false, [], ◌∷◌, ◌&&◌, ◌==◌, Bytes, ok,
  err, Command, Outcome, if◌then◌else◌, ltb, leb, succeed, fail,
}
use l_builtin.VarDb.{DatabaseRepr, blob_offset_flock, Rkyv}
use l_builtin.VarDb.File.{len, set_len}
use l_builtin.VarDb.Blob.{init_or_check_magic, read_blob_into, write_blob_at}
use l_builtin.VarDb.Region.{read_blob_from_mem, write_blob_to_mem}
use l_builtin.VarDb.Os.{
  Os, Lockable, LockMode, on_file, on_region, may_fail, open_or_create, shm_open, memfd_create,
  mmap_anonymous,
}
use l_builtin.VarDb.Lock.{with_flock, with_rwlock, init_pshared_rwlock}

pub data DbPath : Type 0 where
  file shm mem : Bytes → DbPath
  mmap : Bytes → Option ℕ → DbPath

-- `EINVAL`
abbrev pub invalid_input : ℕ
invalid_input = 22

abbrev pub panic : ℕ
panic = 101

-- What a command on the system does beside a backing.
abbrev pub beside : {A B : Type 0} → B → Outcome A × Os → Outcome A × (B × Os)
beside backing (result, os) = (result, (backing, os))

abbrev pub on_os : {A B : Type 0} → (B → Command Os A) → Command (B × Os) A
on_os command (backing, os) = beside backing (command backing os)

pub record FlockState : Type 0 where
  pub inode : ℕ
  pub pid : ℕ

pub record FlockBackend : Type 0 where
  pub path : DbPath
  pub state : FlockState

pub record MemfdBackend : Type 0 where
  pub inode : ℕ
  pub name : Bytes

pub record MmapBackend : Type 0 where
  pub region : ℕ
  pub size : ℕ
  pub len_offset : ℕ
  pub name : Bytes

abbrev pub only_slashes : Bytes → Bool
only_slashes [] = true
only_slashes (b ∷ path) = b == b'/' && only_slashes path

-- `create_dir_all` of a path's parent, if there is one
abbrev pub create_parent : Bytes → Command Os (Unit {0})
create_parent path = if only_slashes path then succeed tt else may_fail

unfoldable pub shm_object_name : Bytes → Bytes
shm_object_name name = b'/' ∷ name

unfoldable pub open_flock_fd : DbPath → Command Os ℕ
open_flock_fd (DbPath.file path) = do
  create_parent path
  inode ← open_or_create path
  may_fail
  succeed inode
open_flock_fd (DbPath.shm name) = do
  inode ← shm_open (shm_object_name name)
  may_fail
  succeed inode
open_flock_fd (DbPath.mem name) = fail panic
open_flock_fd (DbPath.mmap name size) = fail panic

unfoldable pub open_flock_fd_checked : DbPath → Command Os ℕ
open_flock_fd_checked path = do
  inode ← open_flock_fd path
  on_file inode init_or_check_magic
  succeed inode

-- `ensure_high_fd` too
unfoldable pub memfd_create_fd : Command Os ℕ
memfd_create_fd = do inode ← memfd_create; may_fail; succeed inode

unfoldable pub anon_mmap : ℕ → Command Os ℕ
anon_mmap size = if size == 0 then fail invalid_input else mmap_anonymous size
