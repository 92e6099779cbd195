-- ===== src/VarDb/Released.antt =====
-- l_builtin/src/vardb.rs: the guards give every lock back.
use l_builtin.Base.{
  ◌>>=◌, ◌>>◌, ℕ, ◌≡◌, refl, ap, ◌∙◌, Option, none, some, List, [], ◌∷◌, Bytes, ok, err, Command,
  Outcome, and_then, succeed, Bool-cases, inl, inr, ◌==◌,
}
use l_builtin.Base.Assoc.{get, put, id_key, bytes_key}
use l_builtin.VarDb.{DatabaseRepr, Rkyv}
use l_builtin.VarDb.File.{File}
use l_builtin.VarDb.Blob.{init_or_check_magic, read_blob_into, write_blob_at}
use l_builtin.VarDb.Region.{read_blob_from_mem, write_blob_to_mem}
use l_builtin.VarDb.Os.{
  Os, LockAnswer, Lockable, LockMode, answer, may_fail, on_file, on_region, open_or_create,
  shm_open, open_inode,
}
use l_builtin.VarDb.Lock.{
  flock, flock_loop, hold, released, without_first, guarded, with_flock, with_rwlock,
}
use l_builtin.VarDb.Backend.{
  DbPath, FlockBackend, open_flock_fd, open_flock_fd_checked, create_parent, only_slashes, on_os,
  shm_object_name,
}
use l_builtin.VarDb.Backend.Flock.{refresh, reopened}
use l_builtin.VarDb.Backend.Flock
use l_builtin.VarDb.Backend.Memfd
use l_builtin.VarDb.Backend.Mmap
use l_builtin.VarDb.Database.{LockedDatabase, read, with_write}

-- A command that leaves the locks as they were held, however it ends
abbrev pub KeepsLocks : {A : Type 0} → Command Os A → Type 0
KeepsLocks command = (os : Os) → (command os).1.held ≡ os.held

may_fail-keeps : KeepsLocks may_fail
unfolding may_fail
may_fail-keeps os = go os.faults
  where
    go : (faults : List (Option ℕ)) → (answer faults os).1.held ≡ os.held
    go [] = refl
    go (none ∷ rest) = refl
    go (some n ∷ rest) = refl

flock-keeps : KeepsLocks flock
unfolding flock
flock-keeps os = go os.flocks
  where
    go : (answers : List LockAnswer) → (flock_loop answers os).1.held ≡ os.held
    go [] = refl
    go (LockAnswer.acquired ∷ rest) = refl
    go (LockAnswer.interrupted ∷ rest) = go rest
    go (LockAnswer.refused code ∷ rest) = refl

on_file-keeps :
    {A : Type 0} (inode : ℕ) (command : Command File A) → KeepsLocks (on_file inode command)
unfolding on_file
on_file-keeps inode command os = refl

on_region-keeps :
    {A : Type 0} (region : ℕ) (command : Command Bytes A) → KeepsLocks (on_region region command)
unfolding on_region
on_region-keeps region command os = refl

then_keeps :
    {A B : Type 0} (first : Command Os A) (rest : A → Command Os B)
    → KeepsLocks first
    → ((a : A) → KeepsLocks (rest a))
    → KeepsLocks (first >>= rest)
then_keeps {A} {B} first rest one two os = go (first os) (one os)
  where
    go : (x : Outcome A × Os) → x.1.held ≡ os.held → (and_then x rest).1.held ≡ os.held
    go (ok a, s) e = two a s ∙ e
    go (err code, s) e = e

guarded-keeps :
    {A : Type 0} (acquire : Command Os (Unit {0})) (on : Lockable) (mode : LockMode)
    (body : Command Os A)
    → KeepsLocks acquire
    → KeepsLocks body
    → KeepsLocks (guarded acquire on mode body)
unfolding guarded
guarded-keeps acquire on mode body one two =
    then_keeps acquire (λ _. hold on mode >> (λ os. released (body os))) one
      (λ _ os. ap without_first (two (record os { held = (on, mode) ∷ os.held })))

open_inode-keeps :
    (named : Os → ℕ → Os) (found : Option ℕ)
    → ((os : Os) (n : ℕ) → (named os n).held ≡ os.held)
    → KeepsLocks (open_inode named found)
open_inode-keeps named none same os = same _ os.next_inode
open_inode-keeps named (some inode) same os = refl

succeed-keeps : {A : Type 0} (a : A) → KeepsLocks (succeed a)
succeed-keeps a os = refl

create_parent-keeps : (path : Bytes) → KeepsLocks (create_parent path)
create_parent-keeps path os = elim (Bool-cases (only_slashes path)) [
  | inl e ↦ rw e refl
  | inr e ↦ rw e (may_fail-keeps os)
]

-- `ensure_high_fd`, behind an opening
then_high :
    (open_it : Command Os ℕ)
    → KeepsLocks open_it
    → KeepsLocks (do inode ← open_it; may_fail; succeed inode)
then_high open_it one =
    then_keeps open_it (λ inode. may_fail >> succeed inode) one
      (λ inode. then_keeps may_fail (λ _. succeed inode) may_fail-keeps (λ _. succeed-keeps inode))

open_or_create-keeps : (path : Bytes) → KeepsLocks (open_or_create path)
unfolding open_or_create
open_or_create-keeps path = then_keeps may_fail _ may_fail-keeps (λ _ os.
    open_inode-keeps (λ s inode. record s { files = put s.files path inode }) (get os.files path)
      (λ s n. refl) os)

shm_open-keeps : (object : Bytes) → KeepsLocks (shm_open object)
unfolding shm_open
shm_open-keeps object = then_keeps may_fail _ may_fail-keeps (λ _ os.
    open_inode-keeps (λ s inode. record s { objects = put s.objects object inode })
      (get os.objects object) (λ s n. refl) os)

open_flock_fd-keeps : (path : DbPath) → KeepsLocks (open_flock_fd path)
unfolding open_flock_fd
open_flock_fd-keeps (DbPath.file path) =
    then_keeps (create_parent path) _ (create_parent-keeps path)
      (λ _. then_high (open_or_create path) (open_or_create-keeps path))
open_flock_fd-keeps (DbPath.shm name) =
    then_high (shm_open (shm_object_name name)) (shm_open-keeps (shm_object_name name))
open_flock_fd-keeps (DbPath.mem name) = λ os. refl
open_flock_fd-keeps (DbPath.mmap name size) = λ os. refl

open_flock_fd_checked-keeps : (path : DbPath) → KeepsLocks (open_flock_fd_checked path)
unfolding open_flock_fd_checked
open_flock_fd_checked-keeps path =
    then_keeps (open_flock_fd path) (λ inode. on_file inode init_or_check_magic >> succeed inode)
      (open_flock_fd-keeps path)
      (λ inode.
        then_keeps (on_file inode init_or_check_magic) (λ _. succeed inode)
          (on_file-keeps inode init_or_check_magic) (λ _. succeed-keeps inode))

-- The same, of a command that may change the backing too
abbrev KeepsBeside : {A : Type 0} → Command (FlockBackend × Os) A → Type 0
KeepsBeside command = (s : FlockBackend × Os) → (command s).1.1.held ≡ s.1.held

refresh-keeps : KeepsBeside refresh
unfolding refresh
refresh-keeps s = elim (Bool-cases (s.0.state.pid == s.1.pid)) [
  | inl e ↦ rw e refl
  | inr e ↦
      rw e (go (open_flock_fd_checked s.0.path s.1) (open_flock_fd_checked-keeps s.0.path s.1))
]
  where
    go : (x : Outcome ℕ × Os) → x.1.held ≡ s.1.held → (reopened s.0 x).1.1.held ≡ s.1.held
    go (ok inode, os) e = e
    go (err code, os) e = e

refreshed :
    {A : Type 0} (body : FlockBackend → Command Os A)
    → ((b : FlockBackend) → KeepsLocks (body b))
    → KeepsBeside (refresh >> on_os body)
refreshed {A} body keeps s = go (refresh s) (refresh-keeps s)
  where
    go :
        (x : Outcome (Unit {0}) × (FlockBackend × Os))
        → x.1.1.held ≡ s.1.held
        → (and_then x (λ _. on_os body)).1.1.held ≡ s.1.held
    go (ok u, t) e = keeps t.0 t.1 ∙ e
    go (err code, t) e = e

-- A read of a blob, and a write of what comes from it
module _ (rwlock_size : ℕ) (rkyv : Rkyv) where
  update_file :
      (inode offset : ℕ) (f : DatabaseRepr → DatabaseRepr)
      → KeepsLocks (do
        repr ← on_file inode (read_blob_into rkyv offset)
        on_file inode (write_blob_at rkyv (f repr) offset))
  update_file inode offset f =
      then_keeps (on_file inode (read_blob_into rkyv offset))
        (λ repr. on_file inode (write_blob_at rkyv (f repr) offset))
        (on_file-keeps inode (read_blob_into rkyv offset))
        (λ repr. on_file-keeps inode (write_blob_at rkyv (f repr) offset))

  -- Whatever fails - a call of the system, a lock, the serializer - and at whichever point, a read and a
  -- write of any database leave the locks that are held as they were.
  pub read-with_write-held :
      (s : LockedDatabase × Os) (f : DatabaseRepr → DatabaseRepr)
      → ((read rwlock_size rkyv s).1.1.held ≡ s.1.held)
        × ((with_write rwlock_size rkyv f s).1.1.held ≡ s.1.held)
  unfolding read with_write Flock.read Flock.with_write Memfd.read Memfd.with_write Mmap.read
      Mmap.with_write with_flock with_rwlock
  read-with_write-held (LockedDatabase.flock b, os) f = (
    refreshed
        (λ b.
          with_flock b.state.inode LockMode.shared (on_file b.state.inode (read_blob_into rkyv 32)))
        (λ b.
          guarded-keeps flock (Lockable.of_file b.state.inode) LockMode.shared
            (on_file b.state.inode (read_blob_into rkyv 32)) flock-keeps
            (on_file-keeps b.state.inode (read_blob_into rkyv 32)))
        (b, os),
    refreshed
        (λ b. with_flock b.state.inode LockMode.exclusive (do
          repr ← on_file b.state.inode (read_blob_into rkyv 32)
          on_file b.state.inode (write_blob_at rkyv (f repr) 32)))
        (λ b.
          guarded-keeps flock (Lockable.of_file b.state.inode) LockMode.exclusive _ flock-keeps
            (update_file b.state.inode 32 f))
        (b, os),
  )
  read-with_write-held (LockedDatabase.memfd b, os) f = (
    guarded-keeps may_fail (Lockable.of_file b.inode) LockMode.shared
        (on_file b.inode (read_blob_into rkyv rwlock_size)) may_fail-keeps
        (on_file-keeps b.inode (read_blob_into rkyv rwlock_size)) os,
    guarded-keeps may_fail (Lockable.of_file b.inode) LockMode.exclusive _ may_fail-keeps
        (update_file b.inode rwlock_size f) os,
  )
  read-with_write-held (LockedDatabase.mmap b, os) f = (
    guarded-keeps may_fail (Lockable.of_region b.region) LockMode.shared
        (on_region b.region (read_blob_from_mem rkyv b.len_offset)) may_fail-keeps
        (on_region-keeps b.region (read_blob_from_mem rkyv b.len_offset)) os,
    guarded-keeps may_fail (Lockable.of_region b.region) LockMode.exclusive _ may_fail-keeps
        (then_keeps (on_region b.region (read_blob_from_mem rkyv b.len_offset))
          (λ repr. on_region b.region (write_blob_to_mem rkyv (f repr) b.len_offset))
          (on_region-keeps b.region (read_blob_from_mem rkyv b.len_offset))
          (λ repr. on_region-keeps b.region (write_blob_to_mem rkyv (f repr) b.len_offset)))
        os,
  )
