-- ===== src/VarDb/Cell/Flock.antt =====
-- l_builtin/src/vardb.rs: `FlockBackend` on a calm system keeps what a cell does, in a process that was
-- forked too.
use mathlib.Core.Path.{subst}
use l_builtin.Base.{
  ◌>>=◌, ◌>>◌, ℕ, ◌+◌, ◌≡◌, refl, sym, ◌∷◌, true, Bytes, ok, err, Command, Outcome, length, leb,
  take, Bool-cases, inl, inr, arith, ◌==◌, succeed,
}
use l_builtin.Base.Assoc.{bytes_eq, bytes_eq_iff, get, put, bytes_key, id_key}
use l_builtin.Base.Hoare.{Gives, gives_then, ok-injective, err-ok}
use l_builtin.VarDb.{DatabaseRepr, Rkyv, magic}
use l_builtin.VarDb.File.{read_exact_at}
use l_builtin.VarDb.Blob.{init_or_check_magic, classify_magic, read_blob_into, write_blob_at}
use l_builtin.VarDb.Header.{HasMagic, HasMagic-length}
use l_builtin.VarDb.Os.{
  Os, LockMode, Lockable, may_fail, on_file, open_or_create, shm_open, open_inode,
}
use l_builtin.VarDb.Lock.{flock, with_flock}
use l_builtin.VarDb.Backend.{
  DbPath, FlockBackend, open_flock_fd, open_flock_fd_checked, shm_object_name, create_parent,
  only_slashes, on_os,
}
use l_builtin.VarDb.Backend.Flock.{reopened, refresh, read, with_write}
use l_builtin.VarDb.Cell.Calm.{FileHas, on_file-Gives, may_fail-Gives, flock-Gives, guarded-Gives}
use l_builtin.VarDb.Cell.Contents.{calm_file, Shows}

-- What `FlockBackend` is made for.
abbrev pub IsFlockPath : DbPath → Type 0
IsFlockPath (DbPath.file path) = Unit {0}
IsFlockPath (DbPath.shm name) = Unit {0}
IsFlockPath (DbPath.mem name) = ⊥
IsFlockPath (DbPath.mmap name size) = ⊥

pub init_or_check_magic-calm :
    (content : Bytes)
    → HasMagic content
    → init_or_check_magic (calm_file content) ≡ (ok tt, calm_file content)
unfolding init_or_check_magic classify_magic read_exact_at
init_or_check_magic-calm content h =
    let long = HasMagic-length content h in
    let inside : leb (0 + 32) (length content) ≡ true = ground arith in
    let same : bytes_eq (take 32 content) magic ≡ true =
      (bytes_eq_iff (take 32 content) magic).1 h in
    rw (inside, same) refl

module _ (path : DbPath) (inode : ℕ) (content : Bytes) where
  abbrev Has : Os → Type 0
  Has = FileHas path inode content

  tolerant : Gives Has may_fail (ok tt) Has
  tolerant = may_fail-Gives Has (λ os h. h.1.0)

  pub same_value : {A : Type 0} (a : A) → Gives Has (succeed a) (ok a) Has
  same_value a = record { apply = λ os h. (refl, h) }

pub create_parent-Gives :
    (path : Bytes) (inode : ℕ) (content : Bytes)
    → Gives
        (Has (DbPath.file path) inode content)
        (create_parent path)
        (ok tt)
        (Has (DbPath.file path) inode content)
create_parent-Gives path inode content = elim (Bool-cases (only_slashes path)) [
  | inl e ↦ rw e (same_value (DbPath.file path) inode content tt)
  | inr e ↦ rw e (tolerant (DbPath.file path) inode content)
]

pub open_or_create-Gives :
    (path : Bytes) (inode : ℕ) (content : Bytes)
    → Gives
        (Has (DbPath.file path) inode content)
        (open_or_create path)
        (ok inode)
        (Has (DbPath.file path) inode content)
unfolding open_or_create
open_or_create-Gives path inode content =
    gives_then
      (λ _ os. open_inode (λ s i. record s { files = put s.files path i }) (get os.files path) os)
      tt (tolerant (DbPath.file path) inode content) (record { apply = λ os h. rw h.2 (refl, h) })

shm_open-Gives :
    (name : Bytes) (inode : ℕ) (content : Bytes)
    → Gives
        (Has (DbPath.shm name) inode content)
        (shm_open (shm_object_name name))
        (ok inode)
        (Has (DbPath.shm name) inode content)
unfolding shm_open shm_object_name
shm_open-Gives name inode content =
    gives_then
      (λ _ os.
        open_inode (λ s i. record s { objects = put s.objects (b'/' ∷ name) i })
          (get os.objects (b'/' ∷ name)) os)
      tt (tolerant (DbPath.shm name) inode content) (record { apply = λ os h. rw h.2 (refl, h) })

-- `ensure_high_fd`, behind the opening
abbrev pub ensured : ℕ → Command Os ℕ
ensured inode = do may_fail; succeed inode

pub ensured-Gives :
    (path : DbPath) (inode : ℕ) (content : Bytes)
    → Gives (Has path inode content) (ensured inode) (ok inode) (Has path inode content)
ensured-Gives path inode content =
    gives_then (λ _. succeed inode) tt (tolerant path inode content)
      (same_value path inode content inode)

open_flock_fd-Gives :
    (path : DbPath) (inode : ℕ) (content : Bytes)
    → IsFlockPath path
    → Gives (Has path inode content) (open_flock_fd path) (ok inode) (Has path inode content)
unfolding open_flock_fd
open_flock_fd-Gives (DbPath.file path) inode content h =
    gives_then (λ _. open_or_create path >>= ensured) tt (create_parent-Gives path inode content)
      (gives_then ensured inode (open_or_create-Gives path inode content)
        (ensured-Gives (DbPath.file path) inode content))
open_flock_fd-Gives (DbPath.shm name) inode content h =
    gives_then ensured inode (shm_open-Gives name inode content)
      (ensured-Gives (DbPath.shm name) inode content)
open_flock_fd-Gives (DbPath.mem path) inode content h = absurd h
open_flock_fd-Gives (DbPath.mmap path size) inode content h = absurd h

pub open_flock_fd_checked-Gives :
    (path : DbPath) (inode : ℕ) (content : Bytes)
    → IsFlockPath path
    → HasMagic content
    → Gives
        (Has path inode content)
        (open_flock_fd_checked path)
        (ok inode)
        (Has path inode content)
unfolding open_flock_fd_checked
open_flock_fd_checked-Gives path inode content h magic_kept =
    gives_then (λ i. on_file i init_or_check_magic >> succeed i) inode
      (open_flock_fd-Gives path inode content h)
      (gives_then (λ _. succeed inode) tt
        (on_file-Gives path inode content content init_or_check_magic (ok tt)
          (init_or_check_magic-calm content magic_kept))
        (same_value path inode content inode))

-- The backing has that path and that file, which has that content.
abbrev pub On : DbPath → ℕ → Bytes → FlockBackend × Os → Type 0
On path inode content (backing, os) =
    (backing.path ≡ path) × (backing.state.inode ≡ inode) × FileHas path inode content os

reopened-On :
    (path : DbPath) (inode : ℕ) (content : Bytes) (backing : FlockBackend) (r : Outcome ℕ × Os)
    → backing.path ≡ path
    → r.0 ≡ ok inode
    → FileHas path inode content r.1
    → ((reopened backing r).0 ≡ ok tt) × On path inode content (reopened backing r).1
reopened-On path inode content backing (ok i, os) p e h = (refl, (p, ok-injective i inode e, h))
reopened-On path inode content backing (err code, os) p e h =
    absurd (err-ok code inode (err code) refl e)

module _ (path : DbPath) (inode : ℕ) (content : Bytes) where
  refresh-Gives :
      IsFlockPath path
      → HasMagic content
      → Gives (On path inode content) refresh (ok tt) (On path inode content)
  unfolding refresh
  refresh-Gives h magic_kept = record {
    apply = λ s given. elim (Bool-cases (s.0.state.pid == s.1.pid)) [
      | inl e ↦ rw e (refl, given)
      | inr e ↦
          let r = (open_flock_fd_checked-Gives path inode content h magic_kept).apply s.1 given.2 in
          rw e (
            subst
              (λ p.
                let again = reopened s.0 (open_flock_fd_checked p s.1) in
                (again.0 ≡ ok tt) × On path inode content again.1)
              (sym given.0)
              (reopened-On path inode content s.0 (open_flock_fd_checked path s.1) given.0 r.0 r.1))
    ];
  }

  -- What is done under the lock of the file, after a refresh
  pub under_lock :
      {A : Type 0} (after : Bytes) (body : ℕ → Command Os A) (result : Outcome A) (mode : LockMode)
      → IsFlockPath path
      → HasMagic content
      → Gives (FileHas path inode content) (body inode) result (FileHas path inode after)
      → Gives
          (On path inode content)
          (refresh >> on_os (λ b. with_flock b.state.inode mode (body b.state.inode)))
          result
          (On path inode after)
  unfolding with_flock
  under_lock after body result mode h magic_kept inside =
      gives_then (λ _. on_os (λ b. with_flock b.state.inode mode (body b.state.inode))) tt
        (refresh-Gives h magic_kept)
        (record {
          apply = λ s given.
              let g =
                guarded-Gives (FileHas path inode content) (FileHas path inode after) flock
                  (Lockable.of_file inode) mode (body inode) result (λ os locks k. k)
                  (λ os locks k. k) (flock-Gives path inode content) inside in
              let r =
                subst
                  (λ i.
                    let locked = with_flock i mode (body i) s.1 in
                    (locked.0 ≡ result) × FileHas path inode after locked.1)
                  (sym given.1) (g.apply s.1 given.2) in
              (r.0, (given.0, given.1, r.1));
        })

module _ (rkyv : Rkyv) (path : DbPath) (inode : ℕ) (content : Bytes) (h : IsFlockPath path)
    (magic_kept : HasMagic content) (repr : DatabaseRepr) (shows : Shows rkyv 32 content repr) where
  seen :
      Gives
        (FileHas path inode content)
        (on_file inode (read_blob_into rkyv 32))
        (ok repr)
        (FileHas path inode content)
  seen = on_file-Gives path inode content content (read_blob_into rkyv 32) (ok repr) shows

  pub read-Gives : Gives (On path inode content) (read rkyv) (ok repr) (On path inode content)
  unfolding read
  read-Gives =
      under_lock path inode content content (λ i. on_file i (read_blob_into rkyv 32)) (ok repr)
        LockMode.shared h magic_kept seen

  pub with_write-Gives :
      (f : DatabaseRepr → DatabaseRepr) (after : Bytes) (result : Outcome (Unit {0}))
      → write_blob_at rkyv (f repr) 32 (calm_file content) ≡ (result, calm_file after)
      → Gives (On path inode content) (with_write rkyv f) result (On path inode after)
  unfolding with_write
  with_write-Gives f after result writes =
      under_lock path inode content after
        (λ i. on_file i (read_blob_into rkyv 32) >>= (λ r. on_file i (write_blob_at rkyv (f r) 32)))
        result LockMode.exclusive h magic_kept
        (gives_then (λ r. on_file inode (write_blob_at rkyv (f r) 32)) repr seen
          (on_file-Gives path inode content after (write_blob_at rkyv (f repr) 32) result writes))
