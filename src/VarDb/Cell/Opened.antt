-- ===== src/VarDb/Cell/Opened.antt =====
-- l_builtin/src/vardb.rs: an opened database is a cell - an empty one where it was just created, and one
-- of what another process wrote where its file was there.
use l_builtin.Base.{
  ◌>>◌, ℕ, ◌+◌, ◌-◌, ◌≡◌, ◌≤◌, ◌<◌, ◌^◌, refl, Option, none, some, List, [], ◌∷◌, Bytes, ok, err,
  Outcome, and_then, succeed, arith, length, length-replicate, Bool-cases, inl, inr,
}
use l_builtin.Base.Assoc.{get, bytes_key, id_key}
use l_builtin.Base.Hoare.{Gives, gives_then, ok-injective, err-ok}
use l_builtin.VarDb.{DatabaseRepr, Rkyv, RkyvLaws, magic, default_repr}
use l_builtin.VarDb.File.{write_all_at, set_len, sync_all, read_exact_at, written, resized, len}
use l_builtin.VarDb.Blob.{
  init_or_check_magic, classify_magic, init_magic_and_truncate, read_blob_into, read_blob_at,
}
use l_builtin.VarDb.Header.{HasMagic}
use l_builtin.VarDb.Os.{Os, may_fail, on_file, open_or_create, shm_open}
use l_builtin.VarDb.Backend.{
  DbPath, open_flock_fd, open_flock_fd_checked, create_parent, only_slashes, shm_object_name,
}
use l_builtin.VarDb.Backend.Flock.{opened}
use l_builtin.VarDb.Backend.Flock
use l_builtin.VarDb.Database.{LockedDatabase, open_db_loc, open_file, open_shm, open_mem, open_mmap}
use l_builtin.VarDb.Cell.{Cell, Use, use_cells}
use l_builtin.VarDb.Cell.Calm.{
  FileHas, RegionHas, IsCalm, may_fail-Gives, on_file-Gives, get-put_same, get-put_name,
}
use l_builtin.VarDb.Cell.Contents.{Shows}
use l_builtin.VarDb.Cell.Flock.{
  IsFlockPath, open_flock_fd_checked-Gives, create_parent-Gives, ensured, ensured-Gives,
}
use l_builtin.VarDb.Cell.Created.{
  With, backend, mapped, succeed-Gives, first_content, open_memfd-Gives, Shows-first,
  open_mmap-Gives, Shows-zeros, nuls,
}
use l_builtin.VarDb.Cell.Refinement.{Represents, use_databases, use_databases-use_cells}

-- No file has the name yet.
abbrev pub IsUnused : DbPath → Os → Type 0
IsUnused (DbPath.file path) os = get os.files path ≡ none
IsUnused (DbPath.shm name) os = get os.objects (b'/' ∷ name) ≡ none
IsUnused (DbPath.mem name) os = Unit {0}
IsUnused (DbPath.mmap name size) os = Unit {0}

abbrev Fresh : DbPath → ℕ → Os → Type 0
Fresh path n os = (os.next_inode ≡ n) × IsCalm os × IsUnused path os

calm_call : (path : DbPath) (n : ℕ) → Gives (Fresh path n) may_fail (ok tt) (Fresh path n)
calm_call path n = may_fail-Gives (Fresh path n) (λ os h. h.1.0)

parent_made :
    (path : Bytes) (n : ℕ)
    → Gives (Fresh (DbPath.file path) n) (create_parent path) (ok tt) (Fresh (DbPath.file path) n)
parent_made path n = elim (Bool-cases (only_slashes path)) [
  | inl e ↦ rw e (record { apply = λ os h. (refl, h) })
  | inr e ↦ rw e (calm_call (DbPath.file path) n)
]

file_created :
    (path : Bytes) (n : ℕ)
    → Gives
        (Fresh (DbPath.file path) n)
        (open_or_create path)
        (ok n)
        (FileHas (DbPath.file path) n [])
unfolding open_or_create
file_created path n = gives_then _ tt (calm_call (DbPath.file path) n) (record {
  apply = λ os h.
      rw (h.2, h.0) (refl, (get-put_same os.inodes n [], h.1, get-put_name os.files path n));
})

object_created :
    (name : Bytes) (n : ℕ)
    → Gives
        (Fresh (DbPath.shm name) n)
        (shm_open (shm_object_name name))
        (ok n)
        (FileHas (DbPath.shm name) n [])
unfolding shm_open shm_object_name
object_created name n = gives_then _ tt (calm_call (DbPath.shm name) n) (record {
  apply = λ os h.
      rw (h.2, h.0)
        (refl, (get-put_same os.inodes n [], h.1, get-put_name os.objects (b'/' ∷ name) n));
})

opened_empty :
    (path : DbPath) (n : ℕ)
    → IsFlockPath path
    → Gives (Fresh path n) (open_flock_fd path) (ok n) (FileHas path n [])
unfolding open_flock_fd
opened_empty (DbPath.file path) n h =
    gives_then _ tt (parent_made path n)
      (gives_then ensured n (file_created path n) (ensured-Gives (DbPath.file path) n []))
opened_empty (DbPath.shm name) n h =
    gives_then ensured n (object_created name n) (ensured-Gives (DbPath.shm name) n [])
opened_empty (DbPath.mem name) n h = absurd h
opened_empty (DbPath.mmap name size) n h = absurd h

stamped :
    (path : DbPath) (n : ℕ)
    → IsFlockPath path
    → Gives (Fresh path n) (open_flock_fd_checked path) (ok n) (FileHas path n magic)
unfolding open_flock_fd_checked init_or_check_magic classify_magic init_magic_and_truncate
    read_exact_at write_all_at set_len sync_all written resized
stamped path n h =
    gives_then (λ i. on_file i init_or_check_magic >> succeed i) n (opened_empty path n h)
      (gives_then _ tt (on_file-Gives path n [] magic init_or_check_magic (ok tt) refl)
        (record { apply = λ os given. (refl, given) }))

abbrev unbounded : DatabaseRepr → Cell
unbounded repr = record { value = repr; room = none }

module _ (rwlock_size : ℕ) (rkyv : Rkyv) where
  -- An opening without an error, and the database represents that cell.
  abbrev pub IsOpening : Cell → Outcome LockedDatabase × Os → Type 0
  IsOpening cell r =
      (db : LockedDatabase) × (r.0 ≡ ok db) × Represents rwlock_size rkyv (db, r.1) cell

  module _ (path : DbPath) (n : ℕ) (content : Bytes) (repr : DatabaseRepr) (h : IsFlockPath path)
      (magic_kept : HasMagic content) (shows : Shows rkyv 32 content repr) where
    flock-IsOpening :
        (x : Outcome ℕ × Os)
        → x.0 ≡ ok n
        → FileHas path n content x.1
        → IsOpening
            (unbounded repr)
            (and_then (and_then x (opened path)) (λ b. succeed (LockedDatabase.flock b)))
    flock-IsOpening (ok i, os) e has =
        (_, refl, (path, n, content, h, magic_kept, shows, (refl, ok-injective i n e, has), refl))
    flock-IsOpening (err code, os) e has = absurd (err-ok code n (err code) refl e)

    open_backend-IsOpening :
        (before : Os → Type 0)
        → Gives before (open_flock_fd_checked path) (ok n) (FileHas path n content)
        → (os : Os) → before os
        → IsOpening
            (unbounded repr)
            (and_then (Flock.open_backend path os) (λ b. succeed (LockedDatabase.flock b)))
    unfolding Flock.open_backend
    open_backend-IsOpening before gives os given =
        let r = gives.apply os given in flock-IsOpening (open_flock_fd_checked path os) r.0 r.1

  after_parent :
      (path : Bytes) (n : ℕ) (content : Bytes) (repr : DatabaseRepr) (before : Os → Type 0)
      → HasMagic content
      → Shows rkyv 32 content repr
      → Gives before
          (open_flock_fd_checked (DbPath.file path))
          (ok n)
          (FileHas (DbPath.file path) n content)
      → (x : Outcome (Unit {0}) × Os) → x.0 ≡ ok tt
      → before x.1
      → IsOpening (unbounded repr) (and_then x (λ _. open_file rwlock_size path))
  unfolding open_file
  after_parent path n content repr before magic_kept shows gives (ok u, os) e h =
      open_backend-IsOpening (DbPath.file path) n content repr tt magic_kept shows before gives os h
  after_parent path n content repr before magic_kept shows gives (err code, os) e h =
      absurd (err-ok code tt (err code) refl e)

  reopens :
      (path : DbPath) (n : ℕ) (content : Bytes) (repr : DatabaseRepr) (os : Os)
      → IsFlockPath path
      → HasMagic content
      → Shows rkyv 32 content repr
      → FileHas path n content os
      → IsOpening (unbounded repr) (open_db_loc rwlock_size path os)
  unfolding open_db_loc open_shm
  reopens (DbPath.file path) n content repr os h magic_kept shows has =
      let made = (create_parent-Gives path n content).apply os has in
      after_parent path n content repr (FileHas (DbPath.file path) n content) magic_kept shows
        (open_flock_fd_checked-Gives (DbPath.file path) n content tt magic_kept)
        (create_parent path os) made.0 made.1
  reopens (DbPath.shm name) n content repr os h magic_kept shows has =
      open_backend-IsOpening (DbPath.shm name) n content repr tt magic_kept shows
        (FileHas (DbPath.shm name) n content)
        (open_flock_fd_checked-Gives (DbPath.shm name) n content tt magic_kept) os has
  reopens (DbPath.mem name) n content repr os h magic_kept shows has = absurd h
  reopens (DbPath.mmap name size) n content repr os h magic_kept shows has = absurd h

  Shows-magic : Shows rkyv 32 magic default_repr
  unfolding read_blob_into read_blob_at len
  Shows-magic = refl

  -- A region has a size for its rwlock, a length and a root pointer, and less than half the address
  -- space.
  abbrev pub CanCreate : DbPath → Type 0
  CanCreate (DbPath.file path) = Unit {0}
  CanCreate (DbPath.shm name) = Unit {0}
  CanCreate (DbPath.mem name) = Unit {0}
  CanCreate (DbPath.mmap name none) = ⊥
  CanCreate (DbPath.mmap name (some size)) = (rwlock_size + 16 ≤ size) × (size < 2 ^ 63)

  abbrev pub room_of : DbPath → Option ℕ
  room_of (DbPath.file path) = none
  room_of (DbPath.shm name) = none
  room_of (DbPath.mem name) = none
  room_of (DbPath.mmap name none) = none
  room_of (DbPath.mmap name (some size)) = some (size - (rwlock_size + 8))

  creates :
      (path : DbPath) (os : Os)
      → IsCalm os
      → IsUnused path os
      → CanCreate path
      → IsOpening
          (record { value = default_repr; room = room_of path })
          (open_db_loc rwlock_size path os)
  unfolding open_db_loc open_shm open_mem open_mmap
  creates (DbPath.file path) os calm unused can =
      let n = os.next_inode in
      let made = (parent_made path n).apply os (refl, calm, unused) in
      after_parent path n magic default_repr (Fresh (DbPath.file path) n) refl Shows-magic
        (stamped (DbPath.file path) n tt) (create_parent path os) made.0 made.1
  creates (DbPath.shm name) os calm unused can =
      let n = os.next_inode in
      open_backend-IsOpening (DbPath.shm name) n magic default_repr tt refl Shows-magic
        (Fresh (DbPath.shm name) n) (stamped (DbPath.shm name) n tt) os (refl, calm, unused)
  creates (DbPath.mem name) os calm unused can =
      let n = os.next_inode in
      let r =
        (gives_then (λ b. succeed (LockedDatabase.memfd b)) (backend rwlock_size rkyv name n)
            (open_memfd-Gives rwlock_size rkyv name n)
            (succeed-Gives (With rwlock_size rkyv name n (first_content rwlock_size rkyv name n))
              (LockedDatabase.memfd (backend rwlock_size rkyv name n)))).apply
          os (refl, calm) in
      (
        _,
        r.0,
        (first_content rwlock_size rkyv name n, Shows-first rwlock_size rkyv name n, r.1, refl),
      )
  creates (DbPath.mmap name none) os calm unused can = absurd can
  creates (DbPath.mmap name (some size)) os calm unused can =
      let n = os.next_region in
      let b = mapped rwlock_size rkyv name size n can.0 can.1 in
      let r =
        (gives_then (λ b. succeed (LockedDatabase.mmap b)) b
            (open_mmap-Gives rwlock_size rkyv name size n can.0 can.1)
            (succeed-Gives (RegionHas n (nuls size)) (LockedDatabase.mmap b))).apply
          os (refl, calm) in
      let long : length (nuls size) ≡ size = length-replicate size 0 in
      (
        _,
        r.0,
        (
          nuls size,
          Shows-zeros rwlock_size rkyv name size n can.0 can.1,
          r.1,
          rw long (omega arith),
          rw long can.1,
          rw long refl,
        ),
      )

  abbrev pub IsCell : Cell → List Use → Outcome LockedDatabase × Os → Type 0
  IsCell cell calls r =
      (db : LockedDatabase) × (r.0 ≡ ok db)
      × (use_databases rwlock_size rkyv calls (db, r.1) ≡ use_cells rkyv calls cell)

  module _ (laws : RkyvLaws rkyv) where
    is_cell :
        (cell : Cell) (calls : List Use) (r : Outcome LockedDatabase × Os)
        → IsOpening cell r
        → IsCell cell calls r
    is_cell cell calls r (db, e, represents) =
        (db, e, use_databases-use_cells rwlock_size rkyv laws calls (db, r.1) cell represents)

    -- On a calm system, a database that is created - a file or an object whose name is not taken, memory,
    -- or a region of enough bytes - is an empty cell: it replies to any reads, writes and forks as a
    -- cell that holds no variable, with the room that a region leaves. The serializer keeps to its laws.
    pub open_db_loc-created :
        (path : DbPath) (os : Os) (calls : List Use)
        → IsCalm os
        → IsUnused path os
        → CanCreate path
        → IsCell
            (record { value = default_repr; room = room_of path })
            calls
            (open_db_loc rwlock_size path os)
    open_db_loc-created path os calls calm unused can =
        is_cell (record { value = default_repr; room = room_of path }) calls
          (open_db_loc rwlock_size path os) (creates path os calm unused can)

    -- On a calm system, a file or an object that is there with its header is opened with what it holds,
    -- and is a cell of that.
    pub open_db_loc-reopened :
        (path : DbPath) (n : ℕ) (content : Bytes) (repr : DatabaseRepr) (os : Os) (calls : List Use)
        → IsFlockPath path
        → HasMagic content
        → Shows rkyv 32 content repr
        → FileHas path n content os
        → IsCell (unbounded repr) calls (open_db_loc rwlock_size path os)
    open_db_loc-reopened path n content repr os calls h magic_kept shows has =
        is_cell (unbounded repr) calls (open_db_loc rwlock_size path os)
          (reopens path n content repr os h magic_kept shows has)
