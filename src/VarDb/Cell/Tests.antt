-- ===== src/VarDb/Cell/Tests.antt =====
-- Runs of databases on a small system (l_builtin/src/vardb.rs).
use l_builtin.VarDb.Backend.Memfd
use l_builtin.VarDb.Blob.{read_blob_into, read_blob_at, write_blob_at}
use l_builtin.VarDb.File.{read_exact_at, len, write_all_at, set_len, sync_all, written, resized}
use l_builtin.VarDb.Os.{may_fail, on_file}
use l_builtin.VarDb.Lock.{with_rwlock, guarded}
use l_builtin.VarDb.Cell.Contents.{Shows}
use l_builtin.Base.Assoc.{get, put}
use l_builtin.Base.{◌++◌, List, ◌≡◌, refl, none, some, [], ◌∷◌, err}
use l_builtin.VarDb.{DatabaseRepr, default_repr, magic}
use l_builtin.VarDb.Sample.{small_rkyv, small_rkyv-laws, one_var, one_bytes}
use l_builtin.VarDb.Os.{Os, LockAnswer}
use l_builtin.VarDb.Backend.{DbPath}
use l_builtin.VarDb.Database.{LockedDatabase, open_db_loc, read, with_write}
use l_builtin.VarDb.Cell.{Use}
use l_builtin.VarDb.Cell.Opened.{IsCell, open_db_loc-created, open_db_loc-reopened}
use l_builtin.VarDb.Released.{read-with_write-held}

-- Nothing exists yet, and the second lock is interrupted once.
abbrev empty_os : Os
empty_os = record {
  inodes = [];
  files = [];
  objects = [];
  next_inode = 3;
  regions = [];
  next_region = 7;
  pid = 100;
  held = [];
  last_error = 0;
  faults = [];
  flocks = LockAnswer.acquired ∷ LockAnswer.interrupted ∷ LockAnswer.acquired ∷ [];
}

abbrev set_one : DatabaseRepr → DatabaseRepr
set_one repr = one_var

-- A child writes what its parent reads back in a grandchild.
abbrev uses : List Use
uses = Use.read ∷ Use.fork 101 ∷ Use.write set_one ∷ Use.fork 102 ∷ Use.read ∷ []

abbrev object : DbPath
object = DbPath.shm (b'V' ∷ [])

open_db_loc-created_example :
    IsCell 56 small_rkyv
      (record { value = default_repr; room = none })
      uses
      (open_db_loc 56 object empty_os)
unfolding get
open_db_loc-created_example =
    open_db_loc-created 56 small_rkyv small_rkyv-laws object empty_os uses (refl, tt) refl tt

-- Another process left one variable in the object.
abbrev shared_os : Os
shared_os = record empty_os {
  inodes = (3, magic ++ one_bytes) ∷ [];
  objects = ((b'/' ∷ b'V' ∷ []), 3) ∷ [];
  next_inode = 4;
}

shows : Shows small_rkyv 32 (magic ++ one_bytes) one_var
unfolding read_blob_into read_blob_at read_exact_at len
shows = refl

open_db_loc-reopened_example :
    IsCell 56 small_rkyv
      (record { value = one_var; room = none })
      uses
      (open_db_loc 56 object shared_os)
unfolding get
open_db_loc-reopened_example =
    open_db_loc-reopened 56 small_rkyv small_rkyv-laws object 3 (magic ++ one_bytes) one_var
      shared_os uses tt refl shows (refl, (refl, tt), refl)

-- The write of the blob fails after two bytes.
abbrev failing_os : Os
failing_os = record shared_os { faults = none ∷ none ∷ none ∷ none ∷ some 2 ∷ [] }

abbrev memory : LockedDatabase × Os
memory = (LockedDatabase.memfd (record { inode = 3; name = b'V' ∷ [] }), failing_os)

read-with_write-held_example :
    ((read 32 small_rkyv memory).1.1.held ≡ [])
    × ((with_write 32 small_rkyv set_one memory).1.1.held ≡ [])
read-with_write-held_example = read-with_write-held 32 small_rkyv memory set_one

fails_midway : (with_write 32 small_rkyv set_one memory).0 ≡ err 5
unfolding with_write Memfd.with_write with_rwlock guarded may_fail on_file read_blob_into
    read_blob_at read_exact_at len write_blob_at write_all_at set_len sync_all get put written
    resized
fails_midway = refl
