-- ===== src/VarDb/Blob.antt =====
-- l_builtin/src/vardb.rs: the header and the blob of a file or a POSIX shared memory object.
use l_builtin.Base.{
  ◌>>=◌, ◌>>◌, ℕ, ◌+◌, ◌-◌, Option, none, some, Bytes, length, Command, if◌then◌else◌, leb, ltb,
  succeed, fail,
}
use l_builtin.Base.Assoc.{bytes_eq}
use l_builtin.VarDb.{DatabaseRepr, default_repr, magic, magic_size, blob_offset_flock, Rkyv}
use l_builtin.VarDb.File.{
  File, input_output_error, write_all_at, set_len, sync_all, len, read_exact_at,
}

pub data MagicStatus : Type 0 where
  matches fresh mismatch : MagicStatus

abbrev pub status_of : Option Bytes → MagicStatus
status_of none = MagicStatus.fresh
status_of (some buf) = if bytes_eq buf magic then MagicStatus.matches else MagicStatus.mismatch

unfoldable pub classify_magic : Command File MagicStatus
classify_magic = do buf ← read_exact_at magic_size 0; succeed (status_of buf)

unfoldable pub init_magic_and_truncate : Command File (Unit {0})
init_magic_and_truncate = do write_all_at magic 0; set_len blob_offset_flock; sync_all

abbrev pub checked : MagicStatus → Command File (Unit {0})
checked MagicStatus.matches = succeed tt
checked MagicStatus.fresh = init_magic_and_truncate
checked MagicStatus.mismatch = init_magic_and_truncate

-- the warning on a mismatch is not modelled
unfoldable pub init_or_check_magic : Command File (Unit {0})
init_or_check_magic = do status ← classify_magic; checked status

-- `UnexpectedEof` of the blob's read is an error as any other
abbrev pub long_enough : Option Bytes → Command File (Option Bytes)
long_enough none = fail input_output_error
long_enough (some buf) = succeed (if ltb (length buf) 8 then none else some buf)

unfoldable pub read_blob_at : ℕ → Command File (Option Bytes)
read_blob_at offset = do
  n ← len
  if leb n offset then succeed none else (read_exact_at (n - offset) offset >>= long_enough)

module _ (rkyv : Rkyv) where
  abbrev pub decoded : Option DatabaseRepr → Command File DatabaseRepr
  decoded none = fail input_output_error
  decoded (some repr) = succeed repr

  abbrev pub deserialized : Option Bytes → Command File DatabaseRepr
  deserialized none = succeed default_repr
  deserialized (some bytes) = decoded (rkyv.from_bytes bytes)

  unfoldable pub read_blob_into : ℕ → Command File DatabaseRepr
  read_blob_into offset = do bytes ← read_blob_at offset; deserialized bytes

  abbrev pub store_bytes : ℕ → Option Bytes → Command File (Unit {0})
  store_bytes offset none = fail input_output_error
  store_bytes offset (some bytes) = do
    set_len (offset + length bytes)
    write_all_at bytes offset
    sync_all

  unfoldable pub write_blob_at : DatabaseRepr → ℕ → Command File (Unit {0})
  write_blob_at repr offset = store_bytes offset (rkyv.to_bytes repr)
