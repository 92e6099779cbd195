-- ===== src/VarDb/Tests.antt =====
-- Runs of the database (l_builtin/src/vardb.rs).
use l_builtin.VarDb.Sample.{small_rkyv, small_rkyv-laws, one_var, one_bytes}
use l_builtin.Base.{
  ◌+◌, ◌≡◌, ◌≤◌, ◌<◌, refl, none, some, [], ◌∷◌, Bytes, length, replicate, ok, err, arith,
}
use l_builtin.Base.Assoc.{put}
use l_builtin.VarDb.{negsuc, default_var, magic, insert_key, insert_index, as_assoc, int_key}
use l_builtin.VarDb.File.{sync_all, set_len, write_all_at, read_exact_at, File, written, resized}
use l_builtin.VarDb.Blob.{
  init_magic_and_truncate, classify_magic, init_or_check_magic, write_blob_at, read_blob_into,
}
use l_builtin.VarDb.Region.{write_blob_to_mem, read_blob_from_mem, out_of_memory}
use l_builtin.VarDb.Trip.{write_blob_to_mem-read}
use l_builtin.VarDb.Header.{HasMagic, write_each, header_kept}
use l_builtin.VarDb.Stored.{write_blob_at-read_blob_into}

abbrev foreign_file : File
foreign_file = record { content = replicate 40 b'?'; faults = [] }

abbrev region : Bytes
region = replicate 24 0

write_blob_to_mem-read_example :
    (2 + 8 + 10 ≤ 24
      → ((write_blob_to_mem small_rkyv one_var 2 region).0 ≡ ok tt)
        × (length (write_blob_to_mem small_rkyv one_var 2 region).1 ≡ 24)
        × (read_blob_from_mem small_rkyv 2 (write_blob_to_mem small_rkyv one_var 2 region).1
            ≡ (ok one_var, (write_blob_to_mem small_rkyv one_var 2 region).1)))
    × (24 < 2 + 8 + 10
        → write_blob_to_mem small_rkyv one_var 2 region ≡ (err out_of_memory, region))
write_blob_to_mem-read_example =
    write_blob_to_mem-read small_rkyv small_rkyv-laws one_var one_bytes region 2 refl (omega arith)

write_blob_at-read_blob_into_example :
    ((write_blob_at small_rkyv one_var 32 foreign_file).0 ≡ ok tt)
    × ((read_blob_into small_rkyv 32 (write_blob_at small_rkyv one_var 32 foreign_file).1).0
        ≡ ok one_var)
write_blob_at-read_blob_into_example =
    write_blob_at-read_blob_into small_rkyv small_rkyv-laws one_var one_bytes 32 foreign_file refl
      refl

-- The second write fails after three bytes.
abbrev opened_file : File
opened_file = record { content = magic; faults = none ∷ none ∷ none ∷ none ∷ some 3 ∷ [] }

abbrev before_open : File
before_open = record {
  content = replicate 40 b'?';
  faults = none ∷ none ∷ none ∷ none ∷ none ∷ none ∷ none ∷ none ∷ some 3 ∷ [];
}

opens : init_or_check_magic before_open ≡ (ok tt, opened_file)
unfolding init_or_check_magic classify_magic init_magic_and_truncate read_exact_at write_all_at
    set_len sync_all written resized
opens = refl

header_kept_example : HasMagic (write_each small_rkyv (one_var ∷ one_var ∷ []) opened_file).content
header_kept_example = header_kept small_rkyv (one_var ∷ one_var ∷ []) before_open opened_file opens

turned :
    as_assoc (insert_key (insert_index default_var (negsuc 0) []) (b'k' ∷ []) (b'v' ∷ []))
    ≡ some (((b'k' ∷ []), (b'v' ∷ [])) ∷ [])
unfolding as_assoc insert_key insert_index put
turned = refl
