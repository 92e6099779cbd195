-- ===== src/VarDb/Region.antt =====
-- l_builtin/src/vardb.rs: the blob in a region of memory, with its length in front.
use l_builtin.Base.{
  ℕ, zero, suc, ◌+◌, ◌*◌, ◌/◌, ◌%◌, ◌-◌, ◌^◌, Option, none, some, [], ◌∷◌, ◌++◌, ◌||◌, Bytes, take,
  drop, length, ok, Command, if◌then◌else◌, leb, ltb, ◌==◌, succeed, fail,
}
use l_builtin.VarDb.{DatabaseRepr, default_repr, Rkyv}
use l_builtin.VarDb.File.{input_output_error}

-- `u64::to_ne_bytes` and `u64::from_ne_bytes` on a little-endian machine, for that many bytes
unfoldable pub to_ne_bytes : ℕ → ℕ → Bytes
to_ne_bytes zero n = []
to_ne_bytes (suc k) n = n % 256 ∷ to_ne_bytes k (n / 256)

unfoldable pub from_ne_bytes : Bytes → ℕ
from_ne_bytes [] = 0
from_ne_bytes (b ∷ bs) = b + 256 * from_ne_bytes bs

-- `ENOMEM`
abbrev pub out_of_memory : ℕ
out_of_memory = 12

abbrev pub len_size : ℕ
len_size = 8

-- `copy_from_slice` into a part of the region
unfoldable pub copied : Bytes → ℕ → Bytes → Bytes
copied mem offset bytes = take offset mem ++ bytes ++ drop (length bytes) (drop offset mem)

module _ (rkyv : Rkyv) where
  abbrev pub decoded : Option DatabaseRepr → Command Bytes DatabaseRepr
  decoded none = fail input_output_error
  decoded (some repr) = succeed repr

  -- the blob of that length, which is at most what the region has
  abbrev pub read_sized : ℕ → ℕ → ℕ → Command Bytes DatabaseRepr
  read_sized blob_len avail data_off mem =
      if (blob_len == 0) || ltb avail blob_len
      then succeed default_repr mem
      else if ltb blob_len 8
      then succeed default_repr mem
      else decoded (rkyv.from_bytes (take blob_len (drop data_off mem))) mem

  unfoldable pub read_blob_from_mem : ℕ → Command Bytes DatabaseRepr
  read_blob_from_mem len_offset mem =
      let data_off = len_offset + len_size in
      if ltb (length mem) data_off
      then succeed default_repr mem
      else read_sized (from_ne_bytes (take len_size (drop len_offset mem))) (length mem - data_off)
          data_off mem

  -- `checked_add` fails beyond a `usize`
  abbrev pub store_sized : ℕ → Option Bytes → Command Bytes (Unit {0})
  store_sized len_offset none mem = fail input_output_error mem
  store_sized len_offset (some bytes) mem =
      let data_off = len_offset + len_size in
      if leb (2 ^ 64) (data_off + length bytes)
      then fail out_of_memory mem
      else if ltb (length mem) (data_off + length bytes)
      then fail out_of_memory mem
      else (
        ok tt,
        copied (copied mem len_offset (to_ne_bytes len_size (length bytes))) data_off bytes,
      )

  unfoldable pub write_blob_to_mem : DatabaseRepr → ℕ → Command Bytes (Unit {0})
  write_blob_to_mem repr len_offset = store_sized len_offset (rkyv.to_bytes repr)
