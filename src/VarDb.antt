-- ===== src/VarDb.antt =====
-- l_builtin/src/vardb.rs: the database of shared variables - its contents, its header, and what rkyv
-- gives it.
mod Tests
pub mod Sample
pub mod File
pub mod Os
pub mod Lock
pub mod Backend
pub mod Database
pub mod Cell
pub mod Released
pub mod Blob
pub mod Region
pub mod Trip
pub mod Header
pub mod Stored
use l_builtin.Base.{
  ==_iff, ◌==◌, arith, ℕ, ◌+◌, ◌-◌, ◌≡◌, ◌≤◌, ◌<◌, ◌^◌, Option, none, some, List, [], ◌∷◌, ◌++◌,
  Bool, true, false, Bytes, ◌↔◌, length, replicate,
}
use l_builtin.Base.Int.{ℤ, pos, negsuc}
use l_builtin.Base.Assoc.{Assoc, Key, bytes_key, put}

-- A C string stands for its bytes, the NUL behind them left out.
pub data VarData : Type 0 where
  array : Assoc ℤ Bytes → VarData
  assoc : Assoc Bytes Bytes → VarData

abbrev pub default_var : VarData
default_var = VarData.array []

abbrev pub same_int : ℤ → ℤ → Bool
same_int (pos a) (pos b) = a == b
same_int (pos a) (negsuc b) = false
same_int (negsuc a) (pos b) = false
same_int (negsuc a) (negsuc b) = a == b

pub same_int_iff : (a b : ℤ) → (same_int a b ≡ true) ↔ (a ≡ b)
same_int_iff (pos a) (pos b) = ground (arith, ==_iff a b)
same_int_iff (pos a) (negsuc b) = ground arith
same_int_iff (negsuc a) (pos b) = ground arith
same_int_iff (negsuc a) (negsuc b) = ground (arith, ==_iff a b)

instance abbrev pub int_key : Key ℤ
int_key = record { same = same_int; same_iff = same_int_iff }

unfoldable pub insert_index : VarData → ℤ → Bytes → VarData
insert_index (array m) idx value = VarData.array (put m idx value)
insert_index (assoc m) idx value = VarData.array (put [] idx value)

unfoldable pub insert_key : VarData → Bytes → Bytes → VarData
insert_key (assoc m) key value = VarData.assoc (put m key value)
insert_key (array m) key value = VarData.assoc (put [] key value)

unfoldable pub as_array : VarData → Option (Assoc ℤ Bytes)
as_array (array m) = some m
as_array (assoc m) = none

unfoldable pub as_assoc : VarData → Option (Assoc Bytes Bytes)
as_assoc (array m) = none
as_assoc (assoc m) = some m

pub record DatabaseRepr : Type 0 where
  pub vars : Assoc Bytes VarData

abbrev pub default_repr : DatabaseRepr
default_repr = record { vars = [] }

abbrev pub magic_size : ℕ
magic_size = 32

abbrev magic_text : Bytes
magic_text =
    b'L' ∷ b'_' ∷ b'b' ∷ b'u' ∷ b'i' ∷ b'l' ∷ b't' ∷ b'i' ∷ b'n' ∷ b' ' ∷ b's' ∷ b'h' ∷ b'm' ∷ b' '
    ∷ b'v' ∷ b'1' ∷ []

-- `MAGIC`: the text, and NULs up to its size
abbrev pub magic : Bytes
magic = magic_text ++ replicate (magic_size - length magic_text) 0

abbrev pub blob_offset_flock : ℕ
blob_offset_flock = magic_size

-- `rkyv::to_bytes` and `rkyv::from_bytes` for the database
pub record Rkyv : Type 0 where
  pub to_bytes : DatabaseRepr → Option Bytes
  pub from_bytes : Bytes → Option DatabaseRepr

-- What the code relies on: bytes that were written read back, they are not shorter than a root
-- pointer, and fit the address space.
pub record RkyvLaws (rkyv : Rkyv) : Type 0 where
  pub reads_back :
      (repr : DatabaseRepr) (bytes : Bytes)
      → rkyv.to_bytes repr ≡ some bytes
      → rkyv.from_bytes bytes ≡ some repr
  pub has_root :
      (repr : DatabaseRepr) (bytes : Bytes) → rkyv.to_bytes repr ≡ some bytes → 8 ≤ length bytes
  pub fits :
      (repr : DatabaseRepr) (bytes : Bytes)
      → rkyv.to_bytes repr ≡ some bytes
      → length bytes < 2 ^ 63
