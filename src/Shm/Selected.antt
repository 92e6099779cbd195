-- ===== src/Shm/Selected.antt =====
-- l_builtin/src/cmd_shm.rs: the databases that flags can select.
use l_builtin.Base.{
  ℕ, ◌^◌, ◌≡◌, ◌≤◌, ◌<◌, ◌≢◌, refl, Option, none, some, false, [], ◌∷◌, ◌++◌, Bytes, Outcome, ok,
  err, ◌==◌,
}
use mathlib.Core.Option
use l_builtin.Shm.Names.{IsName}
use l_builtin.IntStr.{parse_unsigned, to_intstr, as_bytes, Width}
use l_builtin.IntStr.Unsigned.{parse_unsigned-to_intstr}
use l_builtin.VarDb.Backend.{DbPath}
use l_builtin.Shm.Place.{ShmLocArgs, split_colon, parse_mmap_spec, is_empty}

-- A name without a colon
abbrev pub HasNoColon : Bytes → Type 0
HasNoColon [] = Unit {0}
HasNoColon (b ∷ rest) = ((b == b':') ≡ false) × HasNoColon rest

split_colon-append :
    (name size : Bytes) → HasNoColon name → split_colon (name ++ b':' ∷ size) ≡ some (name, size)
unfolding split_colon
split_colon-append [] size h = refl
split_colon-append (b ∷ rest) size (other, h) = rw (other, split_colon-append rest size h) refl

is_empty-parsed : (s : Bytes) (n : ℕ) → parse_unsigned (2 ^ 64) s ≡ some n → is_empty s ≡ false
unfolding parse_unsigned
is_empty-parsed [] n h = cc
is_empty-parsed (c ∷ s) n h = refl

-- A name without a colon and the size of a region, written as NAME:SIZE, are read back.
pub parse_mmap_spec-to_intstr :
    (b : ℕ) (name : Bytes) (size : ℕ)
    → HasNoColon (b ∷ name)
    → size < 2 ^ 64
    → parse_mmap_spec ((b ∷ name) ++ b':' ∷ as_bytes (to_intstr 64 size))
      ≡ ok ((b ∷ name), some size)
unfolding parse_mmap_spec
parse_mmap_spec-to_intstr b name size h small =
    let parts = split_colon-append (b ∷ name) (as_bytes (to_intstr 64 size)) h in
    let read = parse_unsigned-to_intstr Width.w64 size small in
    let digits = is_empty-parsed (as_bytes (to_intstr 64 size)) size read in
    rw (parts, digits, read) refl

-- What a selector of a region says: a name without a colon, and where it has a size a name that is not
-- empty and a size that a 64-bit word holds
abbrev IsSpec : Outcome (Bytes × Option ℕ) → Type 0
IsSpec (err code) = Unit {0}
IsSpec (ok (name, none)) = HasNoColon name
IsSpec (ok (name, some size)) = HasNoColon name × (name ≢ []) × (size < 2 ^ 64)

-- The name in front of the first colon has none.
abbrev IsSplit : Bytes → Option (Bytes × Bytes) → Type 0
IsSplit spec none = HasNoColon spec
IsSplit spec (some (name, size)) = HasNoColon name

-- The databases that flags can name: a file of any path; an object or memory under a name that a
-- shell variable may have; a region under a name without a colon; a new region under such a name that is
-- not empty, of at least 100 bytes, whose size a 64-bit word holds
abbrev pub IsSelectable : DbPath → Type 0
IsSelectable (DbPath.file path) = Unit {0}
IsSelectable (DbPath.shm name) = IsName name
IsSelectable (DbPath.mem name) = IsName name
IsSelectable (DbPath.mmap name none) = HasNoColon name
IsSelectable (DbPath.mmap name (some size)) =
    HasNoColon name × (name ≢ []) × (100 ≤ size) × (size < 2 ^ 64)

abbrev Selects : Outcome DbPath → Type 0
Selects (err code) = Unit {0}
Selects (ok loc) = IsSelectable loc

-- The flags that name a database
abbrev flags_of : DbPath → ShmLocArgs
flags_of (DbPath.file path) = record { s = none; n = none; m = none; f = some path }
flags_of (DbPath.shm name) = record { s = some name; n = none; m = none; f = none }
flags_of (DbPath.mem name) = record { s = none; n = some name; m = none; f = none }
flags_of (DbPath.mmap name none) = record { s = none; n = none; m = some name; f = none }
flags_of (DbPath.mmap name (some size)) = record {
  s = none;
  n = none;
  m = some (name ++ b':' ∷ as_bytes (to_intstr 64 size));
  f = none;
}
