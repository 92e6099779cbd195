-- ===== src/Shm/Place.antt =====
-- l_builtin/src/cmd_shm.rs: which database the flags of a subcommand select (`ShmLocArgs`), and
-- l_builtin/src/bash_api.rs: the names of variables (`is_valid_var_name`).
use mathlib.Core.Option
use l_builtin.Base.{
  ℕ, ◌^◌, Option, none, some, Bool, true, false, not, ◌&&◌, ◌||◌, [], ◌∷◌, ◌++◌, Bytes, Outcome, ok,
  err, execution_failure, ex_usage, if◌then◌else◌, ltb, leb, ◌==◌, ◌+◌,
}
use l_builtin.IntStr.{parse_unsigned}
use l_builtin.VarDb.Backend.{DbPath}

pub record ShmLocArgs : Type 0 where
  pub s : Option Bytes
  pub n : Option Bytes
  pub m : Option Bytes
  pub f : Option Bytes

abbrev pub between : ℕ → ℕ → ℕ → Bool
between low high b = leb low b && leb b high

abbrev pub is_ascii_alphabetic : ℕ → Bool
is_ascii_alphabetic b = between b'a' b'z' b || between b'A' b'Z' b

abbrev pub is_ascii_alphanumeric : ℕ → Bool
is_ascii_alphanumeric b = is_ascii_alphabetic b || between b'0' b'9' b

unfoldable pub only_word : Bytes → Bool
only_word [] = true
only_word (b ∷ rest) =
    if not (is_ascii_alphanumeric b) && not (b == b'_') then false else only_word rest

unfoldable pub is_valid_var_name : Bytes → Bool
is_valid_var_name [] = false
is_valid_var_name (b ∷ rest) =
    if not (is_ascii_alphabetic b) && not (b == b'_') then false else only_word rest

abbrev counted : Option Bytes → ℕ
counted none = 0
counted (some word) = 1

-- `post`: at most one flag. No command calls it: `CmdArgs::parse` is a method of the trait, and calls the
-- `post` of the trait, which accepts everything.
unfoldable pub post : ShmLocArgs → Outcome (Unit {0})
post args =
    if ltb 1 (counted args.s + counted args.n + counted args.m + counted args.f)
    then err ex_usage
    else ok tt

-- The word in front of the first colon and what is behind it, if there is one
unfoldable pub split_colon : Bytes → Option (Bytes × Bytes)
split_colon [] = none
split_colon (b ∷ rest) =
    let r = split_colon rest in
    if b == b':' then some ([], rest) else Option.map (λ p. ((b ∷ p.0), p.1)) r

abbrev pub is_empty : Bytes → Bool
is_empty [] = true
is_empty (b ∷ rest) = false

abbrev pub sized_spec : Bytes → Option ℕ → Outcome (Bytes × Option ℕ)
sized_spec name (some size) = ok (name, some size)
sized_spec name none = err ex_usage

abbrev pub spec_parts : Bytes → Option (Bytes × Bytes) → Outcome (Bytes × Option ℕ)
spec_parts spec (some (name, size)) =
    if is_empty name || is_empty size
    then err ex_usage
    else sized_spec name (parse_unsigned (2 ^ 64) size)
spec_parts spec none = ok (spec, none)

-- `parse_mmap_spec`; a C string has no NUL inside.
unfoldable pub parse_mmap_spec : Bytes → Outcome (Bytes × Option ℕ)
parse_mmap_spec spec = spec_parts spec (split_colon spec)

abbrev pub default_name : Bytes
default_name = b'D' ∷ b'E' ∷ b'F' ∷ b'A' ∷ b'U' ∷ b'L' ∷ b'T' ∷ []

abbrev pub large_enough : Outcome (Bytes × Option ℕ) → Outcome DbPath
large_enough (err code) = err code
large_enough (ok (name, none)) = ok (DbPath.mmap name none)
large_enough (ok (name, some size)) =
    if ltb size 100 then err ex_usage else ok (DbPath.mmap name (some size))

abbrev pub chosen : Option Bytes → Option Bytes → Option Bytes → Option Bytes → Outcome DbPath
chosen (some path) s m n = ok (DbPath.file path)
chosen none (some name) m n = ok (DbPath.shm name)
chosen none none (some spec) n = large_enough (parse_mmap_spec spec)
chosen none none none (some name) = ok (DbPath.mem name)
chosen none none none none = ok (DbPath.mem default_name)

abbrev pub valid_name : Bytes → DbPath → Outcome DbPath
valid_name name loc = if is_valid_var_name name then ok loc else err execution_failure

abbrev pub named_well : Outcome DbPath → Outcome DbPath
named_well (err code) = err code
named_well (ok (DbPath.file path)) = ok (DbPath.file path)
named_well (ok (DbPath.shm name)) = valid_name name (DbPath.shm name)
named_well (ok (DbPath.mem name)) = valid_name name (DbPath.mem name)
named_well (ok (DbPath.mmap name size)) = ok (DbPath.mmap name size)

unfoldable pub resolve_dbloc : ShmLocArgs → Outcome DbPath
resolve_dbloc args = named_well (chosen args.f args.s args.m args.n)

-- `db_key`; the text of a name that is not UTF-8 is a parameter.

module _ (to_string_lossy : Bytes → Bytes) where
  unfoldable pub db_key : DbPath → Bytes
  db_key (DbPath.file path) = to_string_lossy path
  db_key (DbPath.shm name) = (b's' ∷ b'h' ∷ b'm' ∷ b':' ∷ []) ++ to_string_lossy name
  db_key (DbPath.mem name) = (b'm' ∷ b'e' ∷ b'm' ∷ b'f' ∷ b'd' ∷ b':' ∷ []) ++ to_string_lossy name
  db_key (DbPath.mmap name size) = (b'm' ∷ b'm' ∷ b'a' ∷ b'p' ∷ b':' ∷ []) ++ to_string_lossy name
