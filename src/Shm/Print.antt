-- ===== src/Shm/Print.antt =====
-- l_builtin/src/cmd_shm.rs: what `info` and `ls` print.
use l_builtin.Base.{
  ◌>>=◌, ℕ, Option, none, some, List, [], ◌∷◌, ◌++◌, Bool, true, false, ◌||◌, Bytes, ok,
  if◌then◌else◌, ◌==◌, ltb,
}
use l_builtin.Base.Int.{ℤ, pos, negsuc}
use l_builtin.Base.Assoc.{Assoc, bytes_key, get, put}
use l_builtin.IntStr.{to_intstr_signed, as_bytes}
use l_builtin.VarDb.{VarData, int_key}
use l_builtin.VarDb.Backend.{DbPath}
use l_builtin.Shm.Place.{ShmLocArgs, resolve_dbloc, db_key}
use l_builtin.Shm.State.{Bash, Store, on_world}
use l_builtin.Shm.Commands.{as_outcome, reported, Action, get_db_loc}
use l_builtin.Shm.Withdrawal.{bound_to}

abbrev pub must_escape : ℕ → Bool
must_escape b = (b == b'\\') || (b == b'"')

unfoldable pub escaped : Bytes → Bytes
escaped [] = []
escaped (b ∷ rest) =
    let quoted = escaped rest in if must_escape b then b'\\' ∷ b ∷ quoted else b ∷ quoted

-- `escape_quoted`, behind what is in `out`
unfoldable pub escape_quoted : Bytes → Bytes → Bytes
escape_quoted out bytes = out ++ (b'"' ∷ escaped bytes ++ b'"' ∷ [])

-- `sort_by_key` and `sort_by`, which keep the order of what is equal
module _ {A : Type 0} (before : A → A → Bool) where
  abbrev pub insert_sorted : A → List A → List A
  insert_sorted x [] = x ∷ []
  insert_sorted x (y ∷ ys) =
      let rest = insert_sorted x ys in if before y x then y ∷ rest else x ∷ y ∷ ys

  abbrev pub sorted : List A → List A
  sorted [] = []
  sorted (x ∷ xs) = insert_sorted x (sorted xs)

abbrev pub int_below : ℤ → ℤ → Bool
int_below (pos a) (pos b) = ltb a b
int_below (pos a) (negsuc b) = false
int_below (negsuc a) (pos b) = true
int_below (negsuc a) (negsuc b) = ltb b a

abbrev pub bytes_below : Bytes → Bytes → Bool
bytes_below [] [] = false
bytes_below [] (c ∷ t) = true
bytes_below (b ∷ s) [] = false
bytes_below (b ∷ s) (c ∷ t) = let rest = bytes_below s t in if b == c then rest else ltb b c

abbrev pub index_below : ℤ × Bytes → ℤ × Bytes → Bool
index_below p q = int_below p.0 q.0

-- The loops over the elements, with the flag `first`
abbrev pub spaced : Bool → Bytes → Bytes
spaced true line = line
spaced false line = line ++ b' ' ∷ []

-- `format!` writes an index in decimal.
abbrev pub decimal : ℤ → Bytes
decimal index = as_bytes (to_intstr_signed 64 index)

abbrev pub array_elements : Assoc ℤ Bytes → Bool → Bytes → Bytes
array_elements [] first line = line
array_elements ((index, value) ∷ rest) first line =
    array_elements rest false
      (escape_quoted (spaced first line ++ b'[' ∷ decimal index ++ b']' ∷ b'=' ∷ []) value)

abbrev pub assoc_elements : Assoc Bytes Bytes → Bool → Bytes → Bytes
assoc_elements [] first line = line
assoc_elements ((key, value) ∷ rest) first line =
    assoc_elements rest false
      (escape_quoted (escape_quoted (spaced first line ++ b'[' ∷ []) key ++ b']' ∷ b'=' ∷ []) value)

abbrev pub elements : VarData → Bytes → Bytes
elements (VarData.array m) line = array_elements (sorted index_below m) true line
elements (VarData.assoc m) line = assoc_elements m true line

-- `print_var_assignment`: its line
unfoldable pub print_var_assignment : Bytes → VarData → Bytes
print_var_assignment name value = elements value (name ++ b'=' ∷ b'(' ∷ []) ++ b')' ∷ []

-- `SHM_NAME`s or variables, each in the group of its key
abbrev pub grown : Option (List Bytes) → Bytes → List Bytes
grown none name = name ∷ []
grown (some names) name = names ++ name ∷ []

abbrev keys_of : {V : Type 0} → Assoc Bytes V → List Bytes
keys_of [] = []
keys_of ((key, v) ∷ rest) = key ∷ keys_of rest

abbrev joined : List Bytes → Bool → Bytes → Bytes
joined [] first line = line
joined (name ∷ names) first line = joined names false (spaced first line ++ name)

abbrev names_in : Option (List Bytes) → List Bytes
names_in none = []
names_in (some names) = names

abbrev group_line : Assoc Bytes (List Bytes) → Bytes → Bytes
group_line groups key =
    joined (names_in (get groups key)) true ((b'D' ∷ b'B' ∷ b' ' ∷ []) ++ key ++ b':' ∷ b' ' ∷ [])

abbrev group_lines : Assoc Bytes (List Bytes) → List Bytes → List Bytes
group_lines groups [] = []
group_lines groups (key ∷ keys) = group_line groups key ∷ group_lines groups keys

module _ {B World : Type 0} (bash : Bash B) (store : Store World)
    (to_string_lossy : Bytes → Bytes) where
  unfoldable pub print_lines : List Bytes → Action bash store (Unit {0})
  print_lines [] s = (ok tt, s)
  print_lines (line ∷ lines) s = print_lines lines (record s { printed = line ∷ s.printed })

  abbrev var_lines : Assoc Bytes VarData → List Bytes
  var_lines [] = []
  var_lines ((name, value) ∷ rest) = print_var_assignment name value ∷ var_lines rest

  unfoldable pub shm_info_subcommand : ShmLocArgs → Action bash store (Unit {0})
  shm_info_subcommand args = do
    loc ← as_outcome (resolve_dbloc args)
    db ← (λ s. reported (get_db_loc bash store loc s))
    repr ← (λ s. reported (on_world (store.read db) s))
    print_lines (var_lines repr.vars)

  abbrev grouped : World → Assoc Bytes ℕ → Assoc Bytes (List Bytes) → Assoc Bytes (List Bytes)
  grouped w [] groups = groups
  grouped w ((name, db) ∷ rest) groups =
      let key = db_key to_string_lossy (store.path w db) in
      grouped w rest (put groups key (grown (get groups key) name))

  abbrev ls_place : DbPath → Action bash store (Unit {0})
  ls_place loc s =
      print_lines
        (sorted bytes_below
          (bound_to bash store to_string_lossy (db_key to_string_lossy loc) s.world s.registry))
        s

  abbrev ls_all : Action bash store (Unit {0})
  ls_all s =
      let groups = grouped s.world s.registry [] in
      print_lines (group_lines groups (sorted bytes_below (keys_of groups))) s

  abbrev is_given : Option Bytes → Bool
  is_given none = false
  is_given (some word) = true

  unfoldable pub shm_ls_subcommand : ShmLocArgs → Action bash store (Unit {0})
  shm_ls_subcommand args =
      if is_given args.s || is_given args.n || is_given args.m || is_given args.f
      then (as_outcome (resolve_dbloc args) >>= ls_place)
      else ls_all
