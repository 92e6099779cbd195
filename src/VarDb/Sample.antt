-- ===== src/VarDb/Sample.antt =====
-- A serializer in the place of rkyv for the runs of l_builtin/src/vardb.rs: it knows the databases of at
-- most one empty variable.
use mathlib.Core.Path.{subst}
use l_builtin.Base.{ltb→lt, Bool}
use l_builtin.Base.{
  ◌^◌, ◌≡◌, ◌≤◌, ◌<◌, refl, Option, none, some, [], ◌∷◌, Bytes, length, drop, replicate,
  if◌then◌else◌, ltb, ◌==◌, arith, true, false,
}
use l_builtin.Base.Assoc.{Assoc}
use l_builtin.VarDb.{VarData, DatabaseRepr, default_repr, default_var, Rkyv, RkyvLaws, int_key}

abbrev guarded : Bytes → Option Bytes
guarded name =
    if ltb (length name) (2 ^ 62) then some (1 ∷ 0 ∷ 0 ∷ 0 ∷ 0 ∷ 0 ∷ 0 ∷ 0 ∷ name) else none

abbrev encode : Assoc Bytes VarData → Option Bytes
encode [] = some (replicate 8 0)
encode ((name, VarData.array []) ∷ []) = guarded name
encode ((name, VarData.array (x ∷ xs)) ∷ []) = none
encode ((name, VarData.assoc m) ∷ []) = none
encode (v ∷ w ∷ vs) = none

abbrev decode : Bytes → Option DatabaseRepr
decode [] = none
decode (tag ∷ rest) =
    if tag == 0
    then some default_repr
    else some (record { vars = (drop 7 rest, VarData.array []) ∷ [] })

abbrev pub small_rkyv : Rkyv
small_rkyv = record { to_bytes = λ repr. encode repr.vars; from_bytes = decode }

abbrev Law : Assoc Bytes VarData → Bytes → Type 0
Law vars bytes =
    (decode bytes ≡ some (record { vars = vars })) × (8 ≤ length bytes) × (length bytes < 2 ^ 63)

some_inj : (a b : Bytes) → some a ≡ some b → a ≡ b
some_inj a b h = cc

guarded-Law :
    (name bytes : Bytes) → guarded name ≡ some bytes → Law ((name, VarData.array []) ∷ []) bytes
guarded-Law name bytes h = go (ltb (length name) (2 ^ 62)) refl h
  where
    whole : Bytes
    whole = 1 ∷ 0 ∷ 0 ∷ 0 ∷ 0 ∷ 0 ∷ 0 ∷ 0 ∷ name

    go :
        (b : Bool)
        → ltb (length name) (2 ^ 62) ≡ b
        → (if b then some whole else none) ≡ some bytes
        → Law ((name, VarData.array []) ∷ []) bytes
    go true e i =
        let small = ltb→lt (length name) (2 ^ 62) e in
        subst (Law ((name, VarData.array []) ∷ [])) (some_inj whole bytes i)
          (refl, omega arith, omega arith)
    go false e i = cc

encode-Law :
    (vars : Assoc Bytes VarData) (bytes : Bytes) → encode vars ≡ some bytes → Law vars bytes
encode-Law [] bytes h =
    subst (Law []) (some_inj (replicate 8 0) bytes h) (refl, omega arith, omega arith)
encode-Law ((name, VarData.array []) ∷ []) bytes h = guarded-Law name bytes h
encode-Law ((name, VarData.array (x ∷ xs)) ∷ []) bytes h = cc
encode-Law ((name, VarData.assoc m) ∷ []) bytes h = cc
encode-Law (v ∷ w ∷ vs) bytes h = cc

pub small_rkyv-laws : RkyvLaws small_rkyv
small_rkyv-laws = record {
  reads_back = λ repr bytes h. (encode-Law repr.vars bytes h).0;
  has_root = λ repr bytes h. (encode-Law repr.vars bytes h).1;
  fits = λ repr bytes h. (encode-Law repr.vars bytes h).2;
}

abbrev pub one_var : DatabaseRepr
one_var = record { vars = ((b'x' ∷ b'y' ∷ []), default_var) ∷ [] }

abbrev pub one_bytes : Bytes
one_bytes = 1 ∷ 0 ∷ 0 ∷ 0 ∷ 0 ∷ 0 ∷ 0 ∷ 0 ∷ b'x' ∷ b'y' ∷ []
