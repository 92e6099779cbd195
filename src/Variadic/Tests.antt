-- ===== src/Variadic/Tests.antt =====
-- llib/src/variadic.rs: the specifiers of concrete formats.
use l_builtin.Base.{ℕ, ◌≡◌, refl, Option, none, some, [], ◌∷◌, Bytes, true, false, arith}
use l_builtin.Variadic.{next, specifier, conversion, skip, number, precision, Specifier}
use l_builtin.Variadic.Found.{IsFound, next-IsFound}

-- '%%%-*.3lux'
abbrev dynamic : Bytes
dynamic = b'%' ∷ b'%' ∷ b'%' ∷ b'-' ∷ b'*' ∷ b'.' ∷ b'3' ∷ b'l' ∷ b'u' ∷ b'x' ∷ []

wide :
    next 11 dynamic 0
    ≡ some (
      some (record {
        dynamic_width = true;
        dynamic_prec = false;
        text = b'%' ∷ b'-' ∷ b'*' ∷ b'.' ∷ b'3' ∷ b'l' ∷ b'u' ∷ [];
      }),
      9,
    )
unfolding next specifier conversion skip number precision
wide = refl

-- A percent sign at the end is no specifier.
unfinished : next 3 (b'a' ∷ b'%' ∷ []) 0 ≡ some (none, 2)
unfolding next specifier conversion skip number precision
unfinished = refl

next-IsFound_example :
    (r : Option Specifier × ℕ) × (next 11 dynamic 0 ≡ some r) × IsFound dynamic 0 r
next-IsFound_example = next-IsFound 11 dynamic 0 (omega arith)
