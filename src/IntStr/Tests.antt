-- ===== src/IntStr/Tests.antt =====
-- Runs of the integer texts, and the theorems at an input.
use l_builtin.Base.{◌^◌, ◌≡◌, refl, some, none, arith, [], ◌∷◌}
use l_builtin.Base.Int.{negsuc}
use l_builtin.IntStr.{w8, w64, as_bytes, to_intstr, to_intstr_signed, parse_unsigned, parse_signed}
use l_builtin.IntStr.Unsigned.{parse_unsigned-to_intstr}
use l_builtin.IntStr.Negative.{parse_signed-to_intstr}

runs : Unit {0}
unfolding to_intstr to_intstr_signed as_bytes parse_unsigned parse_signed
runs = tt

u8_max : as_bytes (to_intstr 8 255) ≡ b'2' ∷ b'5' ∷ b'5' ∷ []
unfolding runs
u8_max = refl

i8_min : as_bytes (to_intstr_signed 8 (negsuc 127)) ≡ b'-' ∷ b'1' ∷ b'2' ∷ b'8' ∷ []
unfolding runs
i8_min = refl

plus_sign : parse_unsigned 256 (b'+' ∷ b'7' ∷ []) ≡ some 7
unfolding runs
plus_sign = refl

lone_signs : parse_signed 128 (b'-' ∷ b'+' ∷ b'7' ∷ []) ≡ none
unfolding runs
lone_signs = refl

parse_unsigned-to_intstr_example :
    parse_unsigned (2 ^ 64) (as_bytes (to_intstr 64 18446744073709551615))
    ≡ some 18446744073709551615
parse_unsigned-to_intstr_example = parse_unsigned-to_intstr w64 18446744073709551615 (omega arith)

parse_signed-to_intstr_example :
    parse_signed (2 ^ 7) (as_bytes (to_intstr_signed 8 (negsuc 127))) ≡ some (negsuc 127)
parse_signed-to_intstr_example = parse_signed-to_intstr w8 (negsuc 127) (omega arith) (λ e. cc)
