-- ===== src/Hex/Tests.antt =====
-- Runs of the hexadecimal coding, and its theorems at an input.
use l_builtin.Base.{◌≡◌, ◌↔◌, refl, some, none, arith, [], ◌∷◌, Bytes, cstr}
use l_builtin.Hex.{hex_decode, hex_encode}
use l_builtin.Hex.Codec.{hex_decode-hex_encode}
use l_builtin.Hex.Accepted.{IsHexPairs, hex_decode_iff}

runs : Unit {0}
unfolding hex_decode hex_encode
runs = tt

encodes : hex_encode (0 ∷ 171 ∷ []) ≡ b'0' ∷ b'0' ∷ b'a' ∷ b'b' ∷ 0 ∷ []
unfolding runs
encodes = refl

odd_length : hex_decode (b'0' ∷ b'0' ∷ b'a' ∷ []) ≡ none
unfolding runs
odd_length = refl

-- A plus sign is accepted as the first digit of a pair.
plus_digit : hex_decode (b'+' ∷ b'f' ∷ []) ≡ some (15 ∷ [])
unfolding runs
plus_digit = refl

hex_decode-hex_encode_example :
    hex_decode (cstr (hex_encode (0 ∷ 255 ∷ 16 ∷ []))) ≡ some (0 ∷ 255 ∷ 16 ∷ [])
hex_decode-hex_encode_example = hex_decode-hex_encode (0 ∷ 255 ∷ 16 ∷ []) (omega arith)

hex_decode_iff_example :
    ((out : Bytes) × (hex_decode (b'+' ∷ b'f' ∷ []) ≡ some out)) ↔ IsHexPairs (b'+' ∷ b'f' ∷ [])
hex_decode_iff_example = hex_decode_iff (b'+' ∷ b'f' ∷ [])
