-- ===== src/Hex.antt =====
-- llib/src/io_common.rs: the hexadecimal coding that `read`, `write`, `send` and `recv` share.
pub mod Codec
pub mod Accepted
mod Tests
use Prim.Native.Char.{code}
use l_builtin.Base.{
  ℕ, suc, ◌+◌, ◌-◌, ◌*◌, ◌/◌, ◌%◌, List, [], ◌∷◌, ◌++◌, Option, none, some, Bytes, length, get_or,
  Bool, ◌&&◌, leb, ◌==◌, if◌then◌else◌,
}

-- `HEX_CHARS`
abbrev pub hex_chars : Bytes
hex_chars =
    b'0' ∷ b'1' ∷ b'2' ∷ b'3' ∷ b'4' ∷ b'5' ∷ b'6' ∷ b'7' ∷ b'8' ∷ b'9' ∷ b'a' ∷ b'b' ∷ b'c' ∷ b'd'
    ∷ b'e' ∷ b'f' ∷ []

-- `char::to_digit(16)`
unfoldable pub hex_digit : ℕ → Option ℕ
hex_digit c =
    if leb b'0' c && leb c b'9'
    then some (c - b'0')
    else if leb b'a' c && leb c b'f'
    then some (c - b'a' + 10)
    else if leb b'A' c && leb c b'F'
    then some (c - b'A' + 10)
    else none

-- The value of two digits, if both are digits.
abbrev pub two_digits : Option ℕ → Option ℕ → Option ℕ
two_digits (some hi) (some lo) = some (hi * 16 + lo)
two_digits _ _ = none

-- `u8::from_str_radix(s, 16)` on the two bytes of `s`: a leading plus sign is skipped. A pair that
-- is not UTF-8 has a byte that is no digit, so both ways to fail give `none`.
unfoldable pub byte_of_pair : ℕ → ℕ → Option ℕ
unfolding hex_digit
byte_of_pair a b = if a == b'+' then hex_digit b else two_digits (hex_digit a) (hex_digit b)

-- `out.push(byte)`, before what the later rounds push
abbrev pub push : Option ℕ → Option Bytes → Option Bytes
push (some byte) (some rest) = some (byte ∷ rest)
push _ _ = none

-- the loop of `hex_decode`, two bytes a round
unfoldable pub decode_pairs : Bytes → Option Bytes
unfolding byte_of_pair
decode_pairs [] = some []
decode_pairs (a ∷ b ∷ rest) = push (byte_of_pair a b) (decode_pairs rest)
decode_pairs (a ∷ []) = none

unfoldable pub hex_decode : Bytes → Option Bytes
unfolding decode_pairs
hex_decode hex = if length hex % 2 == 0 then decode_pairs hex else none

-- the two bytes that `hex_encode` pushes for one byte
abbrev pub encode_byte : ℕ → Bytes → Bytes
encode_byte byte out = get_or hex_chars (byte / 16) 0 ∷ get_or hex_chars (byte % 16) 0 ∷ out

abbrev pub encode_all : Bytes → Bytes → Bytes
encode_all [] out = out
encode_all (byte ∷ rest) out = encode_byte byte (encode_all rest out)

-- The result ends in the NUL that bash's strings need.
unfoldable pub hex_encode : Bytes → Bytes
hex_encode bytes = encode_all bytes (0 ∷ [])
