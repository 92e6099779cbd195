-- ===== src/Hex/Codec.antt =====
-- io_common.rs: what `hex_encode` writes, `hex_decode` reads back.
use l_builtin.Base.{
  ℕ, zero, suc, ◌*◌, ◌/◌, ◌%◌, ◌<◌, ◌≡◌, refl, Bool, true, false, not, ◌&&◌, [], ◌∷◌, Option, none,
  some, Bytes, IsBytes, length, get_or, cstr, arith, ◌==◌, ==_iff,
}
use l_builtin.Hex.{hex_chars, byte_of_pair, decode_pairs, hex_decode, encode_all, hex_encode}

-- Over a small range a Boolean property is checked value by value.
module _ (test : ℕ → Bool) where
  every : ℕ → Bool
  every zero = true
  every (suc n) = every n && test n

  every_elim : (n x : ℕ) → x < n → every n ≡ true → test x ≡ true
  unfolding every
  every_elim zero x small checked = absurd (omega arith)
  every_elim (suc n) x small checked = ground (arith, every_elim n x)

abbrev is_some_of : ℕ → Option ℕ → Bool
is_some_of n none = false
is_some_of n (some m) = m == n

is_some_of_eq : (n : ℕ) (o : Option ℕ) → is_some_of n o ≡ true → o ≡ some n
is_some_of_eq n none h = cc
is_some_of_eq n (some m) h = ground (arith, ==_iff m n)

-- a byte's two digits, checked for each of the 256 bytes
abbrev reads_back : ℕ → Bool
reads_back b =
    is_some_of b (byte_of_pair (get_or hex_chars (b / 16) 0) (get_or hex_chars (b % 16) 0))

reads_back_table : every reads_back 256 ≡ true
unfolding every byte_of_pair
reads_back_table = refl

byte_of_pair-encode :
    (b : ℕ)
    → b < 256
    → byte_of_pair (get_or hex_chars (b / 16) 0) (get_or hex_chars (b % 16) 0) ≡ some b
byte_of_pair-encode b h = is_some_of_eq b _ (every_elim reads_back 256 b h reads_back_table)

-- no digit is the NUL byte
is_digit_byte : ℕ → Bool
is_digit_byte i = not (get_or hex_chars i 0 == 0)

digits_nonzero : every is_digit_byte 16 ≡ true
unfolding every is_digit_byte
digits_nonzero = refl

digit_nonzero : (i : ℕ) → i < 16 → (c : ℕ) × (get_or hex_chars i 0 ≡ suc c)
unfolding is_digit_byte
digit_nonzero i h = pred_of (get_or hex_chars i 0) (every_elim is_digit_byte 16 i h digits_nonzero)
  where
    pred_of : (n : ℕ) → not (n == 0) ≡ true → (c : ℕ) × (n ≡ suc c)
    pred_of zero e = cc
    pred_of (suc c) e = (c, refl)

cstr-encode_all :
    (bytes : Bytes) → IsBytes bytes → cstr (encode_all bytes (0 ∷ [])) ≡ encode_all bytes []
cstr-encode_all [] h = refl
cstr-encode_all (b ∷ bs) h =
    let (c, p) = digit_nonzero (b / 16) (omega arith) in
    let (d, q) = digit_nonzero (b % 16) (omega arith) in rw (p, q) (cc (cstr-encode_all bs h.1))

length-encode_all : (bytes : Bytes) → length (encode_all bytes []) ≡ 2 * length bytes
length-encode_all [] = refl
length-encode_all (b ∷ bs) = omega (arith, length-encode_all bs)

even_length : (s : Bytes) (n : ℕ) → length s ≡ 2 * n → (length s % 2 == 0) ≡ true
even_length s n h = (==_iff _ _).1 (omega arith)

decode_pairs-encode_all :
    (bytes : Bytes) → IsBytes bytes → decode_pairs (encode_all bytes []) ≡ some bytes
unfolding decode_pairs
decode_pairs-encode_all [] h = refl
decode_pairs-encode_all (b ∷ bs) h =
    rw (byte_of_pair-encode b h.0) (rw (decode_pairs-encode_all bs h.1))

-- Decoding the C string that `hex_encode` built gives the bytes back, for every byte string.
pub hex_decode-hex_encode :
    (bytes : Bytes) → IsBytes bytes → hex_decode (cstr (hex_encode bytes)) ≡ some bytes
unfolding hex_decode hex_encode
hex_decode-hex_encode bytes h = rw (cstr-encode_all bytes h) (
    rw (even_length (encode_all bytes []) (length bytes) (length-encode_all bytes))
      (decode_pairs-encode_all bytes h))
