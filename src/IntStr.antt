-- ===== src/IntStr.antt =====
-- llib/src/intstr.rs: integers to decimal C strings in a fixed buffer; and the decimal integers
-- that l_builtin/src/cmdargs.rs parses back.
pub mod Digits
pub mod Unsigned
pub mod Negative
mod Tests
use mathlib.Core.Option
use l_builtin.Base.{
  ℕ, zero, suc, ◌+◌, ◌-◌, ◌*◌, ◌/◌, ◌%◌, ◌^◌, [], ◌∷◌, Option, none, some, Bytes, length, set, drop,
  take, replicate, Bool, ◌&&◌, ◌||◌, ltb, ◌==◌, if◌then◌else◌,
}
use l_builtin.Base.Int.{ℤ, pos, neg, unsigned_abs, is_negative, tdiv, trem}

-- `max_str_len_for_bits`
unfoldable pub max_str_len_for_bits : ℕ → ℕ
max_str_len_for_bits bits = bits * 30103 / 100000 + 3

-- The widths of the integer types that have a `to_intstr`.
pub data Width : Type 0 where
  w8 w16 w32 w64 : Width

abbrev pub bits_of : Width → ℕ
bits_of Width.w8 = 8
bits_of Width.w16 = 16
bits_of Width.w32 = 32
bits_of Width.w64 = 64

-- `IntStr<N>`: the buffer, whose length is N, and where the text starts in it
pub record IntStr : Type 0 where
  pub buf : Bytes
  pub start : ℕ

-- `IntStr::as_bytes`: `buf[start..N - 1]`
unfoldable pub as_bytes : IntStr → Bytes
as_bytes s = take (length s.buf - 1 - s.start) (drop s.start s.buf)

-- `while self > 0 && i > 0 { i -= 1; buf[i] = b'0' + (self % 10) as u8; self /= 10; }`
unfoldable pub write_digits : ℕ → ℕ → Bytes → IntStr
write_digits zero val buf = record { buf = buf; start = 0 }
write_digits (suc i) val buf =
    let rest = write_digits i (val / 10) (set buf i (b'0' + val % 10)) in
    if ltb 0 val then rest else record { buf = buf; start = suc i }

-- `let mut buf = [0u8; N]; let mut i = buf.len() - 1; buf[i] = 0;`
abbrev pub fresh_buf : ℕ → Bytes
fresh_buf bits = replicate (max_str_len_for_bits bits) 0

-- `to_intstr` of the unsigned type of that many bits
unfoldable pub to_intstr : ℕ → ℕ → IntStr
unfolding write_digits max_str_len_for_bits
to_intstr bits val =
    let n = max_str_len_for_bits bits in
    if val == 0
    then record { buf = set (fresh_buf bits) (n - 2) b'0'; start = n - 2 }
    else write_digits (n - 1) val (fresh_buf bits)

-- The same loop over a signed value:
-- `while val != 0 && i > 0 { i -= 1; buf[i] = b'0' + (val % 10).unsigned_abs(); val /= 10; }`
unfoldable pub write_digits_signed : ℕ → ℤ → Bytes → IntStr
write_digits_signed zero val buf = record { buf = buf; start = 0 }
write_digits_signed (suc i) val buf =
    let rest =
      write_digits_signed i (tdiv val 10) (set buf i (b'0' + unsigned_abs (trem val 10))) in
    if unsigned_abs val == 0 then record { buf = buf; start = suc i } else rest

-- `if is_negative && i > 0 { i -= 1; buf[i] = b'-'; }`
unfoldable pub write_sign : Bool → IntStr → IntStr
write_sign negative s =
    if negative && ltb 0 s.start
    then record { buf = set s.buf (s.start - 1) b'-'; start = s.start - 1 }
    else s

-- `to_intstr` of the signed type of that many bits
unfoldable pub to_intstr_signed : ℕ → ℤ → IntStr
unfolding write_digits_signed write_sign max_str_len_for_bits
to_intstr_signed bits val =
    let n = max_str_len_for_bits bits in
    write_sign (is_negative val) (
      if unsigned_abs val == 0
      then record { buf = set (fresh_buf bits) (n - 2) b'0'; start = n - 2 }
      else write_digits_signed (n - 1) val (fresh_buf bits))

-- The loop of `str::parse`: a byte that is no digit and a value of `limit` or more are errors.
unfoldable pub scan : ℕ → Bytes → ℕ → Option ℕ
scan limit [] n = some n
scan limit (c ∷ s) n =
    if ltb c b'0' || ltb b'9' c
    then none
    else if ltb (n * 10 + (c - b'0')) limit
    then scan limit s (n * 10 + (c - b'0'))
    else none

-- `s.parse::<u64>()` and the like, at the modulus of the type. A plus sign may lead.
unfoldable pub parse_unsigned : ℕ → Bytes → Option ℕ
unfolding scan
parse_unsigned limit [] = none
parse_unsigned limit (c ∷ []) = if c == b'+' then none else scan limit (c ∷ []) 0
parse_unsigned limit (c ∷ d ∷ s) =
    if c == b'+' then scan limit (d ∷ s) 0 else scan limit (c ∷ d ∷ s) 0

-- the first byte, or NUL
abbrev pub first : Bytes → ℕ
first [] = 0
first (c ∷ s) = c

-- `s.parse::<i64>()` and the like: a minus sign may lead too, and then the magnitude may reach the
-- modulus's half itself.
unfoldable pub parse_signed : ℕ → Bytes → Option ℤ
unfolding parse_unsigned
parse_signed half [] = none
parse_signed half (c ∷ s) =
    if c == b'-'
    then (if first s == b'+' then none else Option.map neg (parse_unsigned (half + 1) s))
    else Option.map pos (parse_unsigned half (c ∷ s))
