-- ===== src/IntStr/Unsigned.antt =====
-- intstr.rs, the unsigned types: the text of a number parses back to it.
use l_builtin.Base.{
  false, ℕ, zero, suc, ◌+◌, ◌-◌, ◌*◌, ◌/◌, ◌^◌, ◌≤◌, ◌<◌, ◌≡◌, refl, [], ◌∷◌, some, Bytes, set,
  drop, replicate, arith, ◌==◌, ◌∙◌, ap, sym,
}
use l_builtin.IntStr.{
  Width, bits_of, w8, w16, w32, w64, max_str_len_for_bits, as_bytes, to_intstr, scan,
  parse_unsigned,
}
use l_builtin.IntStr.Digits.{digits, as_bytes_lem, write_digits-fresh, scan-digits, digits_leading}

max_str_len-pos : (bits : ℕ) → 0 < max_str_len_for_bits bits
unfolding max_str_len_for_bits
max_str_len-pos bits = omega arith

-- The text of a positive number is its digits.
pub as_bytes-to_intstr :
    (bits val : ℕ)
    → 0 < val
    → as_bytes (to_intstr bits val) ≡ digits (max_str_len_for_bits bits - 1) val []
unfolding to_intstr
as_bytes-to_intstr bits val p =
    let e : (val == 0) ≡ false = ground arith in
    rw e
      (as_bytes_lem _ _ (write_digits-fresh (max_str_len_for_bits bits) val (max_str_len-pos bits)))

last_two : (q : ℕ) → drop q (set (replicate (suc (suc q)) zero) q b'0') ≡ b'0' ∷ 0 ∷ []
last_two zero = refl
last_two (suc q) = last_two q

-- The text of zero is the one digit.
pub as_bytes-to_intstr_zero : (bits : ℕ) → as_bytes (to_intstr bits 0) ≡ b'0' ∷ []
unfolding to_intstr
as_bytes-to_intstr_zero bits = as_bytes_lem _ (b'0' ∷ []) (set_last (bits * 30103 / 100000))
  where
    set_last :
        (q : ℕ) → drop (q + 3 - 2) (set (replicate (q + 3) zero) (q + 3 - 2) b'0') ≡ b'0' ∷ 0 ∷ []
    set_last q =
        let e : q + 3 ≡ suc (suc (suc q)) = omega arith in
        let d : suc (suc (suc q)) - 2 ≡ suc q = omega arith in rw (e, d) (last_two q)

parse_zero : (limit : ℕ) → 0 < limit → parse_unsigned limit (b'0' ∷ []) ≡ some 0
unfolding parse_unsigned
parse_zero limit h = ground arith

pub scan-nil : (limit n : ℕ) → scan limit [] n ≡ some n
unfolding scan
scan-nil limit n = refl

-- A text that starts with a digit is scanned as it is.
pub parse_no_sign :
    (limit c : ℕ) (rest : Bytes)
    → b'0' < c
    → parse_unsigned limit (c ∷ rest) ≡ scan limit (c ∷ rest) 0
unfolding parse_unsigned
parse_no_sign limit c [] h = let e : (c == b'+') ≡ false = ground arith in rw e
parse_no_sign limit c (d ∷ rest) h = let e : (c == b'+') ≡ false = ground arith in rw e

-- The text of an unsigned number of `bits` bits parses back to the number, if the buffer has room
-- for its digits and the NUL.
pub parse_in_room :
    (bits limit val : ℕ)
    → val < limit
    → limit ≤ 10 ^ (max_str_len_for_bits bits - 1)
    → parse_unsigned limit (as_bytes (to_intstr bits val)) ≡ some val
parse_in_room bits limit zero l fits = rw (as_bytes-to_intstr_zero bits) (parse_zero limit l)
parse_in_room bits limit (suc v) l fits = rw (as_bytes-to_intstr bits (suc v) (omega arith)) (
    let (c, rest, e, lo, hi) =
      digits_leading (max_str_len_for_bits bits - 1) (suc v) [] (omega arith) (omega arith) in
    rw e (
      parse_no_sign limit c rest lo
      ∙ ap (λ s. scan limit s 0) (sym e)
      ∙ scan-digits limit (max_str_len_for_bits bits - 1) (suc v) [] (omega arith) l
      ∙ scan-nil limit (suc v)))

-- For u8, u16, u32 and u64 (and usize) alike: every value that the type holds is written into the
-- buffer, and its text parses back to it.
pub parse_unsigned-to_intstr :
    (w : Width) (val : ℕ)
    → val < 2 ^ bits_of w
    → parse_unsigned (2 ^ bits_of w) (as_bytes (to_intstr (bits_of w) val)) ≡ some val
unfolding max_str_len_for_bits
parse_unsigned-to_intstr w8 val l = parse_in_room 8 (2 ^ 8) val l (omega arith)
parse_unsigned-to_intstr w16 val l = parse_in_room 16 (2 ^ 16) val l (omega arith)
parse_unsigned-to_intstr w32 val l = parse_in_room 32 (2 ^ 32) val l (omega arith)
parse_unsigned-to_intstr w64 val l = parse_in_room 64 (2 ^ 64) val l (omega arith)
