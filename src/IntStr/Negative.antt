-- ===== src/IntStr/Negative.antt =====
-- intstr.rs, the signed types: the sign, and the text of every value down to the least one.
use mathlib.Core.Option
use native.Mathlib.Nat.{pow-suc}
use l_builtin.Base.{
  ◌==◌, length-replicate, sym, ap, ◌∙◌, lt→ltb, drop, set, length, ◌≢◌, arith, replicate, ℕ, zero,
  suc, ◌+◌, ◌-◌, ◌%◌, ◌^◌, ◌≤◌, ◌<◌, ◌≡◌, refl, [], ◌∷◌, ◌++◌, some, Bytes, true, false,
}
use l_builtin.Base.Int.{
  ℤ, pos, negsuc, neg, unsigned_abs, tdiv, unsigned_abs-tdiv, unsigned_abs-trem,
}
use l_builtin.IntStr.{
  first, scan, Width, bits_of, w8, w16, w32, w64, IntStr, max_str_len_for_bits, as_bytes,
  write_digits, write_digits_signed, write_sign, to_intstr, to_intstr_signed, parse_unsigned,
  parse_signed,
}
use l_builtin.IntStr.Digits.{
  length-write_digits, start-write_digits_le, start-write_digits, drop-set, digits, as_bytes_lem,
  write_digits-fresh, scan-digits, digits_leading,
}
use l_builtin.IntStr.Unsigned.{
  parse_no_sign, scan-nil, as_bytes-to_intstr_zero, as_bytes-to_intstr, parse_in_room,
}

-- The loop over a signed value is the loop over its magnitude.
pub write_digits_signed-eq :
    (i : ℕ) (val : ℤ) (buf : Bytes)
    → write_digits_signed i val buf ≡ write_digits i (unsigned_abs val) buf
unfolding write_digits_signed write_digits
write_digits_signed-eq zero val buf = refl
write_digits_signed-eq (suc i) val buf = rw (unsigned_abs-trem val 10) (
    ground (
      arith,
      unsigned_abs-tdiv val 10,
      write_digits_signed-eq i (tdiv val 10) (set buf i (b'0' + unsigned_abs val % 10)),
    ))

-- A value that is not negative has the text of the unsigned type.
to_intstr_signed-pos : (bits n : ℕ) → to_intstr_signed bits (pos n) ≡ to_intstr bits n
unfolding to_intstr_signed to_intstr
to_intstr_signed-pos bits n = rw (
    write_digits_signed-eq (max_str_len_for_bits bits - 1) (pos n)
      (replicate (max_str_len_for_bits bits) 0))

-- The sign goes in front of the text, where there is room for it.
as_bytes-write_sign :
    (s : IntStr) (xs : Bytes)
    → 0 < s.start
    → s.start ≤ length s.buf
    → drop s.start s.buf ≡ xs ++ 0 ∷ []
    → as_bytes (write_sign true s) ≡ b'-' ∷ xs
unfolding write_sign
as_bytes-write_sign s xs p l e = rw (lt→ltb 0 s.start p) (
    as_bytes_lem _ (b'-' ∷ xs) (
      drop-set (s.start - 1) s.buf b'-' (omega arith)
      ∙ ap (λ t. b'-' ∷ t) (ap (λ k. drop k s.buf) back ∙ e)))
  where
    back : suc (s.start - 1) ≡ s.start
    back = omega arith

to_intstr_signed-negsuc :
    (bits n : ℕ)
    → to_intstr_signed bits (negsuc n)
      ≡ write_sign true (
          write_digits
            (max_str_len_for_bits bits - 1)
            (suc n)
            (replicate (max_str_len_for_bits bits) 0))
unfolding to_intstr_signed
to_intstr_signed-negsuc bits n =
    let e : (suc n == 0) ≡ false = ground arith in
    rw (
      e,
      write_digits_signed-eq (max_str_len_for_bits bits - 1) (negsuc n)
          (replicate (max_str_len_for_bits bits) 0),
    )

-- The digits of the magnitude in a buffer of `n` bytes leave room for the sign.
sign_in_room :
    (n val : ℕ)
    → 2 ≤ n
    → val < 10 ^ (n - 2)
    → as_bytes (write_sign true (write_digits (n - 1) val (replicate n 0)))
      ≡ b'-' ∷ digits (n - 1) val []
sign_in_room n val p h =
    as_bytes-write_sign (write_digits (n - 1) val (replicate n 0)) (digits (n - 1) val [])
      (omega (arith, start-write_digits (n - 2) (n - 1) val (replicate n 0) h))
      (omega (
        arith,
        start-write_digits_le (n - 1) val (replicate n 0),
        length-write_digits (n - 1) val (replicate n 0),
        length-replicate {A = ℕ} n 0,
      ))
      (write_digits-fresh n val (omega arith))

max_str_len-ge : (bits : ℕ) → 2 ≤ max_str_len_for_bits bits
unfolding max_str_len_for_bits
max_str_len-ge bits = omega arith

pow_mono : (n : ℕ) → 10 ^ (n - 2) ≤ 10 ^ (n - 1)
pow_mono zero = omega arith
pow_mono (suc zero) = omega arith
pow_mono (suc (suc n)) =
    let e : suc (suc n) - 2 ≡ n = omega arith in
    let d : suc (suc n) - 1 ≡ suc n = omega arith in rw (e, d) (omega (arith, pow-suc 10 n))

parse_signed-minus :
    (half c : ℕ) (s : Bytes)
    → b'0' < c
    → parse_signed half (b'-' ∷ c ∷ s) ≡ Option.map neg (scan (half + 1) (c ∷ s) 0)
unfolding parse_signed
parse_signed-minus half c s h =
    let e : (c == b'+') ≡ false = ground arith in rw (e, parse_no_sign (half + 1) c s h)

parse_signed-plain :
    (half c : ℕ) (s : Bytes)
    → b'0' ≤ c
    → parse_signed half (c ∷ s) ≡ Option.map pos (parse_unsigned half (c ∷ s))
unfolding parse_signed
parse_signed-plain half c s h = let e : (c == b'-') ≡ false = ground arith in rw e

-- A text that parses as unsigned and starts with a digit parses as signed.
parse_signed-of :
    (half n : ℕ) (t : Bytes)
    → b'0' ≤ first t
    → parse_unsigned half t ≡ some n
    → parse_signed half t ≡ some (pos n)
parse_signed-of half n [] h e = absurd (omega arith)
parse_signed-of half n (c ∷ s) h e = parse_signed-plain half c s h ∙ ap (Option.map pos) e

first-to_intstr :
    (bits n : ℕ)
    → n < 10 ^ (max_str_len_for_bits bits - 1)
    → b'0' ≤ first (as_bytes (to_intstr bits n))
first-to_intstr bits zero h = rw (as_bytes-to_intstr_zero bits) (omega arith)
first-to_intstr bits (suc n) h =
    let (c, rest, e, lo, hi) =
      digits_leading (max_str_len_for_bits bits - 1) (suc n) [] (omega arith) h in
    rw (as_bytes-to_intstr bits (suc n) (omega arith)) (rw e (omega arith))

parse_signed-room :
    (bits half : ℕ) (val : ℤ)
    → half < 10 ^ (max_str_len_for_bits bits - 2)
    → unsigned_abs val ≤ half
    → val ≢ pos half
    → parse_signed half (as_bytes (to_intstr_signed bits val)) ≡ some val
parse_signed-room bits half (pos n) f l ne =
    let below : n < half = ground arith in
    let room : half ≤ 10 ^ (max_str_len_for_bits bits - 1) =
      omega (arith, pow_mono (max_str_len_for_bits bits)) in
    rw (to_intstr_signed-pos bits n) (
      parse_signed-of half n _ (first-to_intstr bits n (omega arith))
        (parse_in_room bits half n below room))
parse_signed-room bits half (negsuc n) f l ne =
    let k = max_str_len_for_bits bits - 1 in
    let small : suc n < 10 ^ k = omega (arith, pow_mono (max_str_len_for_bits bits)) in
    let (c, rest, e, lo, hi) = digits_leading k (suc n) [] (omega arith) small in
    rw (to_intstr_signed-negsuc bits n) (
      rw (sign_in_room (max_str_len_for_bits bits) (suc n) (max_str_len-ge bits) (omega arith)) (
        rw e (
          parse_signed-minus half c rest lo
          ∙ ap (Option.map neg) (
              ap (λ s. scan (half + 1) s 0) (sym e)
              ∙ scan-digits (half + 1) k (suc n) [] small (omega arith)
              ∙ scan-nil (half + 1) (suc n)))))

-- For i8, i16, i32 and i64 (and isize) alike: every value that the type holds, the least one
-- included, has a text that parses back to it.
pub parse_signed-to_intstr :
    (w : Width) (val : ℤ)
    → unsigned_abs val ≤ 2 ^ (bits_of w - 1)
    → val ≢ pos (2 ^ (bits_of w - 1))
    → parse_signed (2 ^ (bits_of w - 1)) (as_bytes (to_intstr_signed (bits_of w) val)) ≡ some val
unfolding max_str_len_for_bits
parse_signed-to_intstr w8 val l ne = parse_signed-room 8 (2 ^ 7) val (omega arith) l ne
parse_signed-to_intstr w16 val l ne = parse_signed-room 16 (2 ^ 15) val (omega arith) l ne
parse_signed-to_intstr w32 val l ne = parse_signed-room 32 (2 ^ 31) val (omega arith) l ne
parse_signed-to_intstr w64 val l ne = parse_signed-room 64 (2 ^ 63) val (omega arith) l ne
