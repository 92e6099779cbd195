-- ===== src/IntLookup/Pack.antt =====
-- intlookup.rs: `pack` as a big-endian number, and prefixes as numbers with low bits cleared.
use l_builtin.Base.{
  false, ◌==◌, true, leb, length-replicate, length-append, ℕ, zero, suc, ◌+◌, ◌-◌, ◌*◌, ◌/◌, ◌^◌,
  ◌≤◌, ◌<◌, ◌≡◌, refl, ap, ◌∙◌, [], ◌∷◌, ◌++◌, Bytes, IsBytes, length, replicate, arith, sym,
}
use native.Mathlib.Numerals.{towards_suc}
use l_builtin.Base.Partial.{done}
use l_builtin.IntLookup.{pack_from, pack}
use l_builtin.IntLookup.Find.{masked}

-- 256 ^ n, as the shifts of the code write it
pub pow8 : ℕ → ℕ
pow8 n = 2 ^ (n * 8)

pow8-suc : (n : ℕ) → pow8 (suc n) ≡ 256 * pow8 n
unfolding pow8
pow8-suc n = let e : suc n * 8 ≡ n * 8 + 8 = omega arith in rw e (simp towards_suc (omega arith))

pow8-shift : (n : ℕ) → 2 ^ (n * 8) ≡ pow8 n
unfolding pow8
pow8-shift n = refl

pow8-zero : pow8 0 ≡ 1
unfolding pow8
pow8-zero = refl

pub pow8-pos : (n : ℕ) → 0 < pow8 n
pow8-pos zero = omega (arith, pow8-zero)
pow8-pos (suc n) = omega (arith, pow8-suc n, pow8-pos n)

times_of_one : (p q : ℕ) → p ≡ 1 → q ≡ p * q
times_of_one p q e = rw e (omega arith)

pow8-add : (m n : ℕ) → pow8 (m + n) ≡ pow8 m * pow8 n
pow8-add zero n =
    let e : zero + n ≡ n = omega arith in rw e (times_of_one (pow8 0) (pow8 n) pow8-zero)
pow8-add (suc m) n =
    let e : suc m + n ≡ suc (m + n) = omega arith in
    rw e (
      pow8-suc (m + n)
      ∙ ap (λ t. 256 * t) (pow8-add m n)
      ∙ regroup
      ∙ ap (λ t. t * pow8 n) (sym (pow8-suc m)))
  where
    regroup : 256 * (pow8 m * pow8 n) ≡ 256 * pow8 m * pow8 n
    regroup = omega arith

-- The bytes read as a big-endian number.
pub big_endian : Bytes → ℕ
big_endian [] = 0
big_endian (b ∷ bs) = b * pow8 (length bs) + big_endian bs

big_endian-lt : (bs : Bytes) → IsBytes bs → big_endian bs < pow8 (length bs)
unfolding big_endian
big_endian-lt [] h = omega (arith, pow8-zero)
big_endian-lt (b ∷ bs) h =
    let top : b * pow8 (length bs) ≤ 255 * pow8 (length bs) =
      times (pow8 (length bs)) (omega arith) in
    omega (arith, pow8-suc (length bs), big_endian-lt bs h.1)
  where
    times : {b : ℕ} (p : ℕ) → b ≤ 255 → b * p ≤ 255 * p
    times p l = grind arith

pack_from_lem :
    (t i : ℕ) (bytes : Bytes) (val : ℕ)
    → i + length bytes ≤ t
    → pack_from t i bytes val ≡ val + big_endian bytes * pow8 (t - i - length bytes)
unfolding pack_from big_endian
pack_from_lem t i [] val h = omega arith
pack_from_lem t i (b ∷ bs) val h =
    let rest : t - (i + 1) - length bs ≡ t - i - suc (length bs) = omega arith in
    let place : t - 1 - i ≡ length bs + (t - i - suc (length bs)) = omega arith in
    pack_from_lem t (i + 1) bs (val + b * 2 ^ ((t - 1 - i) * 8)) (omega arith)
    ∙ rw (rest, place) (join (length bs) (t - i - suc (length bs)))
  where
    join :
        (m q : ℕ)
        → val + b * 2 ^ ((m + q) * 8) + big_endian bs * pow8 q
          ≡ val + (b * pow8 m + big_endian bs) * pow8 q
    join m q = rw (pow8-shift (m + q), pow8-add m q) (omega arith)

-- The packed key: the bytes, from the top of the integer.
pub pack_lem :
    (t : ℕ) (bytes : Bytes)
    → length bytes ≤ t
    → 0 < length bytes
    → pack t bytes ≡ done (big_endian bytes * pow8 (t - length bytes))
unfolding pack
pack_lem t bytes h p =
    let long : leb (length bytes) t ≡ true = ground arith in
    let filled : (length bytes == 0) ≡ false = ground arith in
    let whole : t - 0 - length bytes ≡ t - length bytes = omega arith in
    rw (long, filled) (ap done (pack_from_lem t 0 bytes 0 (omega arith) ∙ rw whole (omega arith)))

big_endian-append :
    (xs ys : Bytes) → big_endian (xs ++ ys) ≡ big_endian xs * pow8 (length ys) + big_endian ys
unfolding big_endian
big_endian-append [] ys = omega arith
big_endian-append (x ∷ xs) ys =
    rw (length-append xs ys, pow8-add (length xs) (length ys))
      (omega (arith, big_endian-append xs ys))

big_endian-zeros : (n : ℕ) → big_endian (replicate n 0) ≡ 0
unfolding big_endian
big_endian-zeros zero = refl
big_endian-zeros (suc n) = omega (arith, big_endian-zeros n)

digit_unique : (p x y a b : ℕ) → a < p → b < p → x * p + a ≡ y * p + b → x ≡ y
digit_unique p x y a b ha hb e = grind arith

digit_rest : (p x y a b : ℕ) → x ≡ y → x * p + a ≡ y * p + b → a ≡ b
digit_rest p x y a b h e = grind arith

-- Byte strings of one length with one value are one string.
pub big_endian-injective :
    (xs ys : Bytes)
    → IsBytes xs
    → IsBytes ys
    → length xs ≡ length ys
    → big_endian xs ≡ big_endian ys
    → xs ≡ ys
unfolding big_endian
big_endian-injective [] [] hx hy l e = refl
big_endian-injective [] (y ∷ ys) hx hy l e = absurd (omega arith)
big_endian-injective (x ∷ xs) [] hx hy l e = absurd (omega arith)
big_endian-injective (x ∷ xs) (y ∷ ys) hx hy l e =
    let same : length xs ≡ length ys = omega arith in
    let below : big_endian xs < pow8 (length ys) = rw same at (big_endian-lt xs hx.1) in
    let sums : x * pow8 (length ys) + big_endian xs ≡ y * pow8 (length ys) + big_endian ys =
      rw same at e in
    let head = digit_unique (pow8 (length ys)) x y _ _ below (big_endian-lt ys hy.1) sums in
    let rest : big_endian xs ≡ big_endian ys = digit_rest (pow8 (length ys)) x y _ _ head sums in
    cc (head, big_endian-injective xs ys hx.1 hy.1 same rest)

-- what the masks keep
clear_low : (d x r : ℕ) → r < d → (x * d + r) / d * d ≡ x * d
clear_low d x r h = grind arith

pub masked-top :
    (n : ℕ) (hi lo : Bytes)
    → IsBytes lo
    → length lo ≡ n
    → masked (n * 8) (big_endian (hi ++ lo)) ≡ big_endian hi * pow8 n
masked-top n hi lo h e =
    rw (pow8-shift n, big_endian-append hi lo)
      (rw e (clear_low (pow8 n) (big_endian hi) (big_endian lo) (rw e at (big_endian-lt lo h))))

-- The bytes of a key, filled up with NULs to the size of the integer.
abbrev pub padded : ℕ → Bytes → Bytes
padded t bytes = bytes ++ replicate (t - length bytes) 0

pub big_endian-padded :
    (t : ℕ) (bytes : Bytes)
    → big_endian (padded t bytes) ≡ big_endian bytes * pow8 (t - length bytes)
big_endian-padded t bytes =
    big_endian-append bytes (replicate (t - length bytes) 0)
    ∙ rw (length-replicate {A = ℕ} (t - length bytes) 0)
        (omega (arith, big_endian-zeros (t - length bytes)))
