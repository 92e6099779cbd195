-- ===== src/Shm/Printed.antt =====
-- l_builtin/src/cmd_shm.rs: what `info` prints of an associative array can be read back.
use l_builtin.Base.{
  ℕ, zero, suc, ◌≡◌, ◌≤◌, refl, ap, ◌∙◌, inl, inr, some, [], ◌∷◌, ◌++◌, Bool, true, false, Bytes,
  length, ◌==◌, Bool-cases, arith,
}
use l_builtin.Base.Assoc.{Assoc}
use l_builtin.VarDb.{VarData}
use l_builtin.Shm.Print.{
  must_escape, escaped, escape_quoted, spaced, assoc_elements, print_var_assignment,
}
use l_builtin.Shm.Reader.{
  is_special, expands, read_quoted, IsPlain, and_also, is_close, read_pair, read_elements, IsKey,
  AreReadable, if_subscript-key,
}

read_plain :
    (b : ℕ) (tail text rest : Bytes)
    → must_escape b ≡ false
    → expands b ≡ false
    → read_quoted tail ≡ some (text, rest)
    → read_quoted (b ∷ tail) ≡ some ((b ∷ text), rest)
read_plain b [] text rest e plain h = absurd (nothing h)
  where
    nothing : read_quoted [] ≡ some (text, rest) → ⊥
    nothing h = cc
read_plain b (c ∷ tail) text rest e plain h =
    let no_quote : (b == b'"') ≡ false = ground arith in
    let no_slash : (b == b'\\') ≡ false = ground arith in rw (no_quote, plain, no_slash, h) refl

escaped_special : (b : ℕ) → must_escape b ≡ true → is_special b ≡ true
escaped_special b e = ground arith

read_quoted-escaped :
    (text rest : Bytes)
    → IsPlain text
    → read_quoted (escaped text ++ b'"' ∷ rest) ≡ some (text, rest)
unfolding escaped
read_quoted-escaped [] [] plain = refl
read_quoted-escaped [] (c ∷ rest) plain = refl
read_quoted-escaped (b ∷ text) rest (here, plain) = elim (Bool-cases (must_escape b)) [
  | inl e ↦ rw (e, escaped_special b e, read_quoted-escaped text rest plain) refl
  | inr e ↦ rw e (
      read_plain b (escaped text ++ b'"' ∷ rest) text rest e here
        (read_quoted-escaped text rest plain))
]

append_assoc : (xs ys zs : Bytes) → (xs ++ ys) ++ zs ≡ xs ++ (ys ++ zs)
append_assoc [] ys zs = refl
append_assoc (x ∷ xs) ys zs = ap (λ t. x ∷ t) (append_assoc xs ys zs)

-- The printed elements and what follows them
abbrev space : Bool → Bytes → Bytes
space true tail = tail
space false tail = b' ' ∷ tail

-- One element and what follows it
abbrev pair_text : Bytes → Bytes → Bytes → Bytes
pair_text key value tail =
    b'[' ∷ b'"' ∷ (escaped key ++ (b'"' ∷ b']' ∷ b'=' ∷ b'"' ∷ (escaped value ++ (b'"' ∷ tail))))

abbrev pairs_text : Assoc Bytes Bytes → Bool → Bytes → Bytes
pairs_text [] first tail = tail
pairs_text ((key, value) ∷ rest) first tail =
    space first (pair_text key value (pairs_text rest false tail))

spaced-append :
    (first : Bool) (line tail : Bytes) → spaced first line ++ tail ≡ line ++ space first tail
spaced-append true line tail = refl
spaced-append false line tail = append_assoc line (b' ' ∷ []) tail

escape_quoted-append :
    (out bytes tail : Bytes)
    → escape_quoted out bytes ++ tail ≡ out ++ (b'"' ∷ (escaped bytes ++ (b'"' ∷ tail)))
unfolding escape_quoted
escape_quoted-append out bytes tail =
    append_assoc out (b'"' ∷ (escaped bytes ++ (b'"' ∷ []))) tail
    ∙ ap (λ t. out ++ (b'"' ∷ t)) (append_assoc (escaped bytes) (b'"' ∷ []) tail)

assoc_elements-pairs_text :
    (m : Assoc Bytes Bytes) (first : Bool) (line tail : Bytes)
    → assoc_elements m first line ++ tail ≡ line ++ pairs_text m first tail
assoc_elements-pairs_text [] first line tail = refl
assoc_elements-pairs_text ((key, value) ∷ rest) first line tail =
    let start = spaced first line ++ (b'[' ∷ []) in
    let named = escape_quoted start key ++ (b']' ∷ b'=' ∷ []) in
    let more = pairs_text rest false tail in
    let valued : Bytes = b'"' ∷ (escaped value ++ (b'"' ∷ more)) in
    assoc_elements-pairs_text rest false (escape_quoted named value) tail
    ∙ escape_quoted-append named value more
    ∙ append_assoc (escape_quoted start key) (b']' ∷ b'=' ∷ []) valued
    ∙ escape_quoted-append start key (b']' ∷ b'=' ∷ valued)
    ∙ append_assoc (spaced first line) (b'[' ∷ [])
        (b'"' ∷ (escaped key ++ (b'"' ∷ b']' ∷ b'=' ∷ valued)))
    ∙ spaced-append first line (pair_text key value more)

read_pair-pair_text :
    (first : Bool) (key value tail : Bytes)
    → IsKey key
    → IsPlain value
    → (is_close (space first (pair_text key value tail)) ≡ false)
      × (read_pair (space first (pair_text key value tail)) ≡ some ((key, value), tail))
read_pair-pair_text first key value tail (filled, plain_key) plain =
    let behind : Bytes = b']' ∷ b'=' ∷ b'"' ∷ (escaped value ++ (b'"' ∷ tail)) in
    let one = read_quoted-escaped key behind plain_key in
    let two = read_quoted-escaped value tail plain in go first one two
  where
    go :
        (first : Bool)
        → read_quoted
            (escaped key ++ (b'"' ∷ b']' ∷ b'=' ∷ b'"' ∷ (escaped value ++ (b'"' ∷ tail))))
          ≡ some (key, (b']' ∷ b'=' ∷ b'"' ∷ (escaped value ++ (b'"' ∷ tail))))
        → read_quoted (escaped value ++ (b'"' ∷ tail)) ≡ some (value, tail)
        → (is_close (space first (pair_text key value tail)) ≡ false)
          × (read_pair (space first (pair_text key value tail)) ≡ some ((key, value), tail))
    go true one two = (
      refl,
      rw
          (
            one,
            two,
            if_subscript-key {A = (Bytes × Bytes) × Bytes} key filled (some ((key, value), tail)),
          )
          refl,
    )
    go false one two = (
      refl,
      rw
          (
            one,
            two,
            if_subscript-key {A = (Bytes × Bytes) × Bytes} key filled (some ((key, value), tail)),
          )
          refl,
    )

read_elements-pairs_text :
    (m : Assoc Bytes Bytes) (first : Bool) (n : ℕ)
    → length m ≤ n
    → AreReadable m
    → read_elements (suc n) (pairs_text m first (b')' ∷ [])) ≡ some m
read_elements-pairs_text [] first n h readable = refl
read_elements-pairs_text ((key, value) ∷ rest) first zero h readable = absurd (omega arith)
read_elements-pairs_text ((key, value) ∷ rest) first (suc n) h ((key_ok, plain), readable) =
    let tail = pairs_text rest false (b')' ∷ []) in
    let pair = read_pair-pair_text first key value tail key_ok plain in
    rw (pair.0, pair.1)
      (ap (λ found. and_also found (λ others. some ((key, value) ∷ others)))
        (read_elements-pairs_text rest false n (omega arith) readable))

-- Where no key is empty and no key and no value has a dollar sign or a backquote, what is printed of an
-- associative array is an assignment that reads back as its entries in the same order, by the rules of bash
-- for text between double quotes; quotes, backslashes, line ends, spaces and brackets may be in it.
pub print_var_assignment-read_elements :
    (name : Bytes) (m : Assoc Bytes Bytes) (n : ℕ)
    → length m ≤ n
    → AreReadable m
    → (text : Bytes) × (print_var_assignment name (VarData.assoc m) ≡ name ++ (b'=' ∷ b'(' ∷ text))
      × (read_elements (suc n) text ≡ some m)
unfolding print_var_assignment
print_var_assignment-read_elements name m n h readable = (
  pairs_text m true (b')' ∷ []),
  assoc_elements-pairs_text m true (name ++ (b'=' ∷ b'(' ∷ [])) (b')' ∷ [])
      ∙ append_assoc name (b'=' ∷ b'(' ∷ []) (pairs_text m true (b')' ∷ [])),
  read_elements-pairs_text m true n h readable,
)
