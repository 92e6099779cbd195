-- ===== src/Variadic.antt =====
-- llib/src/variadic.rs: the iterator over the specifiers of a format.
mod Found
mod Tests
use l_builtin.Base.{
  ℕ, zero, suc, ◌+◌, ◌-◌, Option, none, some, List, [], ◌∷◌, Bool, true, false, ◌&&◌, ◌||◌, Bytes,
  if◌then◌else◌, ◌==◌, ltb, leb, length, get_or, take, drop,
}

-- How many bytes in front pass the test, which is what the loops of the parser step over
abbrev pub leading : (ℕ → Bool) → Bytes → ℕ
leading p [] = 0
leading p (b ∷ s) = let more = leading p s in if p b then suc more else 0

unfoldable pub skip : (ℕ → Bool) → Bytes → ℕ → ℕ
skip p bytes j = j + leading p (drop j bytes)

abbrev pub is_flag : ℕ → Bool
is_flag b = (b == b'-') || (b == b'+') || (b == b'0') || (b == b' ') || (b == b'#')

abbrev pub is_ascii_digit : ℕ → Bool
is_ascii_digit b = leb b'0' b && leb b b'9'

abbrev pub is_length_modifier : ℕ → Bool
is_length_modifier b =
    (b == b'h') || (b == b'l') || (b == b'z') || (b == b'j') || (b == b't') || (b == b'L')

-- The byte at the place is there and is that one.
abbrev pub has_byte : Bytes → ℕ → ℕ → Bool
has_byte bytes j b = ltb j (length bytes) && (get_or bytes j 0 == b)

-- A star or digits: whether it was a star, and the place behind it
unfoldable pub number : Bytes → ℕ → Bool × ℕ
number bytes j =
    if has_byte bytes j b'*' then (true, j + 1) else (false, skip is_ascii_digit bytes j)

unfoldable pub precision : Bytes → ℕ → Bool × ℕ
precision bytes j = if has_byte bytes j b'.' then number bytes (j + 1) else (false, j)

-- The dynamic width and precision, and the text
pub record Specifier : Type 0 where
  pub dynamic_width : Bool
  pub dynamic_prec : Bool
  pub text : Bytes

abbrev pub read_width : Bytes → ℕ → Bool × ℕ
read_width bytes start = number bytes (skip is_flag bytes (start + 1))

abbrev pub read_prec : Bytes → ℕ → Bool × ℕ
read_prec bytes start = precision bytes (read_width bytes start).1

-- The place of the conversion
unfoldable pub conversion : Bytes → ℕ → ℕ
conversion bytes start = skip is_length_modifier bytes (read_prec bytes start).1

-- The specifier that starts at the place, where it has its end, and the place behind
unfoldable pub specifier : Bytes → ℕ → Option (Specifier × ℕ)
specifier bytes start =
    let spec_end = conversion bytes start + 1 in
    if ltb (conversion bytes start) (length bytes)
    then some (
      record {
        dynamic_width = (read_width bytes start).0;
        dynamic_prec = (read_prec bytes start).0;
        text = take (spec_end - start) (drop start bytes);
      },
      spec_end,
    )
    else none

-- What the iterator gives, and where it stands then; `none` where it was not followed to its end.
abbrev pub Step : Type 0
Step = Option (Option Specifier × ℕ)

abbrev pub or_further : Option (Specifier × ℕ) → Step → Step
or_further none further = further
or_further (some (s, spec_end)) further = some (some s, spec_end)

unfoldable pub next : ℕ → Bytes → ℕ → Step
next zero bytes idx = none
next (suc n) bytes idx =
    let escaped = next n bytes (idx + 2) in
    let further = next n bytes (idx + 1) in
    if ltb idx (length bytes)
    then (if get_or bytes idx 0 == b'%'
        then (if has_byte bytes (idx + 1) b'%'
            then escaped
            else or_further (specifier bytes idx) further)
        else further)
    else some (none, idx)
