-- ===== src/Shm/Reader.antt =====
-- What bash reads in an assignment of an associative array, for the lines that l_builtin/src/cmd_shm.rs
-- prints.
use l_builtin.Base.{
  ℕ, zero, suc, ◌≡◌, ◌≢◌, ◌||◌, refl, Option, none, some, [], ◌∷◌, Bool, false, Bytes,
  if◌then◌else◌, ◌==◌,
}
use l_builtin.Base.Assoc.{Assoc}

abbrev pub grown : ℕ → Option (Bytes × Bytes) → Option (Bytes × Bytes)
grown b none = none
grown b (some (text, rest)) = some ((b ∷ text), rest)

-- What a backslash takes its meaning from, in front of it between double quotes
abbrev pub is_special : ℕ → Bool
is_special b = (b == b'$') || ((b == b'`') || ((b == b'"') || (b == b'\\')))

-- What may begin an expansion between double quotes
abbrev pub expands : ℕ → Bool
expands b = (b == b'$') || (b == b'`')

-- The reader of text between double quotes that bash's manual describes, behind the opening one: the
-- text, and what follows the closing quote. A backslash is taken off in front of a dollar sign, a
-- backquote, a quote or a backslash, off together with a line end, and stands for itself otherwise; text in
-- which an expansion may begin is not read.
abbrev pub read_quoted : Bytes → Option (Bytes × Bytes)
read_quoted [] = none
read_quoted (b ∷ []) = if b == b'"' then some ([], []) else none
read_quoted (b ∷ c ∷ rest) =
    let skipped = read_quoted rest in
    let next = read_quoted (c ∷ rest) in
    if b == b'"'
    then some ([], c ∷ rest)
    else if expands b
    then none
    else if b == b'\\'
    then (if is_special c then grown c skipped else if c == b'\n' then skipped else grown b next)
    else grown b next

-- A text without dollar signs and backquotes
abbrev pub IsPlain : Bytes → Type 0
IsPlain [] = Unit {0}
IsPlain (b ∷ text) = (expands b ≡ false) × IsPlain text

abbrev pub and_also : {A C : Type 0} → Option A → (A → Option C) → Option C
and_also none rest = none
and_also (some a) rest = rest a

abbrev pub expect : Bytes → Bytes → Option Bytes
expect [] text = some text
expect (b ∷ prefix_text) [] = none
expect (b ∷ prefix_text) (c ∷ text) =
    let rest = expect prefix_text text in if b == c then rest else none

abbrev pub skip_space : Bytes → Bytes
skip_space [] = []
skip_space (b ∷ text) = if b == b' ' then text else b ∷ text

abbrev pub is_close : Bytes → Bool
is_close [] = false
is_close (b ∷ text) = b == b')'

abbrev pub read_value : Bytes → Bytes → Option ((Bytes × Bytes) × Bytes)
read_value key text =
    and_also (expect (b']' ∷ b'=' ∷ b'"' ∷ []) text)
      (λ opened. and_also (read_quoted opened) (λ value. some ((key, value.0), value.1)))

-- An empty key is a bad subscript.
abbrev pub if_subscript : {A : Type 0} → Bytes → Option A → Option A
if_subscript [] found = none
if_subscript (b ∷ key) found = found

abbrev pub read_pair : Bytes → Option ((Bytes × Bytes) × Bytes)
read_pair text =
    and_also (expect (b'[' ∷ b'"' ∷ []) (skip_space text))
      (λ opened. and_also (read_quoted opened) (λ key. if_subscript key.0 (read_value key.0 key.1)))

-- A reader of the elements of an associative array, [KEY]=VALUE with both in double quotes, up to the
-- closing parenthesis; the number bounds how many there may be.
abbrev pub read_elements : ℕ → Bytes → Option (Assoc Bytes Bytes)
read_elements zero text = none
read_elements (suc n) text =
    let others = read_elements n in
    if is_close text
    then some []
    else and_also (read_pair text) (λ pair. and_also (others pair.1) (λ rest. some (pair.0 ∷ rest)))

-- A subscript that is not empty, without dollar signs and backquotes
abbrev pub IsKey : Bytes → Type 0
IsKey key = (key ≢ []) × IsPlain key

abbrev pub AreReadable : Assoc Bytes Bytes → Type 0
AreReadable [] = Unit {0}
AreReadable ((key, value) ∷ rest) = (IsKey key × IsPlain value) × AreReadable rest

pub if_subscript-key :
    {A : Type 0} (key : Bytes) → key ≢ [] → (found : Option A) → if_subscript key found ≡ found
if_subscript-key [] filled found = absurd (filled refl)
if_subscript-key (b ∷ key) filled found = refl
