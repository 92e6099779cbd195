-- ===== src/Handles/Retired.antt =====
-- l_builtin/src/handles.rs: ids are not used twice.
use l_builtin.Base.{
  ==_refl, false, ap, Bool, ◌∙◌, ◌%◌, ℕ, ◌≡◌, ◌<◌, ◌+◌, ◌^◌, List, [], ◌∷◌, Option, none, some,
  Bytes, length, arith, if◌then◌else◌, true, false, refl, ◌==◌,
}
use l_builtin.Base.Assoc.{id_key, get, get-put, get-remove}
use l_builtin.Handles.{pointer, Registry, HandleEntry, store, take, lookup}

-- What is done to a registry over time.
pub data Use : Type 0 where
  storing : ℕ → Option Bytes → Use
  taking : ℕ → Use

unfoldable pub after : Registry → List Use → Registry
after inner [] = inner
after inner (storing ptr name ∷ uses) = after (store ptr name inner).1 uses
after inner (taking id ∷ uses) = after (take id inner).1 uses

-- The id was given out before and names nothing now.
abbrev pub Retired : ℕ → Registry → Type 0
Retired id inner = (id < inner.next) × (get inner.entries id ≡ none)

next-store : (n : ℕ) → n + 1 < 2 ^ 64 → (n + 1) % 2 ^ 64 ≡ n + 1
next-store n room = omega arith

entry-store :
    (ptr id : ℕ) (name : Option Bytes) (inner : Registry)
    → Retired id inner
    → get (store ptr name inner).1.entries id ≡ none
entry-store ptr id name inner (old, gone) =
    let other : (inner.next == id) ≡ false = ground arith in
    get-put inner.entries inner.next id (record { ptr = ptr; name = name })
    ∙ ap (λ b. if b then some (record { ptr = ptr; name = name }) else get inner.entries id) other
    ∙ gone

Retired-store :
    (ptr id : ℕ) (name : Option Bytes) (inner : Registry)
    → inner.next + 1 < 2 ^ 64
    → Retired id inner
    → Retired id (store ptr name inner).1
Retired-store ptr id name inner room (old, gone) =
    (let e = next-store inner.next room in omega arith, entry-store ptr id name inner (old, gone))

if-none : (b : Bool) (o : Option HandleEntry) → o ≡ none → (if b then none else o) ≡ none
if-none true o h = refl
if-none false o h = h

Retired-take : (j id : ℕ) (inner : Registry) → Retired id inner → Retired id (take j inner).1
Retired-take j id inner (old, gone) =
    (old, get-remove inner.entries j id ∙ if-none (j == id) (get inner.entries id) gone)

Retired-after :
    (id : ℕ) (inner : Registry) (uses : List Use)
    → inner.next + length uses < 2 ^ 64
    → Retired id inner
    → Retired id (after inner uses)
unfolding after
Retired-after id inner [] room r = r
Retired-after id inner (storing ptr name ∷ uses) room r =
    let e = next-store inner.next (omega arith) in
    Retired-after id (store ptr name inner).1 uses (omega arith)
      (Retired-store ptr id name inner (omega arith) r)
Retired-after id inner (taking j ∷ uses) room r =
    Retired-after id (take j inner).1 uses (omega arith) (Retired-take j id inner r)

Retired-taken : (id : ℕ) (inner : Registry) → id < inner.next → Retired id (take id inner).1
Retired-taken id inner old = (
  old,
  get-remove inner.entries id id ∙ ap (λ b. if b then none else get inner.entries id) (==_refl id),
)

-- A handle that was given out and taken is not known again, whatever is stored and taken later, as
-- long as the ids do not reach 2^64.
pub retired_handle :
    (id : ℕ) (inner : Registry) (uses : List Use)
    → id < inner.next
    → inner.next + length uses < 2 ^ 64
    → lookup id (after (take id inner).1 uses) ≡ none
retired_handle id inner uses old room =
    ap pointer (Retired-after id (take id inner).1 uses room (Retired-taken id inner old)).1
