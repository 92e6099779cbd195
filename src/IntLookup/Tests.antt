-- ===== src/IntLookup/Tests.antt =====
-- Lookups in the table of `SEMAPHORE_SUBCOMMANDS` and in those of the unit tests, and the theorems at
-- an input.
use l_builtin.Base.{In, ℕ, ◌≡◌, ◌↔◌, refl, some, none, [], ◌∷◌, Bytes, List, Option, arith}
use l_builtin.Base.Partial.{Partial, done, panic, ◌>>=◌}
use l_builtin.IntLookup.{Rows, intlookup, sort}
use l_builtin.IntLookup.Find.{lookup}
use l_builtin.IntLookup.Sorted.{IsSorted}
use l_builtin.IntLookup.Build.Order.{sort_correct}
use l_builtin.IntLookup.Resolve.{Chosen, lookup_iff}

-- "open", "post", "close"
abbrev open_post_close : List (Bytes × ℕ)
open_post_close =
    (b'o' ∷ b'p' ∷ b'e' ∷ b'n' ∷ [], 1)
    ∷ (b'p' ∷ b'o' ∷ b's' ∷ b't' ∷ [], 2)
    ∷ (b'c' ∷ b'l' ∷ b'o' ∷ b's' ∷ b'e' ∷ [], 3)
    ∷ []

-- "foo", "bar", "baz"
abbrev foo_bar_baz : List (Bytes × ℕ)
foo_bar_baz =
    (b'f' ∷ b'o' ∷ b'o' ∷ [], 1) ∷ (b'b' ∷ b'a' ∷ b'r' ∷ [], 2) ∷ (b'b' ∷ b'a' ∷ b'z' ∷ [], 3) ∷ []

look : Bytes → Partial (Option ℕ)
unfolding intlookup lookup
look key = do t ← intlookup foo_bar_baz; lookup t.0 t.1 key

exact : look (b'b' ∷ b'a' ∷ b'z' ∷ []) ≡ done (some 3)
unfolding look
exact = refl

unique : look (b'f' ∷ []) ≡ done (some 1)
unfolding look
unique = refl

ambiguous : look (b'b' ∷ b'a' ∷ []) ≡ done none
unfolding look
ambiguous = refl

absent : look (b'q' ∷ b'u' ∷ b'x' ∷ []) ≡ done none
unfolding look
absent = refl

-- An empty name panics.
empty_name : look [] ≡ panic
unfolding look
empty_name = refl

-- A table with a name twice panics when it is built.
duplicate : intlookup {V = ℕ} ((b'a' ∷ [], 1) ∷ (b'b' ∷ [], 2) ∷ (b'a' ∷ [], 3) ∷ []) ≡ panic
unfolding intlookup
duplicate = refl

abbrev packed_rows : Rows ℕ
packed_rows = (7164223648646037504, 3) ∷ (8030029658722402304, 1) ∷ (8101821196716212224, 2) ∷ []

table : intlookup open_post_close ≡ done (8, packed_rows)
unfolding intlookup
table = refl

-- "p" is a prefix of "post" only.
lookup_iff_example :
    (o : Option ℕ) × (lookup 8 packed_rows (b'p' ∷ []) ≡ done o)
    × ((v : ℕ) → (o ≡ some v) ↔ Chosen open_post_close (b'p' ∷ []) v)
lookup_iff_example =
    lookup_iff open_post_close (8, packed_rows) table (omega arith) (b'p' ∷ []) (omega arith)
      (omega arith)

abbrev three_rows : Rows ℕ
three_rows = (7, 1) ∷ (3, 2) ∷ (5, 3) ∷ []

abbrev sorted_rows : Rows ℕ
sorted_rows = (3, 2) ∷ (5, 3) ∷ (7, 1) ∷ []

sorts : sort three_rows ≡ done sorted_rows
unfolding sort
sorts = refl

sort_correct_example : IsSorted sorted_rows × ((x : ℕ × ℕ) → In x sorted_rows ↔ In x three_rows)
sort_correct_example = sort_correct three_rows sorted_rows sorts
