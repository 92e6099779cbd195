-- ===== src/VarDb/File.antt =====
-- The file behind a database of l_builtin/src/vardb.rs, as `std::fs::File` shows it: its bytes, and
-- which of the coming calls fail.
use l_builtin.Base.{
  ℕ, ◌+◌, Option, none, some, List, [], ◌∷◌, ◌++◌, Bytes, take, drop, length, replicate, ok, err,
  Command, Outcome, if◌then◌else◌, leb,
}

-- A fault of a call: how many bytes it wrote before it failed.
pub record File : Type 0 where
  pub content : Bytes
  pub faults : List (Option ℕ)

-- `EIO`, and `ErrorKind::UnexpectedEof`, which has no number
abbrev pub input_output_error : ℕ
input_output_error = 5

-- Bytes written at an offset; what lies between the end and the offset becomes NUL.
unfoldable pub written : Bytes → ℕ → Bytes → Bytes
written content offset bytes =
    take offset (content ++ replicate offset 0)
    ++ bytes
    ++ drop (length bytes) (drop offset content)

unfoldable pub resized : Bytes → ℕ → Bytes
resized content n = take n (content ++ replicate n 0)

-- A call: what it does when it succeeds, and when it fails after that many bytes.
abbrev pub tried :
    {A : Type 0}
    → A
    → (Bytes → Bytes)
    → (ℕ → Bytes → Bytes)
    → Bytes
    → List (Option ℕ)
    → Outcome A × File
tried value success failure content [] =
    (ok value, record { content = success content; faults = [] })
tried value success failure content (none ∷ rest) =
    (ok value, record { content = success content; faults = rest })
tried value success failure content (some n ∷ rest) =
    (err input_output_error, record { content = failure n content; faults = rest })

abbrev pub faulty : {A : Type 0} → A → (Bytes → Bytes) → (ℕ → Bytes → Bytes) → Command File A
faulty value success failure file = tried value success failure file.content file.faults

unfoldable pub write_all_at : Bytes → ℕ → Command File (Unit {0})
write_all_at bytes offset =
    faulty tt (λ content. written content offset bytes)
      (λ n content. written content offset (take n bytes))

unfoldable pub set_len : ℕ → Command File (Unit {0})
set_len n = faulty tt (λ content. resized content n) (λ _ content. content)

unfoldable pub sync_all : Command File (Unit {0})
sync_all = faulty tt (λ content. content) (λ _ content. content)

-- `metadata()?.len()`
unfoldable pub len : Command File ℕ
len file = faulty (length file.content) (λ content. content) (λ _ content. content) file

-- `read_exact_at`: no bytes stand for `UnexpectedEof`
unfoldable pub read_exact_at : ℕ → ℕ → Command File (Option Bytes)
read_exact_at n offset file =
    faulty
      (if leb (offset + n) (length file.content)
        then some (take n (drop offset file.content))
        else none)
      (λ content. content) (λ _ content. content) file
