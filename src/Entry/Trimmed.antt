-- ===== src/Entry/Trimmed.antt =====
-- l_builtin/src/entrypoint.rs: what the trimming of line ends cuts off.
use l_builtin.Base.{
  ℕ, zero, suc, ◌≡◌, ◌≤◌, ◌<◌, ◌⊎◌, Option, none, some, [], ◌∷◌, false, ◌&&◌, Bytes, length, get_or,
  drop, ◌==◌,
}

-- Line feeds, each with or without a carriage return in front
abbrev pub IsLineEnds : Bytes → Type 0
IsLineEnds [] = Unit {0}
IsLineEnds (b ∷ []) = b ≡ b'\n'
IsLineEnds (b ∷ c ∷ rest) =
    ((b ≡ b'\n') × IsLineEnds (c ∷ rest)) ⊎ ((b ≡ b'\r') × (c ≡ b'\n') × IsLineEnds rest)

-- The least place behind which there are line ends only
abbrev pub IsTrimmed : Bytes → ℕ → Type 0
IsTrimmed bytes i =
    (i ≤ length bytes)
    × IsLineEnds (drop i bytes)
    × ((j : ℕ) → j < i → IsLineEnds (drop j bytes) → ⊥)

-- No carriage return in front of the place with a line feed at it
abbrev IsApart : Bytes → ℕ → Type 0
IsApart bytes zero = Unit {0}
IsApart bytes (suc k) = ((get_or bytes k 0 == b'\r') && (get_or bytes (suc k) 0 == b'\n')) ≡ false

abbrev Ends : Bytes → Option ℕ → Type 0
Ends bytes none = ⊥
Ends bytes (some i) = IsTrimmed bytes i
