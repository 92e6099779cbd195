-- ===== src/Shm/Names.antt =====
-- l_builtin/src/bash_api.rs: `is_valid_var_name`, and the names that a shell variable may have.
use l_builtin.Base.{
  ℕ, ◌≤◌, ◌≡◌, ◌↔◌, ◌⊎◌, ◌∙◌, sym, refl, inl, inr, true, false, not, ◌&&◌, [], ◌∷◌, Bytes, ◌==◌,
  arith, Bool-cases,
}
use l_builtin.Shm.Place.{is_valid_var_name, only_word, is_ascii_alphabetic, is_ascii_alphanumeric}

-- An underscore or a letter of ASCII
abbrev pub IsLetter : ℕ → Type 0
IsLetter b = ((b'a' ≤ b) × (b ≤ b'z')) ⊎ (((b'A' ≤ b) × (b ≤ b'Z')) ⊎ (b ≡ b'_'))

abbrev pub IsWordByte : ℕ → Type 0
IsWordByte b = IsLetter b ⊎ ((b'0' ≤ b) × (b ≤ b'9'))

abbrev pub IsWord : Bytes → Type 0
IsWord [] = Unit {0}
IsWord (b ∷ rest) = IsWordByte b × IsWord rest

-- What POSIX calls a name: letters, digits and underscores, and no digit in front
abbrev pub IsName : Bytes → Type 0
IsName [] = ⊥
IsName (b ∷ rest) = IsLetter b × IsWord rest

is_ascii_alphabetic_iff :
    (b : ℕ) → ((not (is_ascii_alphabetic b) && not (b == b'_')) ≡ false) ↔ IsLetter b
is_ascii_alphabetic_iff b = (λ h. ground arith, λ h. ground arith)

is_ascii_alphanumeric_iff :
    (b : ℕ) → ((not (is_ascii_alphanumeric b) && not (b == b'_')) ≡ false) ↔ IsWordByte b
is_ascii_alphanumeric_iff b = (λ h. ground arith, λ h. ground arith)

only_word_iff : (s : Bytes) → (only_word s ≡ true) ↔ IsWord s
unfolding only_word
only_word_iff [] = (λ h. tt, λ h. refl)
only_word_iff (b ∷ rest) = elim (Bool-cases (not (is_ascii_alphanumeric b) && not (b == b'_'))) [
  | inl e ↦
      rw e
        (λ h. absurd (clash h), λ h. absurd (clash (sym ((is_ascii_alphanumeric_iff b).1 h.0) ∙ e)))
  | inr e ↦ rw e (
    λ h. ((is_ascii_alphanumeric_iff b).0 e, (only_word_iff rest).0 h),
    λ h. (only_word_iff rest).1 h.1,
  )
]
  where
    clash : false ≡ true → ⊥
    clash h = cc

-- The names that `is_valid_var_name` accepts
pub is_valid_var_name_iff : (s : Bytes) → (is_valid_var_name s ≡ true) ↔ IsName s
unfolding is_valid_var_name
is_valid_var_name_iff [] = (λ h. absurd (clash h), λ h. elim h [ ])
  where
    clash : false ≡ true → ⊥
    clash h = cc
is_valid_var_name_iff (b ∷ rest) =
    elim (Bool-cases (not (is_ascii_alphabetic b) && not (b == b'_'))) [
      | inl e ↦
          rw e (
            λ h. absurd (clash h),
            λ h. absurd (clash (sym ((is_ascii_alphabetic_iff b).1 h.0) ∙ e)),
          )
      | inr e ↦ rw e (
        λ h. ((is_ascii_alphabetic_iff b).0 e, (only_word_iff rest).0 h),
        λ h. (only_word_iff rest).1 h.1,
      )
    ]
  where
    clash : false ≡ true → ⊥
    clash h = cc
