-- ===== src/Shm/Sizes.antt =====
-- l_builtin/src/cmd_shm.rs: the sizes that `str::parse::<u64>` gives are below 2^64.
use l_builtin.Base.{
  ℕ, ◌<◌, inl, inr, Option, none, some, ◌||◌, [], ◌∷◌, Bytes, ltb, ◌==◌, ◌+◌, ◌*◌, ◌-◌, Bool-cases,
  ltb→lt,
}
use l_builtin.IntStr.{parse_unsigned, scan}

abbrev pub IsBelow : ℕ → Option ℕ → Type 0
IsBelow limit none = Unit {0}
IsBelow limit (some n) = n < limit

scan-IsBelow : (limit : ℕ) (s : Bytes) (n : ℕ) → n < limit → IsBelow limit (scan limit s n)
unfolding scan
scan-IsBelow limit [] n h = h
scan-IsBelow limit (c ∷ s) n h = elim (Bool-cases (ltb c b'0' || ltb b'9' c)) [
  | inl e ↦ rw e tt
  | inr e ↦ elim (Bool-cases (ltb (n * 10 + (c - b'0')) limit)) [
    | inl small ↦
        rw (e, small)
          (scan-IsBelow limit s (n * 10 + (c - b'0')) (ltb→lt (n * 10 + (c - b'0')) limit small))
    | inr large ↦ rw (e, large) tt
  ]
]

pub parse_unsigned-IsBelow :
    (limit : ℕ) (s : Bytes) → 0 < limit → IsBelow limit (parse_unsigned limit s)
unfolding parse_unsigned
parse_unsigned-IsBelow limit [] h = tt
parse_unsigned-IsBelow limit (c ∷ []) h = elim (Bool-cases (c == b'+')) [
  | inl e ↦ rw e tt
  | inr e ↦ rw e (scan-IsBelow limit (c ∷ []) 0 h)
]
parse_unsigned-IsBelow limit (c ∷ d ∷ s) h = elim (Bool-cases (c == b'+')) [
  | inl e ↦ rw e (scan-IsBelow limit (d ∷ s) 0 h)
  | inr e ↦ rw e (scan-IsBelow limit (c ∷ d ∷ s) 0 h)
]
