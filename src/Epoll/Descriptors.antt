-- ===== src/Epoll/Descriptors.antt =====
-- l_builtin/src/cmd_epoll.rs and l_builtin/src/shared.rs: the descriptors of `epoll`.
use l_builtin.Base.{
  ℕ, suc, ◌-◌, ◌%◌, ◌^◌, ◌≤◌, ◌<◌, ◌≡◌, ◌∙◌, ap, some, Bool, false, Bool-cases, inl, inr, ltb,
  arith,
}
use mathlib.Core.Path.{subst}
use l_builtin.Base.Int.{ℤ, pos, negsuc}
use l_builtin.Shell.{Calls}
use l_builtin.Epoll.{EpollCalls, as_u64, as_c_int, signed, ensure_high_fd, l_fd_min}

abbrev pub IsCInt : ℤ → Type 0
IsCInt (pos n) = n < 2 ^ 31
IsCInt (negsuc n) = n < 2 ^ 31

signed-pos : (n : ℕ) → n < 2 ^ 31 → signed n ≡ pos n
signed-pos n h = ground arith

signed-negsuc : (n : ℕ) → n < 2 ^ 31 → signed (2 ^ 32 - suc n) ≡ negsuc n
signed-negsuc n h = rw (not_small n h) (ap negsuc (twice n h))
  where
    not_small : (n : ℕ) → n < 2 ^ 31 → ltb (2 ^ 32 - suc n) (2 ^ 31) ≡ false
    not_small n h = ground arith

    twice : (n : ℕ) → n < 2 ^ 31 → 2 ^ 32 - suc (2 ^ 32 - suc n) ≡ n
    twice n h = omega arith

low_pos : (n : ℕ) → n < 2 ^ 31 → n % 2 ^ 64 % 2 ^ 32 ≡ n
low_pos n h = omega arith

low_neg : (n : ℕ) → n < 2 ^ 31 → (2 ^ 64 - suc n) % 2 ^ 64 % 2 ^ 32 ≡ 2 ^ 32 - suc n
low_neg n h = omega arith

-- The kernel's word of 64 bits holds a descriptor, negative numbers included.
pub as_c_int-as_u64 : (fd : ℤ) → IsCInt fd → as_c_int (as_u64 fd) ≡ fd
unfolding as_c_int as_u64
as_c_int-as_u64 (pos n) h = ap signed (low_pos n h) ∙ signed-pos n h
as_c_int-as_u64 (negsuc n) h = ap signed (low_neg n h) ∙ signed-negsuc n h

-- F_DUPFD gives a descriptor from the least one on that it is asked for.
abbrev pub DupsHigh : {World : Type 0} → EpollCalls World → Type 0
DupsHigh {World = World} c =
    (fd : ℕ) (cloexec : Bool) (least new : ℕ) (w : World)
    → (c.dup_fd fd cloexec least w).0 ≡ some new
    → least ≤ new

module _ {World : Type 0} (calls : Calls World) (c : EpollCalls World) where
  above : (fd new : ℕ) → some fd ≡ some new → ltb fd l_fd_min ≡ false → l_fd_min ≤ new
  above fd new same e =
      let low : l_fd_min ≤ fd = ground arith in
      let injective : fd ≡ new = cc in subst (λ n. l_fd_min ≤ n) injective low

  -- A descriptor that `ensure_high_fd` gives is out of the range that bash redirects.
  pub ensure_high_fd-l_fd_min :
      (high : DupsHigh c) (fd new : ℕ) (cloexec : Bool) (w : World)
      → (ensure_high_fd calls c fd cloexec w).0 ≡ some new
      → l_fd_min ≤ new
  unfolding ensure_high_fd
  ensure_high_fd-l_fd_min high fd new cloexec w given = elim (Bool-cases (ltb fd l_fd_min)) [
    | inl e ↦ high fd cloexec l_fd_min new w (rw e at given)
    | inr e ↦ above fd new (rw e at given) e
  ]
