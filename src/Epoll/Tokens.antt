-- ===== src/Epoll/Tokens.antt =====
-- l_builtin/src/cmd_epoll.rs: the tokens of events and their masks.
use l_builtin.Base.{
  ℕ, ◌+◌, ◌≡◌, refl, sym, ap, inl, inr, Option, none, some, [], ◌∷◌, Bool, true, false, ◌&&◌, ◌||◌,
  Bytes, ◌==◌, ==_iff, Bool-cases, arith, if◌then◌else◌,
}
use mathlib.Core.Path.{subst}
use l_builtin.Epoll.{
  add_token, add_tokens, parse_events, format_events, epollin, epollout, epollpri, epollet,
  or_epollin,
}

-- The mask of a set of tokens
abbrev pub mask : Bool → Bool → Bool → Bool → ℕ
mask r w p t =
    (if r then epollin else 0)
    + (if w then epollout else 0)
    + (if p then epollpri else 0)
    + (if t then epollet else 0)

abbrev pub has : ℕ → Bytes → Bool
has ch [] = false
has ch (b ∷ s) = (b == ch) || has ch s

-- A test that holds of every set of tokens
abbrev both : (Bool → Bool) → Bool
both f = f false && f true

abbrev every : (Bool → Bool → Bool → Bool → Bool) → Bool
every f = both (λ r. both (λ w. both (λ p. both (λ t. f r w p t))))

both-at : (f : Bool → Bool) → both f ≡ true → (b : Bool) → f b ≡ true
both-at f h true = ground arith
both-at f h false = ground arith

every-at :
    (f : Bool → Bool → Bool → Bool → Bool) → every f ≡ true → (r w p t : Bool) → f r w p t ≡ true
every-at f h r w p t =
    let hr = both-at (λ r. both (λ w. both (λ p. both (λ t. f r w p t)))) h r in
    let hw = both-at (λ w. both (λ p. both (λ t. f r w p t))) hr w in
    let hp = both-at (λ p. both (λ t. f r w p t)) hw p in both-at (λ t. f r w p t) hp t

every_equal :
    (f g : Bool → Bool → Bool → Bool → ℕ)
    → every (λ r w p t. f r w p t == g r w p t) ≡ true
    → (r w p t : Bool) → f r w p t ≡ g r w p t
every_equal f g h r w p t =
    (==_iff (f r w p t) (g r w p t)).0 (every-at (λ r w p t. f r w p t == g r w p t) h r w p t)

-- The mask with one more token, which may be any byte
abbrev joined : ℕ → Bool → Bool → Bool → Bool → ℕ
joined ch r w p t =
    mask (r || (ch == b'r')) (w || (ch == b'w')) (p || (ch == b'p')) (t || (ch == b't'))

abbrev IsJoined : ℕ → Type 0
IsJoined ch = (r w p t : Bool) → add_token (mask r w p t) ch ≡ joined ch r w p t

IsJoined-r : IsJoined b'r'
unfolding add_token
IsJoined-r = every_equal (λ r w p t. add_token (mask r w p t) b'r') (joined b'r') refl

IsJoined-w : IsJoined b'w'
unfolding add_token
IsJoined-w = every_equal (λ r w p t. add_token (mask r w p t) b'w') (joined b'w') refl

IsJoined-p : IsJoined b'p'
unfolding add_token
IsJoined-p = every_equal (λ r w p t. add_token (mask r w p t) b'p') (joined b'p') refl

IsJoined-t : IsJoined b't'
unfolding add_token
IsJoined-t = every_equal (λ r w p t. add_token (mask r w p t) b't') (joined b't') refl

or_nothing :
    (r w p t : Bool) → mask r w p t ≡ mask (r || false) (w || false) (p || false) (t || false)
or_nothing =
    every_equal mask (λ r w p t. mask (r || false) (w || false) (p || false) (t || false)) refl

no_token :
    (ch : ℕ)
    → (ch == b'r') ≡ false
    → (ch == b'w') ≡ false
    → (ch == b'p') ≡ false
    → (ch == b't') ≡ false
    → IsJoined ch
unfolding add_token
no_token ch a b c d r w p t = rw (a, b, c, d) (or_nothing r w p t)

at_char : (ch d : ℕ) → (ch == d) ≡ true → IsJoined d → IsJoined ch
at_char ch d e h = subst IsJoined (sym ((==_iff ch d).0 e)) h

add_token-IsJoined : (ch : ℕ) → IsJoined ch
add_token-IsJoined ch = elim (Bool-cases (ch == b'r')) [
  | inl e ↦ at_char ch b'r' e IsJoined-r
  | inr a ↦ elim (Bool-cases (ch == b'w')) [
    | inl e ↦ at_char ch b'w' e IsJoined-w
    | inr b ↦ elim (Bool-cases (ch == b'p')) [
      | inl e ↦ at_char ch b'p' e IsJoined-p
      | inr c ↦ elim (Bool-cases (ch == b't')) [
        | inl e ↦ at_char ch b't' e IsJoined-t
        | inr d ↦ no_token ch a b c d
      ]
    ]
  ]
]

or_assoc : (a b c : Bool) → ((a || b) || c) ≡ (a || (b || c))
or_assoc true b c = refl
or_assoc false b c = refl

add_tokens-mask :
    (s : Bytes) (r w p t : Bool)
    → add_tokens (mask r w p t) s
      ≡ mask (r || has b'r' s) (w || has b'w' s) (p || has b'p' s) (t || has b't' s)
unfolding add_tokens
add_tokens-mask [] r w p t = or_nothing r w p t
add_tokens-mask (ch ∷ s) r w p t = rw (
  add_token-IsJoined ch r w p t,
  add_tokens-mask s (r || (ch == b'r')) (w || (ch == b'w')) (p || (ch == b'p')) (t || (ch == b't')),
  or_assoc r (ch == b'r') (has b'r' s),
  or_assoc w (ch == b'w') (has b'w' s),
  or_assoc p (ch == b'p') (has b'p' s),
  or_assoc t (ch == b't') (has b't' s),
)

-- The mask of a text of tokens depends on which tokens it has, not on their order nor on what else is
-- in it: it is the sum of their bits, and that of EPOLLIN where the text has none.
pub parse_events-mask :
    (s : Bytes)
    → parse_events (some s) ≡ or_epollin (mask (has b'r' s) (has b'w' s) (has b'p' s) (has b't' s))
unfolding parse_events
parse_events-mask [] = refl
parse_events-mask (ch ∷ s) = ap or_epollin (add_tokens-mask (ch ∷ s) false false false false)

reads_back :
    (r w p t : Bool)
    → parse_events (some (format_events (or_epollin (mask r w p t)))) ≡ or_epollin (mask r w p t)
unfolding parse_events format_events add_tokens add_token
reads_back =
    every_equal (λ r w p t. parse_events (some (format_events (or_epollin (mask r w p t)))))
      (λ r w p t. or_epollin (mask r w p t)) refl

default_token : parse_events none ≡ parse_events (some (b'r' ∷ []))
unfolding parse_events
default_token = refl

some_reads_back :
    (s : Bytes)
    → parse_events (some (format_events (parse_events (some s)))) ≡ parse_events (some s)
some_reads_back s =
    rw (parse_events-mask s) (reads_back (has b'r' s) (has b'w' s) (has b'p' s) (has b't' s))

-- What is printed of a mask that was read is read as the same mask.
pub parse_events-format_events :
    (s : Option Bytes) → parse_events (some (format_events (parse_events s))) ≡ parse_events s
parse_events-format_events (some s) = some_reads_back s
parse_events-format_events none = rw default_token (some_reads_back (b'r' ∷ []))
