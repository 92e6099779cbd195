-- ===== src/Epoll/Kernel.antt =====
-- A kernel for the tests of l_builtin/src/cmd_epoll.rs: instance 4 may watch descriptor 5, nothing else.
use l_builtin.Base.{
  ℕ, ◌≡◌, ◌∙◌, refl, sym, ◌⊎◌, inl, inr, Option, none, some, List, [], ◌∷◌, true, false, ◌&&◌,
  Bool-cases, if◌then◌else◌,
}
use mathlib.Core.Path.{subst}
use l_builtin.Base.Int.{ℤ, pos}
use l_builtin.VarDb.{same_int, same_int_iff}
use l_builtin.Epoll.{EpollEvent, EpollCalls, CtlOp}
use l_builtin.Epoll.Interests.{All, IsWordOf, InterestLaws}

-- The word of descriptor 5
abbrev pub Slot : Type 0
Slot = Option ℕ

abbrev pub slot_of : Option EpollEvent → Slot
slot_of none = none
slot_of (some event) = some event.u64

abbrev pub ready_of : Slot → List EpollEvent
ready_of none = []
ready_of (some word) = record { events = 1; u64 = word } ∷ []

abbrev pub slot_calls : EpollCalls Slot
slot_calls = record {
  epoll_create = λ w. (some 4, w);
  dup_fd = λ fd cloexec least w. (some least, w);
  epoll_ctl = λ epfd op fd event w.
      if same_int epfd (pos 4) && same_int fd (pos 5) then (true, slot_of event) else (false, w);
  epoll_wait = λ epfd n timeout w. (if same_int epfd (pos 4) then some (ready_of w) else none, w);
  prepare_array = λ name w. (true, w);
  array_insert = λ name fd ev w. w;
}

abbrev pub slot_watched : Slot → ℤ → ℤ → Option ℕ
slot_watched w e f = if same_int e (pos 4) && same_int f (pos 5) then w else none

both_same :
    (e f : ℤ) → (same_int e (pos 4) && same_int f (pos 5)) ≡ true → (e ≡ pos 4) × (f ≡ pos 5)
both_same e f h = elim (Bool-cases (same_int e (pos 4))) [
  | inl a ↦ ((same_int_iff e (pos 4)).0 a, (same_int_iff f (pos 5)).0 (rw a at h))
  | inr a ↦ absurd (clash (rw a at h))
]
  where
    clash : false ≡ true → ⊥
    clash h = cc

word_of : (event : Option EpollEvent) (word : ℕ) → slot_of event ≡ some word → IsWordOf event word
word_of none word h = cc
word_of (some event) word h = cc

slot_leaves :
    (epfd : ℤ) (op : CtlOp) (fd : ℤ) (event : Option EpollEvent) (w : Slot) (e f : ℤ) (word : ℕ)
    → slot_watched (slot_calls.epoll_ctl epfd op fd event w).1 e f ≡ some word
    → (slot_watched w e f ≡ some word) ⊎ ((e ≡ epfd) × (f ≡ fd) × IsWordOf event word)
slot_leaves epfd op fd event w e f word h =
    elim (Bool-cases (same_int epfd (pos 4) && same_int fd (pos 5))) [
      | inr a ↦ inl (rw a at h)
      | inl a ↦ elim (Bool-cases (same_int e (pos 4) && same_int f (pos 5))) [
        | inr b ↦ absurd (nothing word (rw (a, b) at h))
        | inl b ↦
            let (i, j) = both_same epfd fd a in
            let (k, l) = both_same e f b in
            inr (k ∙ sym i, l ∙ sym j, word_of event word (rw (a, b) at h))
      ]
    ]
  where
    nothing : (word : ℕ) → none ≡ some word → ⊥
    nothing word h = cc

own_events :
    (w : Slot)
    → All (λ e. (fd : ℤ) × (slot_watched w (pos 4) fd ≡ some (EpollEvent.u64 e))) (ready_of w)
own_events none = tt
own_events (some word) = ((pos 5, refl), tt)

slot_tells :
    (epfd : ℤ) (w : Slot) (events : List EpollEvent)
    → (if same_int epfd (pos 4) then some (ready_of w) else none) ≡ some events
    → All (λ e. (fd : ℤ) × (slot_watched w epfd fd ≡ some (EpollEvent.u64 e))) events
slot_tells epfd w events h = elim (Bool-cases (same_int epfd (pos 4))) [
  | inr a ↦ absurd (nothing events (rw a at h))
  | inl a ↦
      subst
        (λ events. All (λ e. (fd : ℤ) × (slot_watched w epfd fd ≡ some (EpollEvent.u64 e))) events)
        (same_events (ready_of w) events (rw a at h))
        (subst
          (λ i. All (λ e. (fd : ℤ) × (slot_watched w i fd ≡ some (EpollEvent.u64 e))) (ready_of w))
          (sym ((same_int_iff epfd (pos 4)).0 a)) (own_events w))
]
  where
    nothing : (events : List EpollEvent) → none ≡ some events → ⊥
    nothing events h = cc

    same_events : (a b : List EpollEvent) → some a ≡ some b → a ≡ b
    same_events a b h = cc

pub slot_laws : InterestLaws slot_calls slot_watched
slot_laws = record {
  ctl_leaves = λ epfd op fd event w e f word h. slot_leaves epfd op fd event w e f word h;
  wait_tells = λ epfd n timeout w events h. slot_tells epfd w events h;
  wait_same = λ epfd n timeout w e f. refl;
}
