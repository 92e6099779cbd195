-- ===== src/Epoll/Interests.antt =====
-- l_builtin/src/cmd_epoll.rs: the words that `epoll add` and `mod` leave with the kernel.
use l_builtin.Base.{
  ℕ, ◌≡◌, ◌∙◌, refl, sym, ap, ◌⊎◌, inl, inr, Option, none, some, List, [], ◌∷◌, Bool, true, false,
}
use mathlib.Core.Path.{subst}
use l_builtin.Base.Int.{ℤ}
use l_builtin.Shell.{Calls}
use l_builtin.Epoll.{
  EpollEvent, EpollCalls, EpollCtlArgs, CtlOp, as_c_int, ctl_event, tested, epoll_add_subcommand,
  epoll_mod_subcommand, epoll_del_subcommand,
}
use l_builtin.Epoll.Descriptors.{IsCInt, as_c_int-as_u64}

abbrev pub All : {A : Type 0} → (A → Type 0) → List A → Type 0
All P [] = Unit {0}
All P (x ∷ xs) = P x × All P xs

-- The word that a call of epoll_ctl(2) leaves with the kernel
abbrev pub IsWordOf : Option EpollEvent → ℕ → Type 0
IsWordOf none word = ⊥
IsWordOf (some event) word = word ≡ event.u64

-- What epoll(7) says of the interest list: `watched` gives the word that was left for a descriptor of an
-- instance. A word that is there after a call was there before, or was left by the call for its descriptor; an
-- event that is told comes with the word of a descriptor of that instance, and to wait changes no list.
pub record InterestLaws {World : Type 0} (c : EpollCalls World) (watched : World → ℤ → ℤ → Option ℕ)
    : Type 0 where
  pub ctl_leaves :
      (epfd : ℤ) (op : CtlOp) (fd : ℤ) (event : Option EpollEvent) (w : World) (e f : ℤ) (word : ℕ)
      → watched (c.epoll_ctl epfd op fd event w).1 e f ≡ some word
      → (watched w e f ≡ some word) ⊎ ((e ≡ epfd) × (f ≡ fd) × IsWordOf event word)
  pub wait_tells :
      (epfd : ℤ) (n : ℕ) (timeout : Option ℕ) (w : World) (events : List EpollEvent)
      → (c.epoll_wait epfd n timeout w).0 ≡ some events
      → All (λ e. (fd : ℤ) × (watched w epfd fd ≡ some e.u64)) events
  pub wait_same :
      (epfd : ℤ) (n : ℕ) (timeout : Option ℕ) (w : World) (e f : ℤ)
      → watched (c.epoll_wait epfd n timeout w).1 e f ≡ watched w e f

-- The commands that change an interest list
pub data EpollCommand : Type 0 where
  add : EpollCtlArgs → EpollCommand
  change : EpollCtlArgs → EpollCommand
  del : ℤ → ℤ → EpollCommand

abbrev pub HasCInt : EpollCommand → Type 0
HasCInt (add args) = IsCInt args.fd
HasCInt (change args) = IsCInt args.fd
HasCInt (del epfd fd) = Unit {0}

module _ {World : Type 0} (calls : Calls World) (c : EpollCalls World) where
  abbrev pub run_command : EpollCommand → World → World
  run_command (add args) w = (epoll_add_subcommand calls c args w).1
  run_command (change args) w = (epoll_mod_subcommand calls c args w).1
  run_command (del epfd fd) w = (epoll_del_subcommand calls c epfd fd w).1

  -- Commands one after the other, whether they succeed or not
  abbrev pub run_commands : List EpollCommand → World → World
  run_commands [] w = w
  run_commands (command ∷ commands) w = run_commands commands (run_command command w)

  module _ (watched : World → ℤ → ℤ → Option ℕ) (laws : InterestLaws c watched) where
    -- Every word is that of its descriptor.
    abbrev pub IsTrue : World → Type 0
    IsTrue w = (e f : ℤ) (word : ℕ) → watched w e f ≡ some word → as_c_int word ≡ f

    tested-world : (r : Bool × World) → (tested r).1 ≡ r.1
    tested-world (true, w) = refl
    tested-world (false, w) = refl

    ctl-IsTrue :
        (epfd : ℤ) (op : CtlOp) (fd : ℤ) (event : Option EpollEvent) (w : World)
        → ((word : ℕ) → IsWordOf event word → as_c_int word ≡ fd)
        → IsTrue w
        → IsTrue (tested (c.epoll_ctl epfd op fd event w)).1
    ctl-IsTrue epfd op fd event w right true_before e f word there =
        let seen : watched (c.epoll_ctl epfd op fd event w).1 e f ≡ some word =
          subst (λ v. watched v e f ≡ some word) (tested-world (c.epoll_ctl epfd op fd event w))
            there in
        elim (laws.ctl_leaves epfd op fd event w e f word seen) [
          | inl before ↦ true_before e f word before
          | inr (same_instance, same, left) ↦ right word left ∙ sym same
        ]

    own_word :
        (args : EpollCtlArgs)
        → IsCInt args.fd
        → (word : ℕ) → word ≡ (ctl_event calls c args).u64
        → as_c_int word ≡ args.fd
    own_word args small word left = ap as_c_int left ∙ as_c_int-as_u64 args.fd small

    run_command-IsTrue :
        (command : EpollCommand) (w : World)
        → HasCInt command
        → IsTrue w
        → IsTrue (run_command command w)
    unfolding epoll_add_subcommand epoll_mod_subcommand epoll_del_subcommand
    run_command-IsTrue (add args) w small h =
        ctl-IsTrue args.epfd CtlOp.ctl_add args.fd (some (ctl_event calls c args)) w
          (own_word args small) h
    run_command-IsTrue (change args) w small h =
        ctl-IsTrue args.epfd CtlOp.ctl_mod args.fd (some (ctl_event calls c args)) w
          (own_word args small) h
    run_command-IsTrue (del epfd fd) w small h =
        ctl-IsTrue epfd CtlOp.ctl_del fd none w (λ word left. elim left [ ]) h

    pub run_commands-IsTrue :
        (commands : List EpollCommand) (w : World)
        → All HasCInt commands
        → IsTrue w
        → IsTrue (run_commands commands w)
    run_commands-IsTrue [] w small h = h
    run_commands-IsTrue (command ∷ commands) w (small, others) h =
        run_commands-IsTrue commands (run_command command w) others
          (run_command-IsTrue command w small h)
