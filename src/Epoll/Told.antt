-- ===== src/Epoll/Told.antt =====
-- l_builtin/src/cmd_epoll.rs: whose events `epoll wait` tells.
use l_builtin.Base.{
  ℕ, zero, suc, ◌≡◌, ◌∙◌, refl, sym, ap, inl, inr, Option, none, some, List, [], ◌∷◌, ◌++◌, map,
  Bytes, Outcome, ok, err, and_then, ltb, length, Bool-cases,
}
use mathlib.Core.Path.{subst}
use l_builtin.Base.Int.{ℤ}
use l_builtin.Shell.{Calls}
use l_builtin.Shell.Variable.{BashVar}
use l_builtin.Epoll.{
  EpollEvent, EpollCalls, EpollWaitArgs, Ready, as_c_int, reported_event, answered, drain_loop,
  followed, or_failure, collect_ready, epoll_max_events,
}
use l_builtin.Epoll.Interests.{
  All, InterestLaws, EpollCommand, HasCInt, run_commands, IsTrue, run_commands-IsTrue,
}

module _ {World : Type 0} (calls : Calls World) (c : EpollCalls World)
    (watched : World → ℤ → ℤ → Option ℕ) (laws : InterestLaws c watched) where
  module _ (epfd : ℤ) (w : World) (true_words : IsTrue calls c watched laws w) where
    abbrev Unchanged : World → Type 0
    Unchanged v = (e f : ℤ) → watched v e f ≡ watched w e f

    -- The descriptor that an entry is under is watched by the instance.
    abbrev IsWatched : ℤ × Bytes → Type 0
    IsWatched entry = (word : ℕ) × (watched w epfd entry.0 ≡ some word)

    abbrev IsOwn : EpollEvent → Type 0
    IsOwn e = (fd : ℤ) × (watched w epfd fd ≡ some e.u64)

    abbrev AllWatched : Option Ready → Type 0
    AllWatched none = Unit {0}
    AllWatched (some ready) = All IsWatched ready

    reported-IsWatched : (e : EpollEvent) → IsOwn e → IsWatched (reported_event e)
    unfolding reported_event
    reported-IsWatched e (fd, there) =
        let own : as_c_int e.u64 ≡ fd = true_words epfd fd e.u64 there in
        (e.u64, ap (watched w epfd) own ∙ there)

    collected-IsWatched :
        (ready : Ready) (events : List EpollEvent)
        → All IsWatched ready
        → All IsOwn events
        → All IsWatched (ready ++ map reported_event events)
    collected-IsWatched [] [] h own = tt
    collected-IsWatched [] (e ∷ events) h own =
        (reported-IsWatched e own.0, collected-IsWatched [] events tt own.1)
    collected-IsWatched (entry ∷ ready) events h own =
        (h.0, collected-IsWatched ready events h.1 own)

    owned :
        (v : World) (events : List EpollEvent)
        → Unchanged v
        → All (λ e. (fd : ℤ) × (watched v epfd fd ≡ some (EpollEvent.u64 e))) events
        → All IsOwn events
    owned v [] same told = tt
    owned v (e ∷ events) same ((fd, there), others) =
        ((fd, sym (same epfd fd) ∙ there), owned v events same others)

    answer-IsOwn :
        (n : ℕ) (timeout : Option ℕ) (v : World) (events : List EpollEvent)
        → Unchanged v
        → (c.epoll_wait epfd n timeout v).0 ≡ some events
        → All IsOwn events
    answer-IsOwn n timeout v events same given =
        owned v events same (laws.wait_tells epfd n timeout v events given)

    answered-AllWatched :
        (again : List EpollEvent → World → Option Ready × World) (ready : Ready)
        (r : Option (List EpollEvent) × World)
        → All IsWatched ready
        → ((events : List EpollEvent) → r.0 ≡ some events → All IsOwn events)
        → Unchanged r.1
        → ((events : List EpollEvent) (v : World)
            → All IsOwn events
            → Unchanged v
            → AllWatched (again events v).0)
        → AllWatched (answered calls c again ready r).0
    answered-AllWatched again ready (none, v) h own same more = h
    answered-AllWatched again ready (some [], v) h own same more = h
    answered-AllWatched again ready (some (e ∷ events), v) h own same more =
        more (e ∷ events) v (own (e ∷ events) refl) same

    still :
        (n : ℕ) (timeout : Option ℕ) (v : World)
        → Unchanged v
        → Unchanged (c.epoll_wait epfd n timeout v).1
    still n timeout v same e f = laws.wait_same epfd n timeout v e f ∙ same e f

    drain_loop-AllWatched :
        (n : ℕ) (ready : Ready) (events : List EpollEvent) (v : World)
        → All IsWatched ready
        → All IsOwn events
        → Unchanged v
        → AllWatched (drain_loop calls c n epfd ready events v).0
    unfolding drain_loop
    drain_loop-AllWatched zero ready events v h own same = tt
    drain_loop-AllWatched (suc n) ready events v h own same =
        let all = ready ++ map reported_event events in
        let good = collected-IsWatched ready events h own in
        elim (Bool-cases (ltb (length events) epoll_max_events)) [
          | inl e ↦ rw e good
          | inr e ↦ rw e (
              answered-AllWatched (drain_loop calls c n epfd all) all
                (c.epoll_wait epfd epoll_max_events (some 0) v) good
                (λ events given. answer-IsOwn epoll_max_events (some 0) v events same given)
                (still epoll_max_events (some 0) v same)
                (λ events u own same. drain_loop-AllWatched n all events u good own same))
        ]

    abbrev Collected : Outcome (Option Ready) → Type 0
    Collected (ok ready) = AllWatched ready
    Collected (err code) = Unit {0}

    first-Collected :
        (n : ℕ) (r : Option (List EpollEvent) × World)
        → ((events : List EpollEvent) → r.0 ≡ some events → All IsOwn events)
        → Unchanged r.1
        → Collected
            (and_then
              (or_failure r)
              (λ events v. followed calls c (drain_loop calls c n epfd [] events v))).0
    first-Collected n (none, v) own same = tt
    first-Collected n (some events, v) own same =
        drain_loop-AllWatched n [] events v tt (own events refl) same

    collect_ready-Collected :
        (n : ℕ) (timeout : Option ℕ) (var : Option BashVar)
        → Collected
            (collect_ready calls c n (record { timeout = timeout; var = var; epfd = epfd }) w).0
    unfolding collect_ready
    collect_ready-Collected n timeout var =
        first-Collected n (c.epoll_wait epfd epoll_max_events timeout w)
          (λ events given. answer-IsOwn epoll_max_events timeout w events (λ e f. refl) given)
          (still epoll_max_events timeout w (λ e f. refl))

  -- After any `epoll add`, `mod` and `del`, with descriptors that a C int holds, on instances that watched
  -- nothing before, and whether they succeed or not: what `epoll wait` then collects of an instance is
  -- under descriptors that this instance watches.
  pub collect_ready-IsWatched :
      (commands : List EpollCommand) (w : World)
      → All HasCInt commands
      → ((e f : ℤ) → watched w e f ≡ none)
      → (n : ℕ) (args : EpollWaitArgs) (ready : Ready)
      → (collect_ready calls c n args (run_commands calls c commands w)).0 ≡ ok (some ready)
      → All
          (λ entry.
            (word : ℕ) × (watched (run_commands calls c commands w) args.epfd entry.0 ≡ some word))
          ready
  collect_ready-IsWatched commands w small nothing n args ready given =
      let after = run_commands calls c commands w in
      let true_words =
        run_commands-IsTrue calls c watched laws commands w small
          (λ e f word there. absurd (never word (sym (nothing e f) ∙ there))) in
      subst (Collected args.epfd after true_words) given
        (collect_ready-Collected args.epfd after true_words n args.timeout args.var)
    where
      never : (word : ℕ) → none ≡ some word → ⊥
      never word e = cc
