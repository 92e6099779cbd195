-- ===== src/Epoll/Drained.antt =====
-- l_builtin/src/cmd_epoll.rs: what `epoll wait` collects.
use l_builtin.Base.{
  ℕ, zero, suc, ◌+◌, ◌≤◌, ◌<◌, ◌≡◌, ◌∙◌, refl, sym, ap, inl, inr, Option, none, some, List, [], ◌∷◌,
  ◌++◌, map, false, take, drop, length, length-take, length-drop, ltb→lt, take-append-drop,
  and_then, ok, ltb, Bool-cases, arith,
}
use mathlib.Core.List.{append_assoc, append-nil, map-append}
use mathlib.Core.Path.{subst}
use l_builtin.Base.Int.{ℤ}
use l_builtin.Shell.{Calls}
use l_builtin.Shell.Variable.{BashVar}
use l_builtin.Epoll.{
  EpollEvent, EpollCalls, EpollWaitArgs, Ready, reported_event, answered, drain_loop, followed,
  or_failure, collect_ready, epoll_max_events,
}

-- An instance whose events are told once each, as edge-triggered ones are: those that wait, in order
pub record Queue {World : Type 0} (c : EpollCalls World) (epfd : ℤ) : Type 0 where
  pub pending : World → List EpollEvent
  pub takes :
      (n : ℕ) (timeout : Option ℕ) (w : World)
      → 0 < length (pending w)
      → ((c.epoll_wait epfd n timeout w).0 ≡ some (take n (pending w)))
        × (pending (c.epoll_wait epfd n timeout w).1 ≡ drop n (pending w))
  pub idle :
      (n : ℕ) (w : World)
      → pending w ≡ []
      → ((c.epoll_wait epfd n (some 0) w).0 ≡ some [])
        × (pending (c.epoll_wait epfd n (some 0) w).1 ≡ [])

-- A round that populated the buffer, by the answer to the further call
module _ {World : Type 0} where
  answered-more :
      (calls : Calls World) (c : EpollCalls World)
      (again : List EpollEvent → World → Option Ready × World) (all : Ready) (e : EpollEvent)
      (events : List EpollEvent) (r : Option (List EpollEvent) × World)
      → r.0 ≡ some (e ∷ events)
      → answered calls c again all r ≡ again (e ∷ events) r.1
  answered-more calls c again all e events (o, w) h = rw h refl

  answered-none :
      (calls : Calls World) (c : EpollCalls World)
      (again : List EpollEvent → World → Option Ready × World) (all : Ready)
      (r : Option (List EpollEvent) × World)
      → r.0 ≡ some []
      → answered calls c again all r ≡ (some all, r.1)
  answered-none calls c again all (o, w) h = rw h refl

-- The command from the first answer on
module _ {World : Type 0} (calls : Calls World) (c : EpollCalls World) where
  collect_ready-loop :
      (n : ℕ) (epfd : ℤ) (events : List EpollEvent) (r : Option (List EpollEvent) × World)
      → r.0 ≡ some events
      → and_then
          (or_failure r)
          (λ events w. followed calls c (drain_loop calls c n epfd [] events w))
        ≡ followed calls c (drain_loop calls c n epfd [] events r.1)
  collect_ready-loop n epfd events (o, w) h = rw h refl

nil_of : (xs : List EpollEvent) → length xs < 1 → xs ≡ []
nil_of [] h = refl
nil_of (x ∷ xs) h = absurd (omega arith)

-- A buffer that is not full took all there was.
drop-short : (n : ℕ) (xs : List EpollEvent) → length (take n xs) < n → drop n xs ≡ []
drop-short n xs h = nil_of (drop n xs) (omega (arith, length-drop n xs, length-take n xs))

-- What is collected together, one buffer after the other
joined :
    (all : Ready) (n : ℕ) (xs : List EpollEvent)
    → (all ++ map reported_event (take n xs)) ++ map reported_event (drop n xs)
      ≡ all ++ map reported_event xs
joined all n xs =
    append_assoc all (map reported_event (take n xs)) (map reported_event (drop n xs))
    ∙ ap (λ t. all ++ t)
        (sym (map-append reported_event (take n xs) (drop n xs))
          ∙ ap (map reported_event) (take-append-drop n xs))

module _ {World : Type 0} (calls : Calls World) (c : EpollCalls World) (epfd : ℤ) where
  module _ (queue : Queue c epfd) where
    abbrev IsAll : Ready → Option Ready × World → Type 0
    IsAll ready r = (r.0 ≡ some ready) × (queue.pending r.1 ≡ [])

    abbrev Round : ℕ → Ready → (List EpollEvent → World → Option Ready × World) → Type 0
    Round n all again =
        (events rest : List EpollEvent) (v : World)
        → queue.pending v ≡ rest
        → (length events < epoll_max_events → rest ≡ [])
        → length rest < n
        → IsAll ((all ++ map reported_event events) ++ map reported_event rest) (again events v)

    filled_round :
        (n : ℕ) (all : Ready) (again : List EpollEvent → World → Option Ready × World)
        → Round n all again
        → (rest : List EpollEvent) (w : World) → queue.pending w ≡ rest
        → length rest < suc n
        → IsAll
            (all ++ map reported_event rest)
            (answered calls c again all (c.epoll_wait epfd epoll_max_events (some 0) w))
    filled_round n all again next [] w waits more =
        let idle = queue.idle epoll_max_events w waits in
        rw (answered-none calls c again all (c.epoll_wait epfd epoll_max_events (some 0) w) idle.0)
          (ap some (sym (append-nil all)), idle.1)
    filled_round n all again next (e ∷ rest) w waits more =
        let nonempty : 0 < length (queue.pending w) = rw waits (omega arith) in
        let taken = queue.takes epoll_max_events (some 0) w nonempty in
        let gives : (c.epoll_wait epfd epoll_max_events (some 0) w).0 ≡ some (e ∷ take 255 rest) =
          taken.0 ∙ ap (λ l. some (take epoll_max_events l)) waits in
        let leaves : queue.pending (c.epoll_wait epfd epoll_max_events (some 0) w).1
            ≡ drop 255 rest =
          taken.1 ∙ ap (λ l. drop epoll_max_events l) waits in
        rw
          (answered-more calls c again all e (take 255 rest)
            (c.epoll_wait epfd epoll_max_events (some 0) w) gives)
          (subst
            (λ r.
              IsAll r (again (e ∷ take 255 rest) (c.epoll_wait epfd epoll_max_events (some 0) w).1))
            (joined all epoll_max_events (e ∷ rest))
            (next (e ∷ take 255 rest) (drop 255 rest)
              (c.epoll_wait epfd epoll_max_events (some 0) w).1 leaves
              (drop-short epoll_max_events (e ∷ rest)) (omega (arith, length-drop 255 rest))))

    drain_loop-IsAll : (n : ℕ) (ready : Ready) → Round n ready (drain_loop calls c n epfd ready)
    unfolding drain_loop
    drain_loop-IsAll zero ready events rest w waits short more = absurd (omega arith)
    drain_loop-IsAll (suc n) ready events rest w waits short more =
        elim (Bool-cases (ltb (length events) epoll_max_events)) [
          | inl e ↦
              let empty = short (ltb→lt (length events) epoll_max_events e) in
              rw (e, empty)
                (ap some (sym (append-nil (ready ++ map reported_event events))), waits ∙ empty)
          | inr e ↦ rw e (
              filled_round n (ready ++ map reported_event events)
                (drain_loop calls c n epfd (ready ++ map reported_event events))
                (drain_loop-IsAll n (ready ++ map reported_event events)) rest w waits more)
        ]

    abbrev pub wait_args : Option ℕ → Option BashVar → EpollWaitArgs
    wait_args timeout var = record { timeout = timeout; var = var; epfd = epfd }

    -- Where each event is told once, `epoll wait` on an instance with events ends within as many
    -- rounds as there are events and one more; it collects them all, in their order, however many buffers
    -- they fill, and leaves none.
    pub collect_ready-IsAll :
        (timeout : Option ℕ) (var : Option BashVar) (w : World)
        → 0 < length (queue.pending w)
        → ((collect_ready calls c (length (queue.pending w) + 1) (wait_args timeout var) w).0
            ≡ ok (some (map reported_event (queue.pending w))))
          × (queue.pending
                (collect_ready calls c (length (queue.pending w) + 1) (wait_args timeout var) w).1
              ≡ [])
    unfolding collect_ready
    collect_ready-IsAll timeout var w nonempty =
        let fuel = length (queue.pending w) + 1 in
        let first = c.epoll_wait epfd epoll_max_events timeout w in
        let taken = queue.takes epoll_max_events timeout w nonempty in
        let events = take epoll_max_events (queue.pending w) in
        let rest = drop epoll_max_events (queue.pending w) in
        let all : IsAll (map reported_event (queue.pending w))
            (drain_loop calls c fuel epfd [] events first.1) =
          subst (λ r. IsAll r (drain_loop calls c fuel epfd [] events first.1))
            (joined [] epoll_max_events (queue.pending w))
            (drain_loop-IsAll fuel [] events rest first.1 taken.1
              (drop-short epoll_max_events (queue.pending w))
              (omega (arith, length-drop epoll_max_events (queue.pending w)))) in
        rw (collect_ready-loop calls c fuel epfd events first taken.0) (ap ok all.0, all.1)

  -- Every call fills the buffer.
  abbrev pub Full : Type 0
  Full =
      (timeout : Option ℕ) (w : World)
      → (e : EpollEvent) × (events : List EpollEvent) × ((c.epoll_wait epfd epoll_max_events timeout
            w).0
          ≡ some (e ∷ events))
        × (epoll_max_events ≤ length (e ∷ events))

  not_short : (n : ℕ) → epoll_max_events ≤ n → ltb n epoll_max_events ≡ false
  not_short n h = ground arith

  drain_loop-none :
      (full : Full) (n : ℕ) (ready : Ready) (e : EpollEvent) (events : List EpollEvent) (w : World)
      → epoll_max_events ≤ length (e ∷ events)
      → (drain_loop calls c n epfd ready (e ∷ events) w).0 ≡ none
  unfolding drain_loop
  drain_loop-none full zero ready e events w long = refl
  drain_loop-none full (suc n) ready e events w long =
      let all = ready ++ map reported_event (e ∷ events) in
      let (next, more, gives, populated) = full (some 0) w in
      let answer = c.epoll_wait epfd epoll_max_events (some 0) w in
      rw
        (
          not_short (length (e ∷ events)) long,
          answered-more calls c (drain_loop calls c n epfd all) all next more answer gives,
        )
        (drain_loop-none full n all next more answer.1 populated)

  -- Where every call fills the buffer, as on an instance with that many level-triggered descriptors
  -- that stay ready, `epoll wait` does not end: no number of rounds is enough.
  pub collect_ready-none :
      (full : Full) (timeout : Option ℕ) (var : Option BashVar) (rounds : ℕ) (w : World)
      → (collect_ready calls c rounds (record { timeout = timeout; var = var; epfd = epfd }) w).0
        ≡ ok none
  unfolding collect_ready
  collect_ready-none full timeout var rounds w =
      let (e, events, gives, long) = full timeout w in
      let first = c.epoll_wait epfd epoll_max_events timeout w in
      rw (collect_ready-loop calls c rounds epfd (e ∷ events) first gives)
        (ap ok (drain_loop-none full rounds [] e events first.1 long))
