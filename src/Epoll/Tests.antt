-- ===== src/Epoll/Tests.antt =====
-- l_builtin/src/cmd_epoll.rs: `epoll` on concrete events.
use l_builtin.Base.{
  ℕ, zero, suc, ◌+◌, ◌^◌, ◌≤◌, ◌≡◌, ◌∙◌, refl, ap, Option, none, some, List, [], ◌∷◌, Bytes, map,
  true, ◌&&◌, Bool-cases, inl, inr, false, ok, take, drop, replicate, arith,
}
use mathlib.Core.Path.{subst}
use l_builtin.Base.Int.{ℤ, pos}
use l_builtin.Shell.{Calls}
use l_builtin.Epoll.{
  EpollCalls, EpollEvent, EpollWaitArgs, epoll_add_subcommand, parse_events, format_events,
  add_tokens, add_token, or_epollin, reported_event, collect_ready, epoll_wait_subcommand,
  drain_loop, ensure_high_fd, as_u64, as_c_int, l_fd_min,
}
use l_builtin.Epoll.Tokens.{mask, parse_events-mask, parse_events-format_events}
use l_builtin.Epoll.Drained.{Queue, Full, collect_ready-IsAll, collect_ready-none}
use l_builtin.VarDb.{same_int}
use l_builtin.Epoll.Descriptors.{IsCInt, DupsHigh, ensure_high_fd-l_fd_min}
use l_builtin.Epoll.Interests.{All, EpollCommand, run_commands}
use l_builtin.Epoll.Told.{collect_ready-IsWatched}
use l_builtin.Epoll.Kernel.{Slot, slot_calls, slot_watched, slot_laws}

-- The world: the events that wait
abbrev Waiting : Type 0
Waiting = List EpollEvent

abbrev still : Calls Waiting
still = record {
  legal_identifier = λ name. true;
  find_variable = λ name w. none;
  bind_variable = λ name value w. (true, w);
  shm_open = λ name create w. (none, w);
  ftruncate = λ fd size w. (false, w);
  mmap = λ fd size w. (none, w);
  munmap = λ ptr size w. w;
  close = λ fd w. w;
  shm_unlink = λ name w. w;
}

abbrev waits : (ℕ → Waiting → Option (List EpollEvent) × Waiting) → EpollCalls Waiting
waits answer = record {
  epoll_create = λ w. (some 3, w);
  dup_fd = λ fd cloexec least w. (some (least + fd), w);
  epoll_ctl = λ epfd op fd event w. (true, w);
  epoll_wait = λ epfd n timeout w. answer n w;
  prepare_array = λ name w. (true, w);
  array_insert = λ name fd ev w. w;
}

abbrev once : EpollCalls Waiting
once = waits (λ n w. (some (take n w), drop n w))

abbrev ready_five : EpollEvent
ready_five = record { events = 5; u64 = 7 }

abbrev always : EpollCalls Waiting
always = waits (λ n w. (some (replicate n ready_five), w))

take_nil : (n : ℕ) → take {A = EpollEvent} n [] ≡ []
take_nil zero = refl
take_nil (suc n) = refl

drop_nil : (n : ℕ) → drop {A = EpollEvent} n [] ≡ []
drop_nil zero = refl
drop_nil (suc n) = refl

abbrev once_queue : Queue once (pos 4)
once_queue = record {
  pending = λ w. w;
  takes = λ n timeout w nonempty. (refl, refl);
  idle = λ n w empty. (
    ap (λ v. some (take n v)) empty ∙ ap some (take_nil n),
    ap (λ v. drop n v) empty ∙ drop_nil n,
  );
}

always_full : Full still always (pos 4)
always_full timeout w = (ready_five, replicate 255 ready_five, refl, omega arith)

-- 'tr' asks for EPOLLIN and EPOLLET.
edge : parse_events (some (b't' ∷ b'r' ∷ [])) ≡ 2 ^ 31 + 1
unfolding parse_events add_tokens add_token
edge = refl

hung_up : format_events 21 ≡ (b'r' ∷ b'w' ∷ b'h' ∷ [])
unfolding format_events
hung_up = refl

collected :
    (epoll_wait_subcommand still once 2
      (record { timeout = none; var = none; epfd = pos 4 })
      (ready_five ∷ [])).0
    ≡ ok (some ((pos 7, b'r' ∷ b'w' ∷ []) ∷ []))
unfolding epoll_wait_subcommand collect_ready drain_loop reported_event as_c_int format_events
collected = refl

parse_events-mask_example :
    parse_events (some (b'w' ∷ b'x' ∷ b'r' ∷ [])) ≡ or_epollin (mask true true false false)
parse_events-mask_example = parse_events-mask (b'w' ∷ b'x' ∷ b'r' ∷ [])

parse_events-format_events_example :
    parse_events (some (format_events (parse_events (some (b't' ∷ b'w' ∷ [])))))
    ≡ parse_events (some (b't' ∷ b'w' ∷ []))
parse_events-format_events_example = parse_events-format_events (some (b't' ∷ b'w' ∷ []))

collect_ready-IsAll_example :
    ((collect_ready still once 3
        (record { timeout = none; var = none; epfd = pos 4 })
        (ready_five ∷ ready_five ∷ [])).0
      ≡ ok (some (map reported_event (ready_five ∷ ready_five ∷ []))))
    × ((collect_ready still once 3
          (record { timeout = none; var = none; epfd = pos 4 })
          (ready_five ∷ ready_five ∷ [])).1
        ≡ [])
collect_ready-IsAll_example =
    collect_ready-IsAll still once (pos 4) once_queue none none (ready_five ∷ ready_five ∷ [])
      (omega arith)

collect_ready-none_example :
    (collect_ready still always 9 (record { timeout = none; var = none; epfd = pos 4 }) []).0
    ≡ ok none
collect_ready-none_example = collect_ready-none still always (pos 4) always_full none none 9 []

abbrev slot_still : Calls Slot
slot_still = record {
  legal_identifier = λ name. true;
  find_variable = λ name w. none;
  bind_variable = λ name value w. (true, w);
  shm_open = λ name create w. (none, w);
  ftruncate = λ fd size w. (false, w);
  mmap = λ fd size w. (none, w);
  munmap = λ ptr size w. w;
  close = λ fd w. w;
  shm_unlink = λ name w. w;
}

-- Descriptor 5 is added to instance 4, which is waited on.
abbrev add_five : EpollCommand
add_five = EpollCommand.add (record { epfd = pos 4; fd = pos 5; events = none })

abbrev wait_four : EpollWaitArgs
wait_four = record { timeout = none; var = none; epfd = pos 4 }

five_is_told :
    (collect_ready slot_still slot_calls 1 wait_four
      (run_commands slot_still slot_calls (add_five ∷ []) none)).0
    ≡ ok (some ((pos 5, b'r' ∷ []) ∷ []))
unfolding collect_ready drain_loop epoll_add_subcommand as_u64 as_c_int reported_event format_events
five_is_told = refl

small : IsCInt (pos 5)
small = omega arith

nothing_watched : (e f : ℤ) → slot_watched none e f ≡ none
nothing_watched e f = elim (Bool-cases (same_int e (pos 4) && same_int f (pos 5))) [
  | inl a ↦ rw a
  | inr a ↦ rw a
]

collect_ready-IsWatched_example :
    All {A = ℤ × Bytes}
      (λ entry.
        (word : ℕ) × (slot_watched
            (run_commands slot_still slot_calls (add_five ∷ []) none)
            (pos 4)
            entry.0
          ≡ some word))
      ((pos 5, b'r' ∷ []) ∷ [])
collect_ready-IsWatched_example =
    collect_ready-IsWatched slot_still slot_calls slot_watched slot_laws (add_five ∷ []) none
      (small, tt) nothing_watched 1 wait_four ((pos 5, b'r' ∷ []) ∷ []) five_is_told

some_inj : (a b : ℕ) → some a ≡ some b → a ≡ b
some_inj a b h = cc

once_high : DupsHigh once
once_high fd cloexec least new w h =
    subst (λ n. least ≤ n) (some_inj (least + fd) new h) (omega arith)

moved : (ensure_high_fd still once 3 true []).0 ≡ some 83
unfolding ensure_high_fd
moved = refl

ensure_high_fd-l_fd_min_example : l_fd_min ≤ 83
ensure_high_fd-l_fd_min_example = ensure_high_fd-l_fd_min still once once_high 3 83 true [] moved
