-- ===== src/Semaphore/Tests.antt =====
-- Runs of semaphores (l_builtin/src/cmd_semaphore.rs).
use l_builtin.Base.{ℕ, ◌+◌, refl, none, some, true, arith, List, [], ◌∷◌}
use l_builtin.Handles.Entries.{at}
use l_builtin.Handles.Ledger.{Balanced}
use l_builtin.Machine.{
  start, start-Balanced, Machine, machine_calls, machine_books, machine-Accounting, given_back,
  quiet,
}
use l_builtin.Semaphore.{SemaphoreCalls}
use l_builtin.Semaphore.Session.{
  SemaphoreCommand, create, wait, post, close, destroy, semaphore_session,
}
use l_builtin.Semaphore.Ledger.{SemaphoreAccounting, semaphore_session-Balanced}

abbrev machine_semaphore : SemaphoreCalls Machine ℕ
machine_semaphore = record {
  semaphore_bytes = 32;
  sem_open = λ name may_create value w. (
    some w.brk,
    record { maps = λ q. at w.brk q + w.maps q; files = w.files; bar = w.bar; brk = w.brk + 32 },
  );
  sem_init = λ p value w. (0, w);
  sem_wait = λ b w. (0, w);
  sem_trywait = λ b w. (1, w);
  sem_timedwait = λ b secs w. (1, w);
  sem_post = λ b w. (0, w);
  sem_close = λ p w. machine_calls.munmap p 32 w;
  sem_destroy = λ p w. w;
}

machine-SemaphoreAccounting : SemaphoreAccounting machine_books machine_semaphore
machine-SemaphoreAccounting = record {
  sem_open_held = λ name may_create value w q. refl;
  sem_open_open = λ name may_create value w g. refl;
  sem_close_releases =
      λ ptr w. record { given_up = λ pos q. given_back w.maps ptr pos q; files_kept = λ g. refl };
  quiet_init = λ p value w. quiet w w refl refl;
  quiet_wait = λ b w. quiet w w refl refl;
  quiet_trywait = λ b w. quiet w w refl refl;
  quiet_timedwait = λ b secs w. quiet w w refl refl;
  quiet_post = λ b w. quiet w w refl refl;
  quiet_destroy = λ b w. quiet w w refl refl;
}

abbrev commands : List (SemaphoreCommand ℕ)
commands =
    create (record { name = none; var = record { name = b'a' ∷ [] }; count = 1 })
    ∷ create
        (record { name = some (b'/' ∷ b's' ∷ []); var = record { name = b'b' ∷ [] }; count = 1 })
    ∷ wait (record { nonblock = true; timeout = none; var = 1 })
    ∷ post 2
    ∷ close 1
    ∷ destroy 2
    ∷ []

semaphore_session-Balanced_example :
    Balanced machine_books
      (λ q. 0)
      (λ f. 0)
      0
      []
      (semaphore_session machine_calls machine_semaphore commands start)
semaphore_session-Balanced_example =
    semaphore_session-Balanced machine_calls machine_books machine-Accounting machine_semaphore
      machine-SemaphoreAccounting (λ q. 0) (λ f. 0) commands start (start-Balanced 6 (omega arith))
