-- ===== src/Machine.antt =====
-- A concrete world for the tests: a machine whose calls succeed and that counts what it hands out.
use l_builtin.Base.{
  [], ◌^◌, inl, inr, Bool-cases, sym, ap, Bool-cases, ℕ, ◌+◌, ◌-◌, ◌≡◌, ◌<◌, refl, none, some, true,
  arith, ◌==◌, ==_iff,
}
use l_builtin.Shell.{Calls}
use l_builtin.Barrier.{Barrier, BarrierCalls, fresh_barrier}
use l_builtin.Barrier.Quiet.{QuietBarrier}
use l_builtin.Mutex.{MutexCalls}
use l_builtin.Mutex.Quiet.{QuietMutex}
use l_builtin.Handles.{Process, new_registry}
use l_builtin.Handles.Entries.{Distinct, at}
use l_builtin.Handles.Ledger.{Balanced, Books, Same, Accounting}

-- The mappings at each address, the open descriptors, the barrier in the memory, and the next
-- address to hand out.
pub record Machine : Type 0 where
  pub maps : ℕ → ℕ
  pub files : ℕ → ℕ
  pub bar : Barrier
  pub brk : ℕ

abbrev pub machine : Machine
machine = record { maps = λ q. 0; files = λ f. 0; bar = fresh_barrier 1; brk = 4096 }

abbrev pub machine_calls : Calls Machine
machine_calls = record {
  legal_identifier = λ name. true;
  find_variable = λ name w. none;
  bind_variable = λ name value w. (true, w);
  shm_open = λ name create w.
      (some 3, record { maps = w.maps; files = λ f. at 3 f + w.files f; bar = w.bar; brk = w.brk });
  ftruncate = λ fd size w. (true, w);
  mmap = λ fd size w. (
    some w.brk,
    record { maps = λ q. at w.brk q + w.maps q; files = w.files; bar = w.bar; brk = w.brk + size },
  );
  munmap = λ ptr size w. record {
    maps = λ q. w.maps q - at ptr q;
    files = w.files;
    bar = w.bar;
    brk = w.brk;
  };
  close =
      λ fd w. record { maps = w.maps; files = λ f. w.files f - at fd f; bar = w.bar; brk = w.brk };
  shm_unlink = λ name w. w;
}

abbrev pub machine_books : Books Machine
machine_books = record { held = λ w. w.maps; open_files = λ w. w.files }

pub quiet : (v w : Machine) → v.maps ≡ w.maps → v.files ≡ w.files → Same machine_books v w
quiet v w m f = record {
  same_held = λ q. ap (λ g. g q) (sym m);
  same_open = λ g. ap (λ h. h g) (sym f);
}

pub given_back : (n : ℕ → ℕ) (p : ℕ) → 0 < n p → (q : ℕ) → n q - at p q + at p q ≡ n q
given_back n p pos q = elim (Bool-cases (p == q)) [
  | inl e ↦ let here : n p ≡ n q = ap n ((==_iff p q).0 e) in rw e (omega arith)
  | inr e ↦ rw e (omega arith)
]

pub machine-Accounting : Accounting machine_books machine_calls
machine-Accounting = record {
  bind_same = λ name value w. quiet w w refl refl;
  shm_open_held = λ name create w q. refl;
  shm_open_open = λ name create w f. refl;
  ftruncate_same = λ fd size w. quiet w w refl refl;
  mmap_held = λ fd size w q. refl;
  mmap_open = λ fd size w f. refl;
  munmap_held = λ ptr size w pos q. given_back w.maps ptr pos q;
  munmap_open = λ ptr size w f. refl;
  close_held = λ fd w q. refl;
  close_open = λ fd w pos f. given_back w.files fd pos f;
  unlink_same = λ name w. quiet w w refl refl;
}

-- A blocked wait fails at its deadline, or else another process satisfies the barrier.
abbrev pub machine_barrier : BarrierCalls Machine ℕ
machine_barrier = record {
  barrier_bytes = 104;
  load_barrier = λ b w. w.bar;
  store_barrier = λ b bar w. record { maps = w.maps; files = w.files; bar = bar; brk = w.brk };
  mutexattr_init = λ w. (0, w);
  mutexattr_setpshared = λ w. w;
  mutexattr_destroy = λ w. w;
  condattr_init = λ w. (0, w);
  condattr_setpshared = λ w. w;
  condattr_destroy = λ w. w;
  pthread_mutex_init = λ b w. (0, w);
  cond_init = λ b w. (0, w);
  pthread_mutex_lock = λ b w. (0, w);
  pthread_mutex_unlock = λ b w. w;
  cond_broadcast = λ b w. w;
  cond_wait = λ b w. (
    0,
    record {
      maps = w.maps;
      files = w.files;
      bar = record { count = w.bar.target; target = w.bar.target; satisfied = 1 };
      brk = w.brk;
    },
  );
  cond_timedwait = λ b secs w. (110, w);
}

pub machine_barrier-Quiet : QuietBarrier machine_books machine_barrier
machine_barrier-Quiet = record {
  quiet_store = λ b bar w. quiet w (machine_barrier.store_barrier b bar w) refl refl;
  quiet_mutexattr_init = λ w. quiet w w refl refl;
  quiet_mutexattr_setpshared = λ w. quiet w w refl refl;
  quiet_mutexattr_destroy = λ w. quiet w w refl refl;
  quiet_condattr_init = λ w. quiet w w refl refl;
  quiet_condattr_setpshared = λ w. quiet w w refl refl;
  quiet_condattr_destroy = λ w. quiet w w refl refl;
  quiet_mutex_init = λ b w. quiet w w refl refl;
  quiet_cond_init = λ b w. quiet w w refl refl;
  quiet_lock = λ b w. quiet w w refl refl;
  quiet_unlock = λ b w. quiet w w refl refl;
  quiet_broadcast = λ b w. quiet w w refl refl;
  quiet_wait = λ b w. quiet w (machine_barrier.cond_wait b w).1 refl refl;
  quiet_timedwait = λ b secs w. quiet w w refl refl;
}

-- A lock whose owner died.
abbrev pub machine_mutex : MutexCalls Machine ℕ
machine_mutex = record {
  mutex_bytes = 40;
  mutexattr_init = λ w. (0, w);
  mutexattr_setpshared = λ w. w;
  mutexattr_settype = λ w. w;
  mutexattr_setrobust = λ w. (0, w);
  mutexattr_destroy = λ w. w;
  pthread_mutex_init = λ b w. (0, w);
  pthread_mutex_lock = λ b w. (130, w);
  pthread_mutex_trylock = λ b w. (16, w);
  pthread_mutex_timedlock = λ b secs w. (110, w);
  pthread_mutex_consistent = λ b w. (0, w);
  pthread_mutex_unlock = λ b w. (0, w);
}

pub machine_mutex-Quiet : QuietMutex machine_books machine_mutex
machine_mutex-Quiet = record {
  quiet_attr_init = λ w. quiet w w refl refl;
  quiet_setpshared = λ w. quiet w w refl refl;
  quiet_settype = λ w. quiet w w refl refl;
  quiet_setrobust = λ w. quiet w w refl refl;
  quiet_attr_destroy = λ w. quiet w w refl refl;
  quiet_init = λ b w. quiet w w refl refl;
  quiet_lock = λ b w. quiet w w refl refl;
  quiet_trylock = λ b w. quiet w w refl refl;
  quiet_timedlock = λ b secs w. quiet w w refl refl;
  quiet_consistent = λ b w. quiet w w refl refl;
  quiet_unlock = λ b w. quiet w w refl refl;
}

abbrev pub start : Process Machine
start = record { registry = new_registry; world = machine }

pub start-Balanced :
    (room : ℕ) → 1 + room < 2 ^ 64 → Balanced machine_books (λ q. 0) (λ f. 0) room [] start
unfolding Distinct
start-Balanced room fits = record {
  distinct = tt;
  has_room = fits;
  holding = record { mapped_all = λ q. refl; open_all = λ f. refl };
}
