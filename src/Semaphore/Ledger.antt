-- ===== src/Semaphore/Ledger.antt =====
-- l_builtin/src/cmd_semaphore.rs: every semaphore that is mapped is owned by one handle or taken back.
use l_builtin.Base.{
  ap, ◌>>=◌, succeed, ℕ, ◌+◌, ◌<◌, ◌≡◌, ◌∙◌, List, [], ◌∷◌, Option, none, some, Bool, true, false,
  Bytes, ok, err, Outcome, length, arith,
}
use l_builtin.Base.Hoare.{Meets, Ends, sequence, either_way}
use l_builtin.Shell.{Calls}
use l_builtin.Shell.Steps.{succeeds, effect, rescue, undone}
use l_builtin.Handles.{Process, pointers}
use l_builtin.Handles.Entries.{at, occurrences, here_is_one}
use l_builtin.Handles.Ledger.{Books, Same, Accounting, Balanced, Holds, Gains, gained}
use l_builtin.Handles.Mapping.{mapped}
use l_builtin.Handles.Commands.{take_handle, call}
use l_builtin.Handles.Balance.{map_anonymous-meets, mapped-held}
use l_builtin.Handles.Keeping.{map-meets, take-meets}
use l_builtin.Handles.Quiet.{QuietCall, QuietStep, Quiet-succeeds}
use l_builtin.Handles.Shapes.{Keeps, register-Keeps, use-Keeps, weaker}
use l_builtin.Semaphore.{
  SemaphoreCalls, wait_call, semaphore_wait, semaphore_post, semaphore_teardown,
}
use l_builtin.Semaphore.Commands.{
  new_semaphore, semaphore_create_subcommand, semaphore_open_subcommand, semaphore_wait_subcommand,
  semaphore_post_subcommand, semaphore_close_subcommand, semaphore_destroy_subcommand,
}
use l_builtin.Semaphore.Session.{
  SemaphoreCommand, create, open_named, wait, post, close, destroy, semaphore_command,
  semaphore_session,
}

-- A call that gives up one mapping of an address.
pub record Releases {World : Type 0} (books : Books World) (ptr : ℕ) (w v : World) : Type 0 where
  pub given_up : 0 < books.held w ptr → (q : ℕ) → books.held v q + at ptr q ≡ books.held w q
  pub files_kept : (g : ℕ) → books.open_files v g ≡ books.open_files w g

-- What the manual pages promise: sem_open maps the semaphore, sem_close unmaps it, and the rest neither
-- maps nor opens anything.
pub record SemaphoreAccounting {World Seconds : Type 0} (books : Books World)
    (c : SemaphoreCalls World Seconds) : Type 0 where
  pub sem_open_held :
      (name : Bytes) (may_create : Bool) (value : ℕ) (w : World) (q : ℕ)
      → books.held (c.sem_open name may_create value w).1 q
        ≡ gained (c.sem_open name may_create value w).0 q + books.held w q
  pub sem_open_open :
      (name : Bytes) (may_create : Bool) (value : ℕ) (w : World) (g : ℕ)
      → books.open_files (c.sem_open name may_create value w).1 g ≡ books.open_files w g
  pub sem_close_releases : (ptr : ℕ) (w : World) → Releases books ptr w (c.sem_close ptr w)
  pub quiet_init : (p value : ℕ) → QuietCall books (c.sem_init p value)
  pub quiet_wait : (b : ℕ) → QuietCall books (c.sem_wait b)
  pub quiet_trywait : (b : ℕ) → QuietCall books (c.sem_trywait b)
  pub quiet_timedwait : (b : ℕ) (secs : Seconds) → QuietCall books (c.sem_timedwait b secs)
  pub quiet_post : (b : ℕ) → QuietCall books (c.sem_post b)
  pub quiet_destroy : (b : ℕ) → QuietStep books (c.sem_destroy b)

module _ {World Seconds : Type 0} (calls : Calls World) (books : Books World)
    (laws : Accounting books calls) (c : SemaphoreCalls World Seconds)
    (rules : SemaphoreAccounting books c) where
  opened-meets :
      (name : Bytes) (may_create : Bool) (value : ℕ) (m f : ℕ → ℕ)
      → Meets
          (Holds books m f)
          (λ w. mapped (c.sem_open name may_create value w))
          (Gains books m f)
          (Holds books m f)
  opened-meets name may_create value m f = record {
    apply = λ w h.
        mapped-held calls books laws m f (c.sem_open name may_create value w)
          (λ q.
            rules.sem_open_held name may_create value w q
            ∙ ap (λ x. gained (c.sem_open name may_create value w).0 q + x) (h.mapped_all q))
          (λ g. rules.sem_open_open name may_create value w g ∙ h.open_all g);
  }

  initialized-meets :
      (p value : ℕ) (m f : ℕ → ℕ)
      → Meets
          (Gains books m f p)
          (rescue (succeeds (c.sem_init p value)) (calls.munmap p c.semaphore_bytes))
          (λ _. Gains books m f p)
          (Holds books m f)
  unfolding rescue
  initialized-meets p value m f = record {
    apply = λ w h.
        go w h (succeeds (c.sem_init p value) w)
          (Quiet-succeeds books (c.sem_init p value) (rules.quiet_init p value) w);
  }
    where
      go :
          (w : World)
          → Gains books m f p w
          → (r : Outcome (Unit {0}) × World) → Same books w r.1
          → Ends
              (λ _. Gains books m f p)
              (Holds books m f)
              (undone (calls.munmap p c.semaphore_bytes) r)
      go w h (ok u, v) s = record {
        mapped_all = λ q. s.same_held q ∙ h.mapped_all q;
        open_all = λ g. s.same_open g ∙ h.open_all g;
      }
      go w h (err code, v) s =
          let one = here_is_one p (m p) (books.held v p) (s.same_held p ∙ h.mapped_all p) in
          record {
            mapped_all = λ q.
                (let t = laws.munmap_held p c.semaphore_bytes v one q in
                  let e = s.same_held q in let k = h.mapped_all q in omega arith);
            open_all = λ g. laws.munmap_open p c.semaphore_bytes v g ∙ s.same_open g ∙ h.open_all g;
          }

  new-meets :
      (name : Option Bytes) (value : ℕ) (m f : ℕ → ℕ)
      → Meets
          (Holds books m f)
          (new_semaphore calls c name value)
          (Gains books m f)
          (Holds books m f)
  new-meets (some n) value m f = opened-meets n true value m f
  new-meets none value m f =
      sequence (map_anonymous-meets calls books laws c.semaphore_bytes m f) (λ p.
        sequence {rest = λ _. succeed p} (initialized-meets p value m f)
          (λ _. record { apply = λ w h. h }))

  Releases-teardown :
      (ptr : ℕ) (name : Option Bytes) (unlink : Bool) (w : World)
      → Releases books ptr w (semaphore_teardown calls c ptr name unlink w)
  unfolding semaphore_teardown
  Releases-teardown ptr (some n) false w = rules.sem_close_releases ptr w
  Releases-teardown ptr (some n) true w =
      let r = rules.sem_close_releases ptr w in
      let s = laws.unlink_same n (c.sem_close ptr w) in
      record {
        given_up = λ one q. (let t = r.given_up one q in let e = s.same_held q in omega arith);
        files_kept = λ g. s.same_open g ∙ r.files_kept g;
      }
  Releases-teardown ptr none unlink w =
      let s = rules.quiet_destroy ptr w in
      let v = c.sem_destroy ptr w in
      record {
        given_up = λ one q.
            (let here = s.same_held ptr in
              let t = laws.munmap_held ptr c.semaphore_bytes v (omega arith) q in
              let e = s.same_held q in omega arith);
        files_kept = λ g. laws.munmap_open ptr c.semaphore_bytes v g ∙ s.same_open g;
      }

  module _ (o f : ℕ → ℕ) where
    teardown-meets :
        (ptr : ℕ) (name : Option Bytes) (unlink : Bool) (room : ℕ)
        → Meets
            (Balanced books o f room (ptr ∷ []))
            (call (effect (semaphore_teardown calls c ptr name unlink)))
            (λ _. Balanced books o f room [])
            (Balanced books o f room [])
    unfolding call effect
    teardown-meets ptr name unlink room = record {
      apply = λ p b.
          let here = b.holding.mapped_all ptr in
          let one =
            here_is_one ptr (0 + occurrences ptr (pointers p.registry) + o ptr)
              (books.held p.world ptr) (omega arith) in
          let r = Releases-teardown ptr name unlink p.world in
          record {
            distinct = b.distinct;
            has_room = b.has_room;
            holding = record {
              mapped_all =
                  λ q. (let h = b.holding.mapped_all q in let t = r.given_up one q in omega arith);
              open_all = λ g. r.files_kept g ∙ b.holding.open_all g;
            };
          };
    }

    released-Keeps :
        (room id : ℕ) (unlink : Bool)
        → Keeps calls books laws o f room (
            take_handle id >>= λ entry.
            call (effect (semaphore_teardown calls c entry.ptr entry.name unlink)))
    released-Keeps room id unlink =
        weaker calls books laws o f room
          (take_handle id >>= λ entry.
            call (effect (semaphore_teardown calls c entry.ptr entry.name unlink)))
          (sequence (take-meets calls books laws id o f room)
            (λ entry. teardown-meets entry.ptr entry.name unlink room))

    wait_call-Quiet :
        (b : ℕ) (timeout : Option Seconds) (nonblock : Bool)
        → QuietCall books (wait_call c b timeout nonblock)
    wait_call-Quiet b timeout true = rules.quiet_trywait b
    wait_call-Quiet b (some secs) false = rules.quiet_timedwait b secs
    wait_call-Quiet b none false = rules.quiet_wait b

    command-Keeps :
        (room : ℕ) (x : SemaphoreCommand Seconds)
        → Keeps calls books laws o f room (semaphore_command calls c x)
    unfolding semaphore_command semaphore_create_subcommand semaphore_open_subcommand
        semaphore_wait_subcommand semaphore_post_subcommand semaphore_close_subcommand
        semaphore_destroy_subcommand semaphore_wait semaphore_post
    command-Keeps room (create args) =
        sequence
          (map-meets calls books laws (new_semaphore calls c args.name args.count) o f room
            (λ m. new-meets args.name args.count m f))
          (λ ptr. register-Keeps calls books laws o f room ptr args.name args.var)
    command-Keeps room (open_named args) =
        sequence
          (map-meets calls books laws (λ w. mapped (c.sem_open args.name false 0 w)) o f room
            (λ m. opened-meets args.name false 0 m f))
          (λ ptr. register-Keeps calls books laws o f room ptr (some args.name) args.var)
    command-Keeps room (wait args) =
        use-Keeps calls books laws o f room (λ ptr. semaphore_wait c ptr args.timeout args.nonblock)
          args.var
          (λ ptr.
            Quiet-succeeds books (wait_call c ptr args.timeout args.nonblock)
              (wait_call-Quiet ptr args.timeout args.nonblock))
    command-Keeps room (post var) =
        use-Keeps calls books laws o f room (semaphore_post c) var
          (λ ptr. Quiet-succeeds books (c.sem_post ptr) (rules.quiet_post ptr))
    command-Keeps room (close var) = released-Keeps room var false
    command-Keeps room (destroy var) = released-Keeps room var true

    -- After any semaphore commands, whatever their results, each semaphore that they mapped is owned by
    -- one entry of the registry and no descriptor is left open, if that was so before, there are ids left
    -- to give out, and the calls keep to their manual pages.
    pub semaphore_session-Balanced :
        (xs : List (SemaphoreCommand Seconds)) (p : Process World)
        → Balanced books o f (length xs) [] p
        → Balanced books o f 0 [] (semaphore_session calls c xs p)
    unfolding semaphore_session
    semaphore_session-Balanced [] p b = b
    semaphore_session-Balanced (x ∷ xs) p b =
        semaphore_session-Balanced xs (semaphore_command calls c x p).1 (
          either_way (Balanced books o f (length xs) []) (semaphore_command calls c x p) (
            (command-Keeps (length xs) x).apply p (record {
              distinct = b.distinct;
              has_room = (let h = b.has_room in omega arith);
              holding = b.holding;
            })))
