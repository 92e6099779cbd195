-- ===== src/Semaphore/Commands.antt =====
-- l_builtin/src/cmd_semaphore.rs: the subcommands of `semaphore`, on arguments that are parsed.
use l_builtin.Base.{succeed, ◌>>=◌, ◌>>◌, ℕ, Option, none, some, Bool, true, false, Bytes, Command}
use l_builtin.Shell.{Calls}
use l_builtin.Shell.Variable.{BashVar, set_int}
use l_builtin.Shell.Steps.{succeeds, effect, rescue}
use l_builtin.Handles.{Process}
use l_builtin.Handles.Mapping.{mapped, map_anonymous}
use l_builtin.Handles.Commands.{call, store_handle, take_handle, lookup_handle}
use l_builtin.Semaphore.{SemaphoreCalls, semaphore_wait, semaphore_post, semaphore_teardown}

pub record SemaphoreCreateArgs : Type 0 where
  pub name : Option Bytes
  pub var : BashVar
  pub count : ℕ

pub record SemaphoreOpenArgs : Type 0 where
  pub var : BashVar
  pub name : Bytes

pub record SemaphoreWaitArgs (Seconds : Type 0) : Type 0 where
  pub nonblock : Bool
  pub timeout : Option Seconds
  pub var : ℕ

module _ {World Seconds : Type 0} (calls : Calls World) (c : SemaphoreCalls World Seconds) where
  abbrev pub anonymous_semaphore : ℕ → Command World ℕ
  anonymous_semaphore value = do
    p ← map_anonymous calls c.semaphore_bytes
    rescue (succeeds (c.sem_init p value)) (calls.munmap p c.semaphore_bytes)
    succeed p

  -- the semaphore that a `create` makes: named, or in anonymous shared memory
  abbrev pub new_semaphore : Option Bytes → ℕ → Command World ℕ
  new_semaphore (some n) value w = mapped (c.sem_open n true value w)
  new_semaphore none value w = anonymous_semaphore value w

  unfoldable pub semaphore_create_subcommand :
      SemaphoreCreateArgs → Command (Process World) (Unit {0})
  semaphore_create_subcommand args = do
    ptr ← call (new_semaphore args.name args.count)
    id ← store_handle ptr args.name
    call (set_int calls args.var id)

  unfoldable pub semaphore_open_subcommand : SemaphoreOpenArgs → Command (Process World) (Unit {0})
  semaphore_open_subcommand args = do
    sem ← call (λ w. mapped (c.sem_open args.name false 0 w))
    id ← store_handle sem (some args.name)
    call (set_int calls args.var id)

  unfoldable pub semaphore_wait_subcommand :
      SemaphoreWaitArgs Seconds → Command (Process World) (Unit {0})
  semaphore_wait_subcommand args = do
    ptr ← lookup_handle args.var
    call (semaphore_wait c ptr args.timeout args.nonblock)

  unfoldable pub semaphore_post_subcommand : ℕ → Command (Process World) (Unit {0})
  semaphore_post_subcommand var = do ptr ← lookup_handle var; call (semaphore_post c ptr)

  unfoldable pub semaphore_close_subcommand : ℕ → Command (Process World) (Unit {0})
  semaphore_close_subcommand var = do
    entry ← take_handle var
    call (effect (semaphore_teardown calls c entry.ptr entry.name false))

  unfoldable pub semaphore_destroy_subcommand : ℕ → Command (Process World) (Unit {0})
  semaphore_destroy_subcommand var = do
    entry ← take_handle var
    call (effect (semaphore_teardown calls c entry.ptr entry.name true))
