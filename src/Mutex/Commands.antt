-- ===== src/Mutex/Commands.antt =====
-- l_builtin/src/cmd_mutex.rs: the subcommands of `mutex`, on arguments that are parsed.
use l_builtin.Base.{
  ◌>>=◌, ◌>>◌, ℕ, Option, none, some, Bool, true, false, List, [], ◌∷◌, Bytes, ok, err, Command,
  ex_usage,
}
use l_builtin.Shell.{Calls}
use l_builtin.Shell.Variable.{BashVar, set_int}
use l_builtin.Shell.Steps.{effect, rescue}
use l_builtin.Handles.{Process, pointers}
use l_builtin.Handles.Mapping.{map_named, unmap, map_for, unlink_named}
use l_builtin.Handles.Commands.{call, store_handle, take_handle, lookup_handle}
use l_builtin.Mutex.{MutexCalls, mutex_init, mutex_lock, mutex_unlock}

pub record MutexCreateArgs : Type 0 where
  pub robust : Bool
  pub name : Option Bytes
  pub mutex : BashVar

pub record MutexOpenArgs : Type 0 where
  pub mutex : BashVar
  pub name : Bytes

pub record MutexLockArgs (Seconds : Type 0) : Type 0 where
  pub nonblock : Bool
  pub timeout : Option Seconds
  pub mutex : ℕ

pub record MutexUnlockArgs : Type 0 where
  pub all : Bool
  pub mutex : Option ℕ

module _ {World Seconds : Type 0} (calls : Calls World) (c : MutexCalls World Seconds) where
  unfoldable pub mutex_create_subcommand : MutexCreateArgs → Command (Process World) (Unit {0})
  mutex_create_subcommand args = do
    ptr ← call (map_for calls args.name c.mutex_bytes)
    call (rescue (mutex_init c ptr args.robust) (calls.munmap ptr c.mutex_bytes))
    id ← store_handle ptr args.name
    call (set_int calls args.mutex id)

  unfoldable pub mutex_open_subcommand : MutexOpenArgs → Command (Process World) (Unit {0})
  mutex_open_subcommand args = do
    ptr ← call (map_named calls args.name c.mutex_bytes false)
    id ← store_handle ptr (some args.name)
    call (set_int calls args.mutex id)

  unfoldable pub mutex_lock_subcommand : MutexLockArgs Seconds → Command (Process World) (Unit {0})
  mutex_lock_subcommand args = do
    ptr ← lookup_handle args.mutex
    call (mutex_lock c ptr args.timeout args.nonblock)

  -- `for_each` with the result of each unlock thrown away
  unfoldable pub unlock_each : List ℕ → World → World
  unlock_each [] w = w
  unlock_each (ptr ∷ ptrs) w = unlock_each ptrs (mutex_unlock c ptr w).1

  abbrev pub unlock_one : Option ℕ → Command (Process World) (Unit {0})
  unlock_one none p = (err ex_usage, p)
  unlock_one (some id) p = (lookup_handle id >>= λ ptr. call (mutex_unlock c ptr)) p

  abbrev pub unlocked : Bool → Option ℕ → Command (Process World) (Unit {0})
  unlocked true mutex p =
      (ok tt, record { registry = p.registry; world = unlock_each (pointers p.registry) p.world })
  unlocked false mutex p = unlock_one mutex p

  unfoldable pub mutex_unlock_subcommand : MutexUnlockArgs → Command (Process World) (Unit {0})
  mutex_unlock_subcommand args = unlocked args.all args.mutex

  unfoldable pub mutex_close_subcommand : ℕ → Command (Process World) (Unit {0})
  mutex_close_subcommand mutex = do
    entry ← take_handle mutex
    call (unmap calls entry.ptr c.mutex_bytes)

  unfoldable pub mutex_destroy_subcommand : ℕ → Command (Process World) (Unit {0})
  mutex_destroy_subcommand mutex = do
    entry ← take_handle mutex
    call (unmap calls entry.ptr c.mutex_bytes)
    call (effect (unlink_named calls entry.name))
