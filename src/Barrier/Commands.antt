-- ===== src/Barrier/Commands.antt =====
-- l_builtin/src/cmd_barrier.rs: the subcommands of `barrier`, on arguments that are parsed.
use l_builtin.Base.{
  ◌>>=◌, ◌>>◌, ℕ, Option, some, Bool, false, Bytes, err, Command, ex_usage, if◌then◌else◌, ◌==◌,
}
use l_builtin.Shell.{Calls}
use l_builtin.Shell.Variable.{BashVar, set_int}
use l_builtin.Shell.Steps.{effect, rescue}
use l_builtin.Handles.{Process}
use l_builtin.Handles.Mapping.{map_named, unmap, map_for, unlink_named}
use l_builtin.Handles.Commands.{call, store_handle, take_handle, lookup_handle}
use l_builtin.Barrier.{BarrierCalls}
use l_builtin.Barrier.Wait.{barrier_init, barrier_wait, barrier_reset, Waited}

pub record BarrierCreateSubcommand : Type 0 where
  pub name : Option Bytes
  pub var : BashVar
  pub count : ℕ

pub record BarrierOpenArgs : Type 0 where
  pub barrier : BashVar
  pub name : Bytes

pub record BarrierWaitSubcommand (Seconds : Type 0) : Type 0 where
  pub nonblock : Bool
  pub timeout : Option Seconds
  pub id : ℕ

module _ {World Seconds : Type 0} (calls : Calls World) (c : BarrierCalls World Seconds) where
  unfoldable pub create_barrier : BarrierCreateSubcommand → Command (Process World) (Unit {0})
  create_barrier args = do
    ptr ← call (map_for calls args.name c.barrier_bytes)
    call (rescue (barrier_init c ptr args.count) (calls.munmap ptr c.barrier_bytes))
    id ← store_handle ptr args.name
    call (set_int calls args.var id)

  unfoldable pub barrier_create_subcommand :
      BarrierCreateSubcommand → Command (Process World) (Unit {0})
  barrier_create_subcommand args p =
      if args.count == 0 then (err ex_usage, p) else create_barrier args p

  unfoldable pub barrier_open_subcommand : BarrierOpenArgs → Command (Process World) (Unit {0})
  barrier_open_subcommand args = do
    ptr ← call (map_named calls args.name c.barrier_bytes false)
    id ← store_handle ptr (some args.name)
    call (set_int calls args.barrier id)

  unfoldable pub barrier_wait_subcommand :
      ℕ → BarrierWaitSubcommand Seconds → Command (Process World) Waited
  barrier_wait_subcommand wakeups args = do
    ptr ← lookup_handle args.id
    call (barrier_wait c wakeups ptr args.timeout args.nonblock)

  unfoldable pub barrier_close_subcommand : ℕ → Command (Process World) (Unit {0})
  barrier_close_subcommand id = do
    entry ← take_handle id
    call (unmap calls entry.ptr c.barrier_bytes)

  unfoldable pub barrier_reset_subcommand : ℕ → Command (Process World) (Unit {0})
  barrier_reset_subcommand barrier = do ptr ← lookup_handle barrier; call (barrier_reset c ptr)

  unfoldable pub barrier_destroy_subcommand : ℕ → Command (Process World) (Unit {0})
  barrier_destroy_subcommand barrier = do
    entry ← take_handle barrier
    call (unmap calls entry.ptr c.barrier_bytes)
    call (effect (unlink_named calls entry.name))
