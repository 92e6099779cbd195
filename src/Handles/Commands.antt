-- ===== src/Handles/Commands.antt =====
-- The steps that the handlers of cmd_barrier.rs, cmd_mutex.rs and cmd_semaphore.rs share: the
-- registry behind its thread-local cell, and calls on the world beside it.
use l_builtin.Base.{Outcome, ℕ, Option, none, some, Bytes, ok, err, Command, execution_failure}
use l_builtin.Handles.{Process, HandleEntry, Registry, store, lookup, take}

module _ {World : Type 0} where
  abbrev pub beside : {A : Type 0} → Registry → Outcome A × World → Outcome A × Process World
  beside registry (result, world) = (result, record { registry = registry; world = world })

  -- a call on the world
  unfoldable pub call : {A : Type 0} → Command World A → Command (Process World) A
  call command p = beside p.registry (command p.world)

  unfoldable pub store_handle : ℕ → Option Bytes → Command (Process World) ℕ
  store_handle ptr name p = (
    ok (store ptr name p.registry).0,
    record { registry = (store ptr name p.registry).1; world = p.world },
  )

  abbrev pub known : {A : Type 0} → Option A → Process World → Outcome A × Process World
  known none p = (err execution_failure, p)
  known (some a) p = (ok a, p)

  -- `lookup_ptr`, `lookup_mutex`, `lookup_semaphore` and the failure of their callers
  unfoldable pub lookup_handle : ℕ → Command (Process World) ℕ
  lookup_handle id p = known (lookup id p.registry) p

  -- `take_barrier`, `get_mutex_handle`
  unfoldable pub take_handle : ℕ → Command (Process World) HandleEntry
  take_handle id p =
      known (take id p.registry).0 (record { registry = (take id p.registry).1; world = p.world })
