-- ===== src/VarDb/Lock.antt =====
-- l_builtin/src/vardb.rs: `flock`, the rwlock in shared memory, and the guards that release them.
use l_builtin.Base.{◌>>◌, ℕ, List, [], ◌∷◌, ok, err, Command, Outcome}
use l_builtin.VarDb.Os.{Os, LockAnswer, Lockable, LockMode, may_fail}

-- The loop of `flock`: an interrupted call is made again.
abbrev pub flock_loop : List LockAnswer → Os → Outcome (Unit {0}) × Os
flock_loop [] os = (ok tt, record os { flocks = [] })
flock_loop (LockAnswer.acquired ∷ rest) os = (ok tt, record os { flocks = rest })
flock_loop (LockAnswer.interrupted ∷ rest) os = flock_loop rest os
flock_loop (LockAnswer.refused code ∷ rest) os = (err code, record os { flocks = rest })

unfoldable pub flock : Command Os (Unit {0})
flock os = flock_loop os.flocks os

abbrev pub hold : Lockable → LockMode → Command Os (Unit {0})
hold on mode os = (ok tt, record os { held = (on, mode) ∷ os.held })

abbrev pub without_first : {A : Type 0} → List A → List A
without_first [] = []
without_first (x ∷ xs) = xs

-- The drop of a guard, and the lock of one guard is the last that was taken.
abbrev pub released : {A : Type 0} → Outcome A × Os → Outcome A × Os
released (result, os) = (result, record os { held = without_first os.held })

-- A guard's scope: the guard is dropped however the body ends.
unfoldable pub guarded :
    {A : Type 0} → Command Os (Unit {0}) → Lockable → LockMode → Command Os A → Command Os A
guarded acquire on mode body = do acquire; hold on mode; λ os. released (body os)

-- `FlockLock::new` and its drop around what is done under the lock
unfoldable pub with_flock : {A : Type 0} → ℕ → LockMode → Command Os A → Command Os A
with_flock inode mode body = guarded flock (Lockable.of_file inode) mode body

-- `RwLockReadGuard`, `RwLockWriteGuard`
unfoldable pub with_rwlock : {A : Type 0} → Lockable → LockMode → Command Os A → Command Os A
with_rwlock on mode body = guarded may_fail on mode body

-- A failure that is reported by `errno`, which these calls of the pthread library do not set.
abbrev pub as_last_error : {A : Type 0} → Outcome A × Os → Outcome A × Os
as_last_error (ok a, os) = (ok a, os)
as_last_error (err code, os) = (err os.last_error, os)

-- The attribute is initialised, shared, used and destroyed here, so it is not part of the state.
unfoldable pub init_pshared_rwlock : Command Os (Unit {0})
init_pshared_rwlock = do
  λ os. as_last_error (may_fail os)
  λ os. as_last_error (may_fail os)
  may_fail
