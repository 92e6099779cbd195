-- ===== src/VarDb/Cell/Calm.antt =====
-- l_builtin/src/vardb.rs on a system where no call fails, though `flock` may be interrupted.
use mathlib.Core.Path.{subst}
use l_builtin.Base.{◌>>◌, sym, ok, ℕ, ◌≡◌, refl, some, List, [], ◌∷◌, Bytes, Command, Outcome}
use l_builtin.Base.Assoc.{Assoc, get, put, get-put, id_key, same_refl, bytes_key}
use l_builtin.Base.Hoare.{gives_then, Gives}
use l_builtin.VarDb.File.{File}
use l_builtin.VarDb.Os.{
  answer, Lockable, LockMode, may_fail, Os, LockAnswer, content_of, on_file, on_region,
}
use l_builtin.VarDb.Lock.{flock, flock_loop, hold, released, guarded, without_first}
use l_builtin.VarDb.Backend.{DbPath}

abbrev pub WillGrant : List LockAnswer → Type 0
WillGrant [] = Unit {0}
WillGrant (LockAnswer.acquired ∷ rest) = WillGrant rest
WillGrant (LockAnswer.interrupted ∷ rest) = WillGrant rest
WillGrant (LockAnswer.refused code ∷ rest) = ⊥

abbrev pub IsCalm : Os → Type 0
IsCalm os = (os.faults ≡ []) × WillGrant os.flocks

-- The name of a file leads to its inode; memory has no name.
abbrev pub Leads : DbPath → ℕ → Assoc Bytes ℕ → Assoc Bytes ℕ → Type 0
Leads (DbPath.file path) inode files objects = get files path ≡ some inode
Leads (DbPath.shm name) inode files objects = get objects (b'/' ∷ name) ≡ some inode
Leads (DbPath.mem name) inode files objects = Unit {0}
Leads (DbPath.mmap name size) inode files objects = Unit {0}

abbrev pub FileHas : DbPath → ℕ → Bytes → Os → Type 0
FileHas path inode content os =
    (get os.inodes inode ≡ some content) × IsCalm os × Leads path inode os.files os.objects

abbrev pub RegionHas : ℕ → Bytes → Os → Type 0
RegionHas region mem os = (get os.regions region ≡ some mem) × (IsCalm os)

pub get-put_same : {V : Type 0} (m : Assoc ℕ V) (k : ℕ) (v : V) → get (put m k v) k ≡ some v
get-put_same m k v = rw (get-put m k k v, same_refl k) refl

pub get-put_name : (m : Assoc Bytes ℕ) (k : Bytes) (v : ℕ) → get (put m k v) k ≡ some v
get-put_name m k v = rw (get-put m k k v, same_refl k) refl

module _ {A : Type 0} (path : DbPath) (inode : ℕ) (content after : Bytes) (command : Command File A)
    (result : Outcome A) where
  pub on_file-Gives :
      command (record { content = content; faults = [] })
        ≡ (result, record { content = after; faults = [] })
      → Gives (FileHas path inode content) (on_file inode command) result (FileHas path inode after)
  unfolding on_file
  on_file-Gives h = record {
    apply = λ os given.
        let e : command (record { content = content_of (get os.inodes inode); faults = os.faults })
            ≡ (result, record { content = after; faults = [] }) =
          rw (given.0, given.1.0) h in
        rw e (refl, (get-put_same os.inodes inode after, (refl, given.1.1), given.2));
  }

module _ {A : Type 0} (region : ℕ) (mem after : Bytes) (command : Command Bytes A)
    (result : Outcome A) where
  pub on_region-Gives :
      command mem ≡ (result, after)
      → Gives (RegionHas region mem) (on_region region command) result (RegionHas region after)
  unfolding on_region
  on_region-Gives h = record {
    apply = λ os given.
        let e : command (content_of (get os.regions region)) ≡ (result, after) = rw given.0 h in
        rw e (refl, (get-put_same os.regions region after, given.1));
  }

pub may_fail-Gives :
    (before : Os → Type 0)
    → ((os : Os) → before os → os.faults ≡ [])
    → Gives before may_fail (ok tt) before
unfolding may_fail
may_fail-Gives before calm = record {
  apply = λ os given.
      subst (λ faults. ((answer faults os).0 ≡ ok tt) × before (answer faults os).1)
        (sym (calm os given)) (refl, given);
}

abbrev Granted : Os → Outcome (Unit {0}) × Os → Type 0
Granted os r =
    (rest : List LockAnswer) × WillGrant rest × (r ≡ (ok tt, record os { flocks = rest }))

flock_loop-Granted :
    (locks : List LockAnswer) (os : Os) → WillGrant locks → Granted os (flock_loop locks os)
flock_loop-Granted [] os h = ([], h, refl)
flock_loop-Granted (LockAnswer.acquired ∷ rest) os h = (rest, h, refl)
flock_loop-Granted (LockAnswer.interrupted ∷ rest) os h = flock_loop-Granted rest os h
flock_loop-Granted (LockAnswer.refused code ∷ rest) os h = absurd h

pub flock-Gives :
    (path : DbPath) (inode : ℕ) (content : Bytes)
    → Gives (FileHas path inode content) flock (ok tt) (FileHas path inode content)
unfolding flock
flock-Gives path inode content = record {
  apply = λ os given.
      let g = flock_loop-Granted os.flocks os given.1.1 in
      rw g.2 (refl, (given.0, (given.1.0, g.1), given.2));
}

-- What is true whichever locks are held.
abbrev pub IgnoresLocks : (Os → Type 0) → Type 0
IgnoresLocks holds =
    (os : Os) (locks : List (Lockable × LockMode)) → holds os → holds (record os { held = locks })

pub guarded-Gives :
    {A : Type 0} (before after : Os → Type 0) (acquire : Command Os (Unit {0})) (on : Lockable)
    (mode : LockMode) (body : Command Os A) (result : Outcome A)
    → IgnoresLocks before
    → IgnoresLocks after
    → Gives before acquire (ok tt) before
    → Gives before body result after
    → Gives before (guarded acquire on mode body) result after
unfolding guarded
guarded-Gives before after acquire on mode body result lax_before lax_after taken inside =
    gives_then (λ _. hold on mode >> (λ os. released (body os))) tt taken
      (gives_then (λ _ os. released (body os)) tt
        (record { apply = λ os given. (refl, lax_before os ((on, mode) ∷ os.held) given) })
        (record {
          apply = λ os given.
              let r = inside.apply os given in
              (r.0, lax_after (body os).1 (without_first (body os).1.held) r.1);
        }))
