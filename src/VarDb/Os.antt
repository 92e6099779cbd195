-- ===== src/VarDb/Os.antt =====
-- The operating system behind l_builtin/src/vardb.rs: files by inode, the names that lead to them,
-- anonymous memory, the locks that are held, and which of the coming calls fail.
use l_builtin.Base.{
  ◌>>◌, ℕ, ◌+◌, Option, none, some, List, [], ◌∷◌, Bytes, ok, err, Command, Outcome, replicate,
}
use l_builtin.Base.Assoc.{Assoc, id_key, bytes_key, get, put}
use l_builtin.VarDb.File.{File}

-- An answer of flock(2).
pub data LockAnswer : Type 0 where
  acquired : LockAnswer
  interrupted : LockAnswer
  refused : ℕ → LockAnswer

-- What a lock is on: a file, by `flock` or by an rwlock at its start, or a region of memory.
pub data Lockable : Type 0 where
  of_file of_region : ℕ → Lockable

pub data LockMode : Type 0 where
  shared exclusive : LockMode

-- `faults` are those of the coming calls, as in `File`, but for `flock`, whose answers are `flocks`;
-- no answer means that the call succeeds. `last_error` is `errno`, which some of the code reports.
pub record Os : Type 0 where
  pub inodes : Assoc ℕ Bytes
  pub files : Assoc Bytes ℕ
  pub objects : Assoc Bytes ℕ
  pub next_inode : ℕ
  pub regions : Assoc ℕ Bytes
  pub next_region : ℕ
  pub pid : ℕ
  pub held : List (Lockable × LockMode)
  pub last_error : ℕ
  pub faults : List (Option ℕ)
  pub flocks : List LockAnswer

abbrev pub content_of : Option Bytes → Bytes
content_of none = []
content_of (some bytes) = bytes

abbrev pub back_in : {A : Type 0} → ℕ → Os → Outcome A × File → Outcome A × Os
back_in inode os (result, file) =
    (result, record os { inodes = put os.inodes inode file.content; faults = file.faults })

-- A command on the file of a descriptor.
unfoldable pub on_file : {A : Type 0} → ℕ → Command File A → Command Os A
on_file inode command os =
    back_in inode os
      (command (record { content = content_of (get os.inodes inode); faults = os.faults }))

abbrev pub back_mapped : {A : Type 0} → ℕ → Os → Outcome A × Bytes → Outcome A × Os
back_mapped region os (result, mem) = (result, record os { regions = put os.regions region mem })

-- A command on the bytes of a mapping.
unfoldable pub on_region : {A : Type 0} → ℕ → Command Bytes A → Command Os A
on_region region command os = back_mapped region os (command (content_of (get os.regions region)))

abbrev pub answer : List (Option ℕ) → Os → Outcome (Unit {0}) × Os
answer [] os = (ok tt, os)
answer (none ∷ rest) os = (ok tt, record os { faults = rest })
answer (some n ∷ rest) os = (err n, record os { faults = rest })

-- A call that may fail with an error number and otherwise changes nothing here: `create_dir_all`,
-- `ensure_high_fd`, those of the pthread library.
unfoldable pub may_fail : Command Os (Unit {0})
may_fail os = answer os.faults os

abbrev pub open_inode : (Os → ℕ → Os) → Option ℕ → Command Os ℕ
open_inode named (some inode) os = (ok inode, os)
open_inode named none os = (
  ok os.next_inode,
  named (record os { inodes = put os.inodes os.next_inode []; next_inode = os.next_inode + 1 })
      os.next_inode,
)

-- `open` with O_CREAT and without O_TRUNC
unfoldable pub open_or_create : Bytes → Command Os ℕ
open_or_create path = do
  may_fail
  λ os. open_inode (λ s inode. record s { files = put s.files path inode }) (get os.files path) os

unfoldable pub shm_open : Bytes → Command Os ℕ
shm_open object = do
  may_fail
  λ os.
      open_inode (λ s inode. record s { objects = put s.objects object inode })
        (get os.objects object) os

-- A file without a name.
unfoldable pub memfd_create : Command Os ℕ
memfd_create = do may_fail; open_inode (λ s inode. s) none

-- A fresh mapping of that many NULs.
unfoldable pub mmap_anonymous : ℕ → Command Os ℕ
mmap_anonymous size = do
  may_fail
  λ os. (
    ok os.next_region,
    record os {
      regions = put os.regions os.next_region (replicate size 0);
      next_region = os.next_region + 1;
    },
  )
