-- ===== src/Handles.antt =====
-- l_builtin/src/handles.rs: the registry that a synchronization primitive keeps of its handles, and
-- the process that holds it.
mod Tests
pub mod Mapping
pub mod Shapes
pub mod Quiet
pub mod Keeping
pub mod Balance
pub mod Ledger
pub mod Entries
pub mod Commands
pub mod Retired
use l_builtin.Base.{◌^◌, ◌%◌, ◌+◌, ℕ, ◌≡◌, refl, List, [], ◌∷◌, Option, none, some, Bytes, map}
use l_builtin.Base.Assoc.{id_key, Assoc, get, put, remove}

-- One entry: the mapped base pointer and, for a named object, its name.
pub record HandleEntry : Type 0 where
  pub ptr : ℕ
  pub name : Option Bytes

-- `RegistryInner`
pub record Registry : Type 0 where
  pub entries : Assoc ℕ HandleEntry
  pub next : ℕ

abbrev pub new_registry : Registry
new_registry = record { entries = []; next = 1 }

-- The id is a `u64`, whose sum wraps.
abbrev pub store : ℕ → Option Bytes → Registry → ℕ × Registry
store ptr name inner = (
  inner.next,
  record {
    entries = put inner.entries inner.next (record { ptr = ptr; name = name });
    next = (inner.next + 1) % 2 ^ 64;
  },
)

abbrev pub pointer : Option HandleEntry → Option ℕ
pointer none = none
pointer (some e) = some e.ptr

abbrev pub lookup : ℕ → Registry → Option ℕ
lookup id inner = pointer (get inner.entries id)

abbrev pub take : ℕ → Registry → Option HandleEntry × Registry
take id inner =
    (get inner.entries id, record { entries = remove inner.entries id; next = inner.next })

-- The pointers in the order of an iteration, for `for_each`.
abbrev pub pointers : Registry → List ℕ
pointers inner = map (λ entry. entry.1.ptr) inner.entries

-- A process: its registry and everything outside the program.
pub record Process (World : Type 0) : Type 0 where
  pub registry : Registry
  pub world : World
