-- ===== src/Handles/Ledger.antt =====
-- Whom the mappings of a process belong to: what the calls of `Calls` do to the mappings and the
-- descriptors, and the condition that l_builtin/src/handles.rs keeps with them.
use l_builtin.Base.{◌^◌, ℕ, ◌≡◌, ◌<◌, ◌+◌, List, Option, none, some, Bytes, Bool}
use l_builtin.Shell.{Calls}
use l_builtin.Handles.{Process, pointers}
use l_builtin.Handles.Entries.{at, occurrences, IsRegistry}

-- How often an address is mapped, and a descriptor open.
pub record Books (World : Type 0) : Type 0 where
  pub held : World → ℕ → ℕ
  pub open_files : World → ℕ → ℕ

abbrev pub gained : Option ℕ → ℕ → ℕ
gained none q = 0
gained (some p) q = at p q

module _ {World : Type 0} (books : Books World) where
  -- A call that neither maps nor opens anything.
  pub record Same (before after : World) : Type 0 where
    pub same_held : (q : ℕ) → books.held after q ≡ books.held before q
    pub same_open : (f : ℕ) → books.open_files after f ≡ books.open_files before f

  -- What the manual pages promise of the calls.
  pub record Accounting (calls : Calls World) : Type 0 where
    pub bind_same : (name value : Bytes) (w : World) → Same w (calls.bind_variable name value w).1
    pub shm_open_held :
        (name : Bytes) (create : Bool) (w : World) (q : ℕ)
        → books.held (calls.shm_open name create w).1 q ≡ books.held w q
    pub shm_open_open :
        (name : Bytes) (create : Bool) (w : World) (f : ℕ)
        → books.open_files (calls.shm_open name create w).1 f
          ≡ gained (calls.shm_open name create w).0 f + books.open_files w f
    pub ftruncate_same : (fd size : ℕ) (w : World) → Same w (calls.ftruncate fd size w).1
    pub mmap_held :
        (fd : Option ℕ) (size : ℕ) (w : World) (q : ℕ)
        → books.held (calls.mmap fd size w).1 q ≡ gained (calls.mmap fd size w).0 q + books.held w q
    pub mmap_open :
        (fd : Option ℕ) (size : ℕ) (w : World) (f : ℕ)
        → books.open_files (calls.mmap fd size w).1 f ≡ books.open_files w f
    pub munmap_held :
        (ptr size : ℕ) (w : World)
        → 0 < books.held w ptr
        → (q : ℕ) → books.held (calls.munmap ptr size w) q + at ptr q ≡ books.held w q
    pub munmap_open :
        (ptr size : ℕ) (w : World) (f : ℕ)
        → books.open_files (calls.munmap ptr size w) f ≡ books.open_files w f
    pub close_held : (fd : ℕ) (w : World) (q : ℕ) → books.held (calls.close fd w) q ≡ books.held w q
    pub close_open :
        (fd : ℕ) (w : World)
        → 0 < books.open_files w fd
        → (f : ℕ) → books.open_files (calls.close fd w) f + at fd f ≡ books.open_files w f
    pub unlink_same : (name : Bytes) (w : World) → Same w (calls.shm_unlink name w)

  -- What a world holds: so many mappings at each address, and so many of each descriptor.
  pub record Holds (mappings files : ℕ → ℕ) (w : World) : Type 0 where
    pub mapped_all : (q : ℕ) → books.held w q ≡ mappings q
    pub open_all : (f : ℕ) → books.open_files w f ≡ files f

  abbrev pub Gains : (ℕ → ℕ) → (ℕ → ℕ) → ℕ → World → Type 0
  Gains m f ptr w = Holds (λ q. at ptr q + m q) f w

  -- Each mapping belongs to one entry of the registry, or to someone else, `pending` among them; the
  -- descriptors are those of the others. `room` ids are left to give out.
  pub record Balanced (others files : ℕ → ℕ) (room : ℕ) (pending : List ℕ) (p : Process World)
      : Type 0 where
    pub distinct : IsRegistry p.registry
    pub has_room : p.registry.next + room < 2 ^ 64
    pub holding :
        Holds
          (λ q. occurrences q pending + occurrences q (pointers p.registry) + others q)
          files
          p.world
