-- ===== src/Handles/Shapes.antt =====
-- The handlers that cmd_barrier.rs and cmd_mutex.rs share in form: create, open, close, destroy and
-- the use of a handle. Each keeps every mapping with one entry.
use l_builtin.Base.{
  ◌>>=◌, ◌>>◌, ℕ, ◌+◌, [], ◌∷◌, Option, none, some, true, false, Bytes, Command, ok, err, Outcome,
}
use l_builtin.Base.Hoare.{Meets, Ends, sequence}
use l_builtin.Shell.{Calls}
use l_builtin.Shell.Steps.{rescue, effect, undone}
use l_builtin.Shell.Variable.{BashVar, set_int}
use l_builtin.Handles.{Process}
use l_builtin.Handles.Ledger.{Books, Same, Accounting, Balanced, Holds, Gains}
use l_builtin.Handles.Mapping.{map_for, map_named, unmap, unlink_named}
use l_builtin.Handles.Commands.{call, beside, store_handle, take_handle, lookup_handle}
use l_builtin.Handles.Balance.{map_named-meets, map_anonymous-meets}
use l_builtin.Handles.Keeping.{
  map-meets, unchanged-meets, store-meets, take-meets, lookup-meets, unmap-meets, fewer, moved,
}
use l_builtin.Handles.Quiet.{Quiet, Quiet-set_int, Quiet-effect, Quiet-unlink_named}

module _ {World : Type 0} (calls : Calls World) (books : Books World)
    (laws : Accounting books calls) (o f : ℕ → ℕ) (room : ℕ) where
  -- A handler that may give out one id leaves the mappings and the registry in step.
  abbrev pub Keeps : {A : Type 0} → Command (Process World) A → Type 0
  Keeps command =
      Meets (Balanced books o f (room + 1) []) command (λ _. Balanced books o f room [])
        (Balanced books o f room [])

  map_for-meets :
      (name : Option Bytes) (size : ℕ) (m g : ℕ → ℕ)
      → Meets (Holds books m g) (map_for calls name size) (Gains books m g) (Holds books m g)
  map_for-meets none size m g = map_anonymous-meets calls books laws size m g
  map_for-meets (some name) size m g = map_named-meets calls books laws name size true m g

  pub weaker :
      {A : Type 0} (command : Command (Process World) A)
      → Meets
          (Balanced books o f room [])
          command
          (λ _. Balanced books o f room [])
          (Balanced books o f room [])
      → Keeps command
  weaker command meets = record {
    apply = λ p b. meets.apply p (fewer calls books laws o f room [] p b);
  }

  -- What fails before the entry is stored takes the mapping back.
  rescue-meets :
      (command : Command World (Unit {0})) (ptr size : ℕ)
      → Quiet books command
      → Meets
          (Balanced books o f (room + 1) (ptr ∷ []))
          (call (rescue command (calls.munmap ptr size)))
          (λ _. Balanced books o f (room + 1) (ptr ∷ []))
          (Balanced books o f room [])
  unfolding call rescue unmap
  rescue-meets command ptr size quiet = record {
    apply = λ p b. go p b (command p.world) (quiet p.world);
  }
    where
      go :
          (p : Process World)
          → Balanced books o f (room + 1) (ptr ∷ []) p
          → (r : Outcome (Unit {0}) × World) → Same books p.world r.1
          → Ends
              (λ _. Balanced books o f (room + 1) (ptr ∷ []))
              (Balanced books o f room [])
              (beside p.registry (undone (calls.munmap ptr size) r))
      go p b (ok u, w) s = moved calls books laws o f (room + 1) (ptr ∷ []) p w b s
      go p b (err code, w) s =
          let q : Process World = record { registry = p.registry; world = w } in
          let kept = moved calls books laws o f (room + 1) (ptr ∷ []) p w b s in
          (unmap-meets calls books laws ptr size o f room).apply q
            (fewer calls books laws o f room (ptr ∷ []) q kept)

  pub register-Keeps :
      (ptr : ℕ) (name : Option Bytes) (var : BashVar)
      → Meets
          (Balanced books o f (room + 1) (ptr ∷ []))
          (store_handle ptr name >>= λ id. call (set_int calls var id))
          (λ _. Balanced books o f room [])
          (Balanced books o f room [])
  register-Keeps ptr name var = sequence (store-meets calls books laws ptr name o f room) (λ id.
      unchanged-meets calls books laws (set_int calls var id) o f room []
        (Quiet-set_int books calls laws var id))

  pub create-Keeps :
      (init : ℕ → Command World (Unit {0})) (name : Option Bytes) (size : ℕ) (var : BashVar)
      → ((ptr : ℕ) → Quiet books (init ptr))
      → Keeps (do
        ptr ← call (map_for calls name size)
        call (rescue (init ptr) (calls.munmap ptr size))
        id ← store_handle ptr name
        call (set_int calls var id))
  create-Keeps init name size var quiet =
      sequence
        (map-meets calls books laws (map_for calls name size) o f room
          (λ m. map_for-meets name size m f))
        (λ ptr.
          sequence {rest = λ _. store_handle ptr name >>= λ id. call (set_int calls var id)}
            (rescue-meets (init ptr) ptr size (quiet ptr)) (λ _. register-Keeps ptr name var))

  pub open-Keeps :
      (name : Bytes) (size : ℕ) (var : BashVar)
      → Keeps (do
        ptr ← call (map_named calls name size false)
        id ← store_handle ptr (some name)
        call (set_int calls var id))
  open-Keeps name size var =
      sequence
        (map-meets calls books laws (map_named calls name size false) o f room
          (λ m. map_named-meets calls books laws name size false m f))
        (λ ptr. register-Keeps ptr (some name) var)

  pub use-Keeps :
      {A : Type 0} (command : ℕ → Command World A) (id : ℕ)
      → ((ptr : ℕ) → Quiet books (command ptr))
      → Keeps (lookup_handle id >>= λ ptr. call (command ptr))
  use-Keeps command id quiet = weaker (lookup_handle id >>= λ ptr. call (command ptr)) (
      sequence (lookup-meets calls books laws id o f room)
        (λ ptr. unchanged-meets calls books laws (command ptr) o f room [] (quiet ptr)))

  pub close-Keeps :
      (id size : ℕ) → Keeps (take_handle id >>= λ entry. call (unmap calls entry.ptr size))
  close-Keeps id size = weaker (take_handle id >>= λ entry. call (unmap calls entry.ptr size)) (
      sequence (take-meets calls books laws id o f room)
        (λ entry. unmap-meets calls books laws entry.ptr size o f room))

  pub destroy-Keeps :
      (id size : ℕ)
      → Keeps (do
        entry ← take_handle id
        call (unmap calls entry.ptr size)
        call (effect (unlink_named calls entry.name)))
  destroy-Keeps id size =
      weaker
        (take_handle id >>= λ entry.
          (call (unmap calls entry.ptr size) >> call (effect (unlink_named calls entry.name))))
        (sequence (take-meets calls books laws id o f room) (λ entry.
          sequence {rest = λ _. call (effect (unlink_named calls entry.name))}
            (unmap-meets calls books laws entry.ptr size o f room)
            (λ _.
              unchanged-meets calls books laws (effect (unlink_named calls entry.name)) o f room []
                (Quiet-effect books (unlink_named calls entry.name)
                  (Quiet-unlink_named books calls laws entry.name)))))
