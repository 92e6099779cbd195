-- ===== src/Handles/Tests.antt =====
-- Runs of the handle registry (l_builtin/src/handles.rs).
use l_builtin.Base.{◌≡◌, refl, none, some, arith, [], ◌∷◌}
use l_builtin.Handles.{Registry, new_registry, store, take, lookup}
use l_builtin.Handles.Retired.{storing, taking, after, retired_handle}

abbrev one_barrier : Registry
one_barrier = (store 4096 (some (b'g' ∷ b'a' ∷ b't' ∷ b'e' ∷ [])) new_registry).1

retired_handle_example :
    lookup 1 (after (take 1 one_barrier).1 (storing 8192 none ∷ taking 2 ∷ storing 4096 none ∷ []))
    ≡ none
retired_handle_example =
    retired_handle 1 one_barrier (storing 8192 none ∷ taking 2 ∷ storing 4096 none ∷ [])
      (omega arith) (omega arith)

second_id : (store 8192 none one_barrier).0 ≡ 2
second_id = refl
