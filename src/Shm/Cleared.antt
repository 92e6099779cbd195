-- ===== src/Shm/Cleared.antt =====
-- l_builtin/src/cmd_shm.rs: which bindings `rm` takes away.
use l_builtin.Base.{
  ℕ, ◌≡◌, refl, sym, ap, ◌∙◌, inl, inr, Option, none, some, List, [], ◌∷◌, Bool, true, false, ◌||◌,
  Bytes, if◌then◌else◌, Bool-cases,
}
use l_builtin.Base.Assoc.{Assoc, bytes_key, bytes_eq, get, get-remove, same-cases}
use l_builtin.Shm.Place.{db_key}
use l_builtin.Shm.Tables.{IsMap}
use l_builtin.Shm.State.{Bash, Store, Shell}
use l_builtin.Shm.Withdrawal.{unbind_name, bound_to, unbind_all, unbind_registry_vars}
use l_builtin.Shm.Laws.{BashLaws}

abbrev one_of : List Bytes → Bytes → Bool
one_of [] name = false
one_of (n ∷ names) name = bytes_eq n name || one_of names name

abbrev unless_gone : {A : Type 0} → Bool → Option A → Option A
unless_gone true found = none
unless_gone false found = found

gone_twice :
    {A : Type 0} (first rest : Bool) (found : Option A)
    → unless_gone rest (if first then none else found) ≡ unless_gone (first || rest) found
gone_twice true true found = refl
gone_twice true false found = refl
gone_twice false rest found = refl

as_test :
    {A : Type 0} (gone : Bool) (found : Option A)
    → unless_gone gone found ≡ (if gone then none else found)
as_test true found = refl
as_test false found = refl

module _ {B World : Type 0} (bash : Bash B) (store : Store World)
    (to_string_lossy : Bytes → Bytes) where
  get-unbind_all :
      (names : List Bytes) (s : Shell B World) (name : Bytes)
      → get (unbind_all bash store to_string_lossy names s).registry name
        ≡ unless_gone (one_of names name) (get s.registry name)
  unfolding unbind_name
  get-unbind_all [] s name = refl
  get-unbind_all (n ∷ names) s name =
      get-unbind_all names (unbind_name bash store n s) name
      ∙ ap (unless_gone (one_of names name)) (get-remove s.registry n name)
      ∙ gone_twice (bytes_eq n name) (one_of names name) (get s.registry name)

  cell_of-unbind_all :
      (laws : BashLaws bash) (names : List Bytes) (s : Shell B World) (name : Bytes)
      → bash.cell_of (unbind_all bash store to_string_lossy names s).bash name
        ≡ unless_gone (one_of names name) (bash.cell_of s.bash name)
  unfolding unbind_name
  cell_of-unbind_all laws [] s name = refl
  cell_of-unbind_all laws (n ∷ names) s name =
      cell_of-unbind_all laws names (unbind_name bash store n s) name
      ∙ ap (unless_gone (one_of names name)) (laws.cell_of_unbound s.bash n name)
      ∙ gone_twice (bytes_eq n name) (one_of names name) (bash.cell_of s.bash name)

  -- The variable is bound to a database of that key.
  abbrev pub has_key : Bytes → World → Option ℕ → Bool
  has_key key w none = false
  has_key key w (some db) = bytes_eq (db_key to_string_lossy (store.path w db)) key

  one_of-bound_to :
      (key : Bytes) (w : World) (registry : Assoc Bytes ℕ) (name : Bytes)
      → IsMap registry
      → one_of (bound_to bash store to_string_lossy key w registry) name
        ≡ has_key key w (get registry name)
  unfolding bound_to get
  one_of-bound_to key w [] name h = refl
  one_of-bound_to key w ((n, db) ∷ rest) name (once, h) =
      let others = one_of-bound_to key w rest name h in
      elim (same-cases n name) [
        | inl (q, p) ↦
            let fresh : get rest name ≡ none = ap (get rest) (sym q) ∙ once in
            elim (Bool-cases (bytes_eq (db_key to_string_lossy (store.path w db)) key)) [
              | inl k ↦ rw (p, k, p) refl
              | inr k ↦ rw (p, k, others, fresh) refl
            ]
        | inr p ↦ elim (Bool-cases (bytes_eq (db_key to_string_lossy (store.path w db)) key)) [
          | inl k ↦ rw (k, p) others
          | inr k ↦ rw (k, p) others
        ]
      ]

  -- `rm` unbinds the variables that are bound to a database of that key, and no others: those are
  -- neither registered nor in bash any more, and any other variable is as it was. The registry has
  -- each name once.
  pub unbind_registry_vars-get :
      (laws : BashLaws bash) (key : Bytes) (s : Shell B World) (name : Bytes)
      → IsMap s.registry
      → let gone = has_key key s.world (get s.registry name) in
        let after = unbind_registry_vars bash store to_string_lossy key s in
        (get after.registry name ≡ (if gone then none else get s.registry name))
        × (bash.cell_of after.bash name ≡ (if gone then none else bash.cell_of s.bash name))
  unfolding unbind_registry_vars
  unbind_registry_vars-get laws key s name once =
      let names = bound_to bash store to_string_lossy key s.world s.registry in
      let listed = one_of-bound_to key s.world s.registry name once in
      (
        get-unbind_all names s name
            ∙ rw listed (as_test (has_key key s.world (get s.registry name)) (get s.registry name)),
        cell_of-unbind_all laws names s name
            ∙ rw listed
                (as_test (has_key key s.world (get s.registry name)) (bash.cell_of s.bash name)),
      )
