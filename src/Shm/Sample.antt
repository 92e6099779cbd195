-- ===== src/Shm/Sample.antt =====
-- A small bash and a database in memory for the runs of l_builtin/src/cmd_shm.rs.
use l_builtin.Base.{
  ◌≡◌, refl, sym, ap, ◌∙◌, inl, inr, none, some, [], ◌∷◌, Bool, true, false, Bytes, ok,
  if◌then◌else◌,
}
use l_builtin.Base.Int.{ℤ, negsuc}
use l_builtin.Base.Assoc.{
  Assoc, Key, bytes_key, get, put, remove, get-put, get-remove, same-cases, same_refl,
}
use l_builtin.VarDb.{DatabaseRepr, int_key}
use l_builtin.VarDb.Backend.{DbPath}
use l_builtin.Shm.Tables.{BashTable, BashTableLaws, IsMap}
use l_builtin.Shm.State.{Bash, Store, Variable}
use l_builtin.Shm.Laws.{IsMap-put, BashLaws, StoreLaws}

module _ {K : Type 0} ⦃e : Key K⦄ where
  none_removed : (m : Assoc K Bytes) (k j : K) → get m j ≡ none → get (remove m k) j ≡ none
  none_removed m k j h = get-remove m k j ∙ go (e.same k j)
    where
      go : (b : Bool) → (if b then none else get m j) ≡ none
      go true = refl
      go false = h

  pub IsMap-remove : (m : Assoc K Bytes) (k : K) → IsMap m → IsMap (remove m k)
  unfolding remove
  IsMap-remove [] k h = tt
  IsMap-remove ((j, v) ∷ m) k (once, h) = elim (same-cases j k) [
    | inl (q, p) ↦ rw p (IsMap-remove m k h)
    | inr p ↦ rw p (none_removed m k j once, IsMap-remove m k h)
  ]

  -- An array as a list of entries, each key once
  abbrev pub small_table : BashTable K
  small_table = record {
    Table = (m : Assoc K Bytes) × IsMap m;
    fresh = ([], tt);
    entries = λ t. t.0;
    insert = λ t k v. (put t.0 k v, IsMap-put t.0 k v t.1);
    delete = λ t k. (remove t.0 k, IsMap-remove t.0 k t.1);
  }

  pub small_table-laws : BashTableLaws small_table
  small_table-laws = record {
    no_entries = refl;
    each_once = λ t. t.1;
    after_insert = λ t k j v. get-put t.0 k j v;
    after_delete = λ t k j. get-remove t.0 k j;
  }

abbrev pub Cells : Type 0
Cells = Assoc Bytes (Variable ((m : Assoc ℤ Bytes) × IsMap m) ((m : Assoc Bytes Bytes) × IsMap m))

-- The variables of bash, all without callbacks
abbrev pub small_bash : Bash Cells
small_bash = record {
  arrays = small_table;
  hashes = small_table;
  l_array_max_index = λ t. negsuc 0;
  cell_of = λ b name. get b name;
  set_cell = λ b name cell. put b name cell;
  callbacks = λ b name. none;
  l_init_dynamic_array_var = λ name b. some (put b name (Variable.indexed ([], tt)));
  l_init_dynamic_assoc_var = λ name b. some (put b name (Variable.associative ([], tt)));
  l_unbind_variable = λ name b. remove b name;
  l_prepare_indexed_array = λ name b. some (put b name (Variable.indexed ([], tt)));
  l_prepare_assoc_array = λ name b. some (put b name (Variable.associative ([], tt)));
}

prepared :
    (b after : Cells) (name : Bytes)
    (cell : Variable ((m : Assoc ℤ Bytes) × IsMap m) ((m : Assoc Bytes Bytes) × IsMap m))
    → some (put b name cell) ≡ some after
    → get after name ≡ some cell
prepared b after name cell h =
    let same : put b name cell ≡ after = some_same h in
    let own : get (put b name cell) name ≡ some cell =
      get-put b name name cell ∙ rw (same_refl name) refl in
    ap (λ m. get m name) (sym same) ∙ own
  where
    some_same : some (put b name cell) ≡ some after → put b name cell ≡ after
    some_same h = cc

pub small_bash-laws : BashLaws small_bash
small_bash-laws = record {
  arrays_hold = small_table-laws;
  hashes_hold = small_table-laws;
  cell_of_set = λ b name other cell. get-put b name other cell;
  cell_of_unbound = λ b name other. get-remove b name other;
  indexed_prepared = λ b after name h. prepared b after name (Variable.indexed ([], tt)) h;
  associative_prepared = λ b after name h. prepared b after name (Variable.associative ([], tt)) h;
}

-- One database, under each number
abbrev pub memory_store : Store DatabaseRepr
memory_store = record {
  open_db_loc = λ loc w. (ok 1, w);
  path = λ w db. DbPath.mem (b'D' ∷ []);
  read = λ db w. (ok w, w);
  with_write = λ db f w. (ok tt, f w);
  remove_file = λ p w. w;
  unlink_shm = λ name w. w;
}

abbrev pub memory_store_laws : StoreLaws memory_store
memory_store_laws = record {
  Holds = λ db repr w. w ≡ repr;
  CanStore = λ repr. Unit {0};
  reads = λ db repr. record { apply = λ w h. (ap ok h, h) };
  writes = λ db repr f can. record { apply = λ w h. (refl, ap f h) };
}
