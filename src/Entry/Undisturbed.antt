-- ===== src/Entry/Undisturbed.antt =====
-- l_builtin/src/entrypoint.rs and l_builtin/src/subcmd.rs: what the guards give back, on every branch.
use l_builtin.Base.{
  ==_iff, ℕ, ◌≡◌, ◌∙◌, refl, Option, none, some, List, [], ◌∷◌, true, Bytes, if◌then◌else◌, ◌==◌,
}
use l_builtin.Entry.{
  Docs, dispatch, run_found, applied, run_it, restored_docs, Terminal, Capture, Handler, enter_docs,
  entrypoint,
}

module _ {World : Type 0} where
  -- What holds of descriptor 1
  abbrev Out : (ℕ → Type 0) → Terminal World → Type 0
  Out P t = P t.stdout

  module _ (calls : Capture World) (n : ℕ) where
    abbrev IsSaved : ℕ → ℕ → Type 0
    IsSaved saved m = (saved ≡ n) × (m ≡ n)

    abbrev Before : Terminal World → Type 0
    Before = Out (λ m. m ≡ n)

  restored_docs-current :
      {A : Type 0} (saved : Docs) (b : ℕ) (r : A × Terminal World)
      → Terminal.docs (restored_docs b saved r).1 b ≡ saved
  restored_docs-current saved b (a, t) =
      let same : (b == b) ≡ true = (==_iff b b).1 refl in rw same refl

  dispatch-docs :
      (calls : Capture World) (table : Bytes → Option (List Bytes → Handler World))
      (var : Option Bytes) (words : List Bytes) (t : Terminal World)
      → Terminal.docs (dispatch calls table var words t).1 t.current_builtin
        ≡ t.docs t.current_builtin
  dispatch-docs calls table var [] t = refl
  dispatch-docs calls table var (first ∷ rest) t = found (table first)
    where
      found :
          (o : Option (List Bytes → Handler World))
          → Terminal.docs (run_found calls var (applied rest o) t).1 t.current_builtin
            ≡ t.docs t.current_builtin
      found none = refl
      found (some f) =
          restored_docs-current (t.docs t.current_builtin) t.current_builtin
            (run_it calls var (f rest) t)

  -- However the command ends, the documentation of the builtin that ran when it began is that of the
  -- command itself.
  pub entrypoint-docs :
      (calls : Capture World) (table : Bytes → Option (List Bytes → Handler World)) (docs : Docs)
      (var : Option Bytes) (words : List Bytes) (t : Terminal World)
      → Terminal.docs (entrypoint calls table docs var words t).1 t.current_builtin ≡ docs
  unfolding entrypoint enter_docs
  entrypoint-docs calls table docs var words t =
      let entered : Terminal World = record t {
        docs = λ b. if b == t.current_builtin then docs else t.docs b;
      } in
      let same : (t.current_builtin == t.current_builtin) ≡ true =
        (==_iff t.current_builtin t.current_builtin).1 refl in
      dispatch-docs calls table var words entered ∙ rw same refl
