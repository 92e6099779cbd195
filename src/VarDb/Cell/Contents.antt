-- ===== src/VarDb/Cell/Contents.antt =====
-- l_builtin/src/vardb.rs: what a read sees in a file, and in the file that a write leaves, where no
-- call fails.
use mathlib.Core.Path.{subst}
use l_builtin.Base.{
  err, none, ℕ, ◌+◌, ◌-◌, ◌≡◌, refl, Option, none, some, [], true, Bytes, ok, length, if◌then◌else◌,
  leb, ltb, take, drop, Bool-cases, inl, inr, Option-cases, arith,
}
use l_builtin.VarDb.{DatabaseRepr, Rkyv, RkyvLaws}
use l_builtin.VarDb.File.{
  input_output_error, File, resized, write_all_at, set_len, sync_all, read_exact_at, len,
}
use l_builtin.VarDb.Blob.{read_blob_at, read_blob_into, write_blob_at, deserialized}
use l_builtin.VarDb.Header.{HasMagic, HasMagic-resized, HasMagic-written}
use l_builtin.VarDb.Stored.{reads, final, reads}

-- A file of that content, with no fault ahead
abbrev pub calm_file : Bytes → File
calm_file content = record { content = content; faults = [] }

pub both : {A B : Type 0} (p : A × B) {a : A} {b : B} → p.0 ≡ a → p.1 ≡ b → p ≡ (a, b)
both p h k = cc

module _ (rkyv : Rkyv) where
  abbrev pub Shows : ℕ → Bytes → DatabaseRepr → Type 0
  Shows offset content repr =
      read_blob_into rkyv offset (calm_file content) ≡ (ok repr, calm_file content)

  deserialized-keeps :
      (bytes : Option Bytes) (file : File) → (deserialized rkyv bytes file).1 ≡ file
  deserialized-keeps none file = refl
  deserialized-keeps (some bytes) file = elim (Option-cases (rkyv.from_bytes bytes)) [
    | inl e ↦ rw e refl
    | inr (repr, e) ↦ rw e refl
  ]

  read_blob_into-keeps :
      (offset : ℕ) (content : Bytes)
      → (read_blob_into rkyv offset (calm_file content)).1 ≡ calm_file content
  unfolding read_blob_into read_blob_at read_exact_at len
  read_blob_into-keeps offset content = elim (Bool-cases (leb (length content) offset)) [
    | inl e ↦ rw e refl
    | inr e ↦
        let buf = take (length content - offset) (drop offset content) in
        let inside : leb (offset + (length content - offset)) (length content) ≡ true =
          ground arith in
        rw (e, inside)
          (deserialized-keeps (if ltb (length buf) 8 then none else some buf) (calm_file content))
  ]

  pub write_blob_at-calm :
      (offset : ℕ) (content bytes : Bytes) (repr : DatabaseRepr)
      → rkyv.to_bytes repr ≡ some bytes
      → write_blob_at rkyv repr offset (calm_file content)
        ≡ (ok tt, calm_file (final content bytes offset))
  unfolding write_blob_at write_all_at set_len sync_all
  write_blob_at-calm offset content bytes repr wrote = rw wrote refl

  pub unserialized :
      (offset : ℕ) (content : Bytes) (repr : DatabaseRepr)
      → rkyv.to_bytes repr ≡ none
      → write_blob_at rkyv repr offset (calm_file content)
        ≡ (err input_output_error, calm_file content)
  unfolding write_blob_at
  unserialized offset content repr wrote = rw wrote refl

  pub Shows-written :
      (laws : RkyvLaws rkyv) (offset : ℕ) (content bytes : Bytes) (repr : DatabaseRepr)
      → rkyv.to_bytes repr ≡ some bytes
      → Shows offset (final content bytes offset) repr
  Shows-written laws offset content bytes repr wrote =
      let r = reads rkyv laws repr bytes offset content wrote in
      let e = write_blob_at-calm offset content bytes repr wrote in
      let seen : (read_blob_into rkyv offset (calm_file (final content bytes offset))).0 ≡ ok repr =
        subst (λ w. (read_blob_into rkyv offset w.1).0 ≡ ok repr) e r.1 in
      both (read_blob_into rkyv offset (calm_file (final content bytes offset))) seen
        (read_blob_into-keeps offset (final content bytes offset))

pub HasMagic-final : (content bytes : Bytes) → HasMagic content → HasMagic (final content bytes 32)
HasMagic-final content bytes h =
    HasMagic-written (resized content (32 + length bytes)) bytes 32 (omega arith)
      (HasMagic-resized content (32 + length bytes) (omega arith) h)
