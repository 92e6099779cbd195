-- ===== src/VarDb/Stored.antt =====
-- l_builtin/src/vardb.rs: a database written to a file reads back.
use mathlib.Core.Path.{subst}
use l_builtin.Base.{
  ℕ, zero, suc, ◌+◌, ◌-◌, ◌≡◌, refl, ap, sym, some, [], ◌∷◌, ◌++◌, true, false, Bytes, take, drop,
  replicate, length, ok, leb, ltb, arith, length-append, length-take, length-drop, length-replicate,
  take-append_length,
}
use l_builtin.VarDb.{DatabaseRepr, Rkyv, RkyvLaws}
use l_builtin.VarDb.File.{
  File, written, resized, write_all_at, set_len, sync_all, read_exact_at, len,
}
use l_builtin.VarDb.Blob.{read_blob_at, read_blob_into, write_blob_at}

middle :
    (xs ys zs : Bytes) (n : ℕ) → length xs ≡ n → take (length ys) (drop n (xs ++ ys ++ zs)) ≡ ys
middle [] ys zs zero h = take-append_length ys zs
middle [] ys zs (suc n) h = absurd (omega arith)
middle (x ∷ xs) ys zs zero h = absurd (omega arith)
middle (x ∷ xs) ys zs (suc n) h = middle xs ys zs n (omega arith)

module _ (content bytes : Bytes) (offset : ℕ) where
  abbrev pub final : Bytes
  final = written (resized content (offset + length bytes)) offset bytes

  length-resized : length (resized content (offset + length bytes)) ≡ offset + length bytes
  unfolding resized
  length-resized =
      let n = offset + length bytes in
      let pad = length-replicate {A = ℕ} n 0 in
      let padded = length-append content (replicate n 0) in
      let cut = length-take n (content ++ replicate n 0) in omega arith

  length-front :
      length (take offset (resized content (offset + length bytes) ++ replicate offset 0)) ≡ offset
  length-front =
      let c = resized content (offset + length bytes) in
      let pad = length-replicate {A = ℕ} offset 0 in
      let padded = length-append c (replicate offset 0) in
      let cut = length-take offset (c ++ replicate offset 0) in omega arith

  length-final : length final ≡ offset + length bytes
  unfolding written
  length-final =
      let c = resized content (offset + length bytes) in
      let size = length-resized in
      let rest = drop (length bytes) (drop offset c) in
      let whole = length-append (take offset (c ++ replicate offset 0) ++ bytes) rest in
      let most = length-append (take offset (c ++ replicate offset 0)) bytes in
      let front = length-front in
      let tail = length-drop (length bytes) (drop offset c) in
      let back = length-drop offset c in omega arith

  drop-final : take (length bytes) (drop offset final) ≡ bytes
  unfolding written
  drop-final =
      let c = resized content (offset + length bytes) in
      middle (take offset (c ++ replicate offset 0)) bytes (drop (length bytes) (drop offset c))
        offset length-front

module _ (rkyv : Rkyv) (laws : RkyvLaws rkyv) where
  abbrev Reads : DatabaseRepr → ℕ → File → Type 0
  Reads repr offset file =
      let r = write_blob_at rkyv repr offset file in
      (r.0 ≡ ok tt) × ((read_blob_into rkyv offset r.1).0 ≡ ok repr)

  pub reads :
      (repr : DatabaseRepr) (bytes : Bytes) (offset : ℕ) (content : Bytes)
      → rkyv.to_bytes repr ≡ some bytes
      → Reads repr offset (record { content = content; faults = [] })
  unfolding write_blob_at read_blob_into read_blob_at write_all_at set_len sync_all read_exact_at
      len
  reads repr bytes offset content wrote =
      let root = laws.has_root repr bytes wrote in
      let h1 = length-final content bytes offset in
      let h2 : leb (offset + length bytes) offset ≡ false = ground arith in
      let h3 : offset + length bytes - offset ≡ length bytes = omega arith in
      let h4 : leb (offset + length bytes) (offset + length bytes) ≡ true = ground arith in
      let h5 = drop-final content bytes offset in
      let h6 : ltb (length bytes) 8 ≡ false = ground arith in
      let h7 = laws.reads_back repr bytes wrote in
      rw wrote (refl, rw (h1, h2, h3, h1, h4, h5, h6, h7) refl)

  -- Where no call fails, a database written at an offset is what the next read there returns, whatever
  -- the file held before; rkyv reads its own bytes back.
  pub write_blob_at-read_blob_into :
      (repr : DatabaseRepr) (bytes : Bytes) (offset : ℕ) (file : File)
      → rkyv.to_bytes repr ≡ some bytes
      → file.faults ≡ []
      → let r = write_blob_at rkyv repr offset file in
        (r.0 ≡ ok tt) × ((read_blob_into rkyv offset r.1).0 ≡ ok repr)
  write_blob_at-read_blob_into repr bytes offset file wrote quiet =
      subst (Reads repr offset)
        (ap (λ f. record { content = file.content; faults = f }) (sym quiet))
        (reads repr bytes offset file.content wrote)
