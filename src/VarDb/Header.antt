-- ===== src/VarDb/Header.antt =====
-- l_builtin/src/vardb.rs: once a file was opened its header is MAGIC, and stays so whatever is written
-- and whichever calls fail.
use mathlib.Core.Path.{subst}
use l_builtin.Base.{Bool-cases, inl, inr}
use l_builtin.Base.Assoc.{bytes_eq, bytes_eq_iff}
use l_builtin.Base.{leb}
use l_builtin.Base.Assoc.{bytes_eq, bytes_eq_iff}
use l_builtin.Base.Hoare.{sequence, either_way}
use l_builtin.VarDb.{DatabaseRepr, blob_offset_flock, Rkyv}
use l_builtin.VarDb.File.{write_all_at, set_len, sync_all, read_exact_at}
use l_builtin.VarDb.Blob.{
  MagicStatus, status_of, classify_magic, init_magic_and_truncate, checked, init_or_check_magic,
  store_bytes, write_blob_at,
}
use l_builtin.Base.{
  ◌>>◌, ℕ, zero, suc, ◌+◌, ◌≡◌, ◌≤◌, ◌∙◌, refl, ap, Option, none, some, List, [], ◌∷◌, ◌++◌, Bool,
  true, false, Bytes, take, drop, replicate, length, ok, err, Command, Outcome, if◌then◌else◌, leb,
  arith, length-append, length-take, length-replicate, Bool-cases, inl, inr,
}
use l_builtin.Base.Assoc.{bytes_eq, bytes_eq_iff}
use l_builtin.Base.Hoare.{Meets, Ends, sequence, either_way}
use l_builtin.VarDb.{DatabaseRepr, magic, magic_size, blob_offset_flock, Rkyv}
use l_builtin.VarDb.File.{
  File, tried, faulty, written, resized, write_all_at, set_len, sync_all, read_exact_at,
}
use l_builtin.VarDb.Blob.{
  MagicStatus, status_of, classify_magic, init_magic_and_truncate, checked, init_or_check_magic,
  store_bytes, write_blob_at,
}

abbrev pub HasMagic : Bytes → Type 0
HasMagic content = take magic_size content ≡ magic

abbrev pub IsOpened : File → Type 0
IsOpened file = HasMagic file.content

take-append : (k : ℕ) (xs ys : Bytes) → k ≤ length xs → take k (xs ++ ys) ≡ take k xs
take-append zero xs ys h = refl
take-append (suc k) [] ys h = absurd (omega arith)
take-append (suc k) (x ∷ xs) ys h = ap (λ t. x ∷ t) (take-append k xs ys (omega arith))

take-take : (k n : ℕ) (xs : Bytes) → k ≤ n → take k (take n xs) ≡ take k xs
take-take zero n xs h = refl
take-take (suc k) zero xs h = absurd (omega arith)
take-take (suc k) (suc n) [] h = refl
take-take (suc k) (suc n) (x ∷ xs) h = ap (λ t. x ∷ t) (take-take k n xs (omega arith))

pub HasMagic-length : (content : Bytes) → HasMagic content → 32 ≤ length content
HasMagic-length content h = let n = ap length h in let m = length-take 32 content in omega arith

pub HasMagic-resized :
    (content : Bytes) (n : ℕ) → 32 ≤ n → HasMagic content → HasMagic (resized content n)
unfolding resized
HasMagic-resized content n far h =
    take-take 32 n (content ++ replicate n 0) far
    ∙ take-append 32 content (replicate n 0) (HasMagic-length content h)
    ∙ h

pub HasMagic-written :
    (content bytes : Bytes) (n : ℕ) → 32 ≤ n → HasMagic content → HasMagic (written content n bytes)
unfolding written resized
HasMagic-written content bytes n far h =
    let front = take n (content ++ replicate n 0) in
    let tail = drop (length bytes) (drop n content) in
    let big = HasMagic-length content h in
    let pad = length-replicate {A = ℕ} n 0 in
    let padded = length-append content (replicate n 0) in
    let long = length-take n (content ++ replicate n 0) in
    let more = length-append front bytes in
    take-append 32 (front ++ bytes) tail (omega arith)
    ∙ take-append 32 front bytes (omega arith)
    ∙ HasMagic-resized content n far h

HasMagic-stamped : (content : Bytes) → HasMagic (written content 0 magic)
unfolding written
HasMagic-stamped content = refl

tried-Meets :
    {A : Type 0} (before after failed : Bytes → Type 0) (value : A) (success : Bytes → Bytes)
    (failure : ℕ → Bytes → Bytes)
    → ((c : Bytes) → before c → after (success c))
    → ((n : ℕ) (c : Bytes) → before c → failed (failure n c))
    → Meets
        (λ file. before file.content)
        (faulty value success failure)
        (λ _ file. after file.content)
        (λ file. failed file.content)
tried-Meets {A} before after failed value success failure s f = record {
  apply = λ file h. go file.content file.faults h;
}
  where
    go :
        (c : Bytes) (faults : List (Option ℕ))
        → before c
        → Ends {Value = A}
            (λ _ file. after file.content)
            (λ file. failed file.content)
            (tried value success failure c faults)
    go c [] h = s c h
    go c (none ∷ rest) h = s c h
    go c (some n ∷ rest) h = f n c h

-- Nothing is asked of a file whose opening failed.
abbrev Whatever : File → Type 0
Whatever file = Unit {0}

set_len-Meets : (n : ℕ) → 32 ≤ n → Meets IsOpened (set_len n) (λ _. IsOpened) IsOpened
unfolding set_len
set_len-Meets n far =
    tried-Meets HasMagic HasMagic HasMagic tt (λ content. resized content n) (λ _ content. content)
      (λ c h. HasMagic-resized c n far h) (λ _ c h. h)

write-Meets :
    (bytes : Bytes) (n : ℕ)
    → 32 ≤ n
    → Meets IsOpened (write_all_at bytes n) (λ _. IsOpened) IsOpened
unfolding write_all_at
write-Meets bytes n far =
    tried-Meets HasMagic HasMagic HasMagic tt (λ content. written content n bytes)
      (λ m content. written content n (take m bytes)) (λ c h. HasMagic-written c bytes n far h)
      (λ m c h. HasMagic-written c (take m bytes) n far h)

sync-Meets : Meets IsOpened sync_all (λ _. IsOpened) IsOpened
unfolding sync_all
sync-Meets =
    tried-Meets HasMagic HasMagic HasMagic tt (λ content. content) (λ _ content. content) (λ c h. h)
      (λ _ c h. h)

lax :
    {A : Type 0} (command : Command File A) (after : A → File → Type 0)
    → Meets IsOpened command after IsOpened
    → Meets IsOpened command after Whatever
lax {A} command after m = record { apply = λ file h. go (command file) (m.apply file h) }
  where
    go : (r : Outcome A × File) → Ends after IsOpened r → Ends after Whatever r
    go (ok a, f) h = h
    go (err c, f) h = tt

stamp-Meets : Meets Whatever init_magic_and_truncate (λ _. IsOpened) Whatever
unfolding init_magic_and_truncate write_all_at
stamp-Meets =
    sequence {rest = λ _. set_len blob_offset_flock >> sync_all}
      (tried-Meets (λ _. Unit {0}) HasMagic (λ _. Unit {0}) tt (λ content. written content 0 magic)
        (λ m content. written content 0 (take m magic)) (λ c h. HasMagic-stamped c) (λ m c h. tt))
      (λ _.
        sequence {rest = λ _. sync_all}
          (lax (set_len 32) (λ _. IsOpened) (set_len-Meets 32 (omega arith)))
          (λ _. lax sync_all (λ _. IsOpened) sync-Meets))

abbrev Classified : MagicStatus → File → Type 0
Classified MagicStatus.matches file = IsOpened file
Classified MagicStatus.fresh file = Unit {0}
Classified MagicStatus.mismatch file = Unit {0}

classify-Meets : Meets Whatever classify_magic Classified Whatever
unfolding classify_magic read_exact_at
classify-Meets = record { apply = λ file h. go file.content file.faults }
  where
    seen :
        (c : Bytes) (faults : List (Option ℕ)) (fits : Bool)
        → Classified
            (status_of (if fits then some (take 32 c) else none))
            (record { content = c; faults = faults })
    seen c faults false = tt
    seen c faults true = elim (Bool-cases (bytes_eq (take 32 c) magic)) [
      | inl e ↦ rw e ((bytes_eq_iff (take 32 c) magic).0 e)
      | inr e ↦ rw e tt
    ]

    go :
        (c : Bytes) (faults : List (Option ℕ))
        → Ends Classified Whatever (classify_magic (record { content = c; faults = faults }))
    go c [] = seen c [] (leb 32 (length c))
    go c (none ∷ rest) = seen c rest (leb 32 (length c))
    go c (some n ∷ rest) = tt

checked-Meets :
    (status : MagicStatus) → Meets (Classified status) (checked status) (λ _. IsOpened) Whatever
checked-Meets MagicStatus.matches = record { apply = λ file h. h }
checked-Meets MagicStatus.fresh = stamp-Meets
checked-Meets MagicStatus.mismatch = stamp-Meets

init-Meets : Meets Whatever init_or_check_magic (λ _. IsOpened) Whatever
unfolding init_or_check_magic
init-Meets = sequence classify-Meets checked-Meets

module _ (rkyv : Rkyv) where
  store-Meets :
      (bytes : Option Bytes) → Meets IsOpened (store_bytes rkyv 32 bytes) (λ _. IsOpened) IsOpened
  store-Meets none = record { apply = λ file h. h }
  store-Meets (some bytes) =
      sequence {rest = λ _. write_all_at bytes 32 >> sync_all}
        (set_len-Meets (32 + length bytes) (omega arith))
        (λ _.
          sequence {rest = λ _. sync_all} (write-Meets bytes 32 (omega arith)) (λ _. sync-Meets))

  -- the writes of a session, each of which may fail
  unfoldable pub write_each : List DatabaseRepr → File → File
  write_each [] file = file
  write_each (repr ∷ reprs) file =
      write_each reprs (write_blob_at rkyv repr blob_offset_flock file).1

  IsOpened-write_each :
      (reprs : List DatabaseRepr) (file : File) → IsOpened file → IsOpened (write_each reprs file)
  unfolding write_each write_blob_at
  IsOpened-write_each [] file h = h
  IsOpened-write_each (repr ∷ reprs) file h =
      IsOpened-write_each reprs (write_blob_at rkyv repr blob_offset_flock file).1 (
        either_way IsOpened (write_blob_at rkyv repr blob_offset_flock file)
          ((store-Meets (rkyv.to_bytes repr)).apply file h))

  -- A file whose header was checked or stamped without an error has the header MAGIC from then on,
  -- whatever it held before, whatever is written, and whichever of the writes' calls fail, at whatever
  -- byte.
  pub header_kept :
      (reprs : List DatabaseRepr) (file opened : File)
      → init_or_check_magic file ≡ (ok tt, opened)
      → HasMagic (write_each reprs opened).content
  header_kept reprs file opened h =
      IsOpened-write_each reprs opened
        (start (init_or_check_magic file) (init-Meets.apply file tt) h)
    where
      start :
          (r : Outcome (Unit {0}) × File)
          → Ends (λ _. IsOpened) Whatever r
          → r ≡ (ok tt, opened)
          → IsOpened opened
      start (ok u, f) e h = subst IsOpened (ap (λ r. r.1) h) e
      start (err c, f) e h = cc
