-- ===== src/VarDb/Trip.antt =====
-- l_builtin/src/vardb.rs: what is written to a region of memory reads back, and a write that does not
-- fit leaves it alone.
use l_builtin.Base.{◌-◌, false, Bool-cases, inl, inr, leb, lt→ltb}
use l_builtin.VarDb.{DatabaseRepr, Rkyv, RkyvLaws}
use l_builtin.VarDb.Region.{read_blob_from_mem, store_sized, write_blob_to_mem, out_of_memory}
use l_builtin.Base.{◌∙◌, ok, err, leb, ltb, ◌==◌, some, lt→ltb, Bool-cases, inl, inr}
use l_builtin.Base.{
  length-drop, length-take, ◌++◌, length-append, ◌+◌, ℕ, zero, suc, ◌/◌, ◌^◌, ◌≡◌, ◌≤◌, ◌<◌, refl,
  ap, sym, [], ◌∷◌, Bytes, take, drop, length, arith, take-append_length,
}
use l_builtin.VarDb.Region.{to_ne_bytes, from_ne_bytes, copied}

-- The number fits that many bytes.
abbrev Fits : ℕ → ℕ → Type 0
Fits zero n = n ≡ 0
Fits (suc k) n = Fits k (n / 256)

from_ne_bytes-to_ne_bytes : (k n : ℕ) → Fits k n → from_ne_bytes (to_ne_bytes k n) ≡ n
unfolding from_ne_bytes to_ne_bytes
from_ne_bytes-to_ne_bytes zero n f = sym f
from_ne_bytes-to_ne_bytes (suc k) n f =
    let ih = from_ne_bytes-to_ne_bytes k (n / 256) f in omega arith

length-to_ne_bytes : (k n : ℕ) → length (to_ne_bytes k n) ≡ k
unfolding to_ne_bytes
length-to_ne_bytes zero n = refl
length-to_ne_bytes (suc k) n = ap suc (length-to_ne_bytes k (n / 256))

Fits-8 : (n : ℕ) → n < 2 ^ 63 → Fits 8 n
Fits-8 n small = omega arith

take-copied :
    (mem bytes : Bytes) (offset : ℕ)
    → offset ≤ length mem
    → take (length bytes) (drop offset (copied mem offset bytes)) ≡ bytes
unfolding copied
take-copied mem bytes zero h = take-append_length bytes (drop (length bytes) mem)
take-copied [] bytes (suc n) h = absurd (omega arith)
take-copied (x ∷ mem) bytes (suc n) h = take-copied mem bytes n (omega arith)

take-copied_before :
    (mem bytes : Bytes) (k offset : ℕ)
    → k ≤ offset
    → offset ≤ length mem
    → take k (copied mem offset bytes) ≡ take k mem
unfolding copied
take-copied_before mem bytes zero offset h l = refl
take-copied_before mem bytes (suc k) zero h l = absurd (omega arith)
take-copied_before [] bytes (suc k) (suc n) h l = absurd (omega arith)
take-copied_before (x ∷ mem) bytes (suc k) (suc n) h l =
    ap (λ t. x ∷ t) (take-copied_before mem bytes k n (omega arith) (omega arith))

take-drop-copied_before :
    (mem bytes : Bytes) (k o offset : ℕ)
    → o + k ≤ offset
    → offset ≤ length mem
    → take k (drop o (copied mem offset bytes)) ≡ take k (drop o mem)
unfolding copied
take-drop-copied_before mem bytes k zero offset h l =
    take-copied_before mem bytes k offset (omega arith) l
take-drop-copied_before mem bytes k (suc o) zero h l = absurd (omega arith)
take-drop-copied_before [] bytes k (suc o) (suc n) h l = absurd (omega arith)
take-drop-copied_before (x ∷ mem) bytes k (suc o) (suc n) h l =
    take-drop-copied_before mem bytes k o n (omega arith) (omega arith)

length-copied :
    (mem bytes : Bytes) (offset : ℕ)
    → offset + length bytes ≤ length mem
    → length (copied mem offset bytes) ≡ length mem
unfolding copied
length-copied mem bytes offset fits =
    let whole = length-append (take offset mem ++ bytes) (drop (length bytes) (drop offset mem)) in
    let end = length-append (take offset mem) bytes in
    let start = length-take offset mem in
    let rest = length-drop (length bytes) (drop offset mem) in
    let rest2 = length-drop offset mem in grind arith

module _ (rkyv : Rkyv) (laws : RkyvLaws rkyv) where
  -- the region after a write that fits
  abbrev stored : Bytes → ℕ → Bytes → Bytes
  stored mem len_offset bytes =
      copied (copied mem len_offset (to_ne_bytes 8 (length bytes))) (len_offset + 8) bytes

  length-stored :
      (mem bytes : Bytes) (len_offset : ℕ)
      → length bytes < 2 ^ 63
      → len_offset + 8 + length bytes ≤ length mem
      → from_ne_bytes (take 8 (drop len_offset (stored mem len_offset bytes))) ≡ length bytes
  length-stored mem bytes len_offset small room =
      let mem1 = copied mem len_offset (to_ne_bytes 8 (length bytes)) in
      let size = length-to_ne_bytes 8 (length bytes) in
      let kept = length-copied mem (to_ne_bytes 8 (length bytes)) len_offset (omega arith) in
      let before =
        take-drop-copied_before mem1 bytes 8 len_offset (len_offset + 8) (omega arith)
          (omega arith) in
      let there = take-copied mem (to_ne_bytes 8 (length bytes)) len_offset (omega arith) in
      ap from_ne_bytes (before ∙ ap (λ k. take k (drop len_offset mem1)) (sym size) ∙ there)
      ∙ from_ne_bytes-to_ne_bytes 8 (length bytes) (Fits-8 (length bytes) small)

  no_less : (a b : ℕ) → b ≤ a → ltb a b ≡ false
  no_less a b h = ground arith

  read-stored :
      (repr : DatabaseRepr) (mem bytes : Bytes) (len_offset : ℕ)
      → rkyv.to_bytes repr ≡ some bytes
      → len_offset + 8 + length bytes ≤ length mem
      → length bytes < 2 ^ 63
      → read_blob_from_mem rkyv len_offset (stored mem len_offset bytes)
        ≡ (ok repr, stored mem len_offset bytes)
  unfolding read_blob_from_mem
  read-stored repr mem bytes len_offset wrote room small =
      let m = stored mem len_offset bytes in
      let root = laws.has_root repr bytes wrote in
      let size = length-to_ne_bytes 8 (length bytes) in
      let kept = length-copied mem (to_ne_bytes 8 (length bytes)) len_offset (omega arith) in
      let mem1 = copied mem len_offset (to_ne_bytes 8 (length bytes)) in
      let long : length m ≡ length mem =
        length-copied mem1 bytes (len_offset + 8) (omega arith) ∙ kept in
      let h1 : ltb (length m) (len_offset + 8) ≡ false =
        no_less (length m) (len_offset + 8) (omega arith) in
      let h2 = length-stored mem bytes len_offset small room in
      let h3 : (length bytes == 0) ≡ false = ground arith in
      let h4 = no_less (length m - (len_offset + 8)) (length bytes) (omega arith) in
      let h5 = no_less (length bytes) 8 root in
      let h6 : take (length bytes) (drop (len_offset + 8) m) ≡ bytes =
        take-copied mem1 bytes (len_offset + 8) (omega arith) in
      let h7 = laws.reads_back repr bytes wrote in rw (h1, h2, h3, h4, h5, h6, h7) refl

  refused :
      (mem : Bytes) (len_offset : ℕ) (bytes : Bytes)
      → length mem < len_offset + 8 + length bytes
      → store_sized rkyv len_offset (some bytes) mem ≡ (err out_of_memory, mem)
  refused mem len_offset bytes big =
      elim (Bool-cases (leb (2 ^ 64) (len_offset + 8 + length bytes))) [
        | inl e ↦ rw e refl
        | inr e ↦
            let over = lt→ltb (length mem) (len_offset + 8 + length bytes) big in rw (e, over) refl
      ]

  -- In a region of less than 2^63 bytes, with a serializer that keeps to its laws: a database whose
  -- bytes fit behind their length is stored, and reads back; one whose bytes do not is refused with out
  -- of memory, and the region stays as it was.
  pub write_blob_to_mem-read :
      (repr : DatabaseRepr) (bytes mem : Bytes) (len_offset : ℕ)
      → rkyv.to_bytes repr ≡ some bytes
      → length mem < 2 ^ 63
      → let r = write_blob_to_mem rkyv repr len_offset mem in
        (len_offset + 8 + length bytes ≤ length mem
          → (r.0 ≡ ok tt)
            × (length r.1 ≡ length mem)
            × (read_blob_from_mem rkyv len_offset r.1 ≡ (ok repr, r.1)))
        × (length mem < len_offset + 8 + length bytes → r ≡ (err out_of_memory, mem))
  unfolding write_blob_to_mem
  write_blob_to_mem-read repr bytes mem len_offset wrote small = (
    λ fits.
        let small_enough : leb (2 ^ 64) (len_offset + 8 + length bytes) ≡ false = ground arith in
        let inside = no_less (length mem) (len_offset + 8 + length bytes) fits in
        let size = length-to_ne_bytes 8 (length bytes) in
        let kept = length-copied mem (to_ne_bytes 8 (length bytes)) len_offset (omega arith) in
        let mem1 = copied mem len_offset (to_ne_bytes 8 (length bytes)) in
        rw (wrote, small_enough, inside)
          (
            refl,
            length-copied mem1 bytes (len_offset + 8) (omega arith) ∙ kept,
            read-stored repr mem bytes len_offset wrote fits (omega arith),
          ),
    λ big. rw wrote (refused mem len_offset bytes big),
  )
