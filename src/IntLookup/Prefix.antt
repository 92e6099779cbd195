-- ===== src/IntLookup/Prefix.antt =====
-- intlookup.rs: two packed keys agree under the mask of the shorter one exactly if it is a prefix.
use l_builtin.Base.{
  ℕ, zero, suc, ◌-◌, ◌*◌, ◌≤◌, ◌<◌, ◌≡◌, ◌↔◌, refl, ap, sym, ◌∙◌, [], ◌∷◌, ◌++◌, Bytes, IsBytes,
  length, take, drop, replicate, arith, length-append, length-replicate, length-take, length-drop,
  take-append-drop,
}
use l_builtin.IntLookup.Find.{masked}
use l_builtin.IntLookup.Pack.{
  pow8, pow8-pos, big_endian, big_endian-injective, masked-top, padded, big_endian-padded,
}

-- What a C string can hold: bytes that are not NUL.
abbrev pub IsText : Bytes → Type 0
IsText [] = Unit {0}
IsText (b ∷ bytes) = (0 < b) × (b < 256) × IsText bytes

abbrev pub IsPrefix : Bytes → Bytes → Type 0
IsPrefix [] name = Unit {0}
IsPrefix (b ∷ key) [] = ⊥
IsPrefix (b ∷ key) (c ∷ name) = (b ≡ c) × IsPrefix key name

IsText→IsBytes : (bytes : Bytes) → IsText bytes → IsBytes bytes
IsText→IsBytes [] h = tt
IsText→IsBytes (b ∷ bs) (p, q, h) = (q, IsText→IsBytes bs h)

IsBytes-zeros : (n : ℕ) → IsBytes (replicate n 0)
IsBytes-zeros zero = tt
IsBytes-zeros (suc n) = (omega arith, IsBytes-zeros n)

IsBytes-append : (xs ys : Bytes) → IsBytes xs → IsBytes ys → IsBytes (xs ++ ys)
IsBytes-append [] ys p q = q
IsBytes-append (x ∷ xs) ys p q = (p.0, IsBytes-append xs ys p.1 q)

IsBytes-take : (n : ℕ) (xs : Bytes) → IsBytes xs → IsBytes (take n xs)
IsBytes-take zero xs h = tt
IsBytes-take (suc n) [] h = tt
IsBytes-take (suc n) (x ∷ xs) h = (h.0, IsBytes-take n xs h.1)

IsBytes-drop : (n : ℕ) (xs : Bytes) → IsBytes xs → IsBytes (drop n xs)
IsBytes-drop zero xs h = h
IsBytes-drop (suc n) [] h = tt
IsBytes-drop (suc n) (x ∷ xs) h = IsBytes-drop n xs h.1

-- A text is no longer than what it is a prefix of, so the filling plays no part.
take-only :
    (key name : Bytes) (m : ℕ)
    → IsText key
    → take (length key) (name ++ replicate m 0) ≡ key
    → IsPrefix key name
take-only [] name m h e = tt
take-only (b ∷ key) [] zero h e = absurd (omega (arith, ap length e))
take-only (b ∷ key) [] (suc m) h e = absurd (ground arith)
take-only (b ∷ key) (c ∷ name) m (p, q, h) e = (ground arith, take-only key name m h (cc))

take-of :
    (key name : Bytes) (m : ℕ) → IsPrefix key name → take (length key) (name ++ replicate m 0) ≡ key
take-of [] name m h = refl
take-of (b ∷ key) [] m h = absurd h
take-of (b ∷ key) (c ∷ name) m (p, h) = cc (take-of key name m h)

cancel : (d a b : ℕ) → 0 < d → a * d ≡ b * d → a ≡ b
cancel d a b h e = grind arith

-- The packed key, and the packed name under the key's mask.
abbrev pub packed : ℕ → Bytes → ℕ
packed t bytes = big_endian bytes * pow8 (t - length bytes)

module _ (t : ℕ) (key : Bytes) (text : IsText key) (short : length key ≤ t) where
  -- the mask of the key clears nothing of the key
  pub masked-packed : masked ((t - length key) * 8) (packed t key) ≡ packed t key
  masked-packed = rw (← big_endian-padded t key) (
      masked-top (t - length key) key (replicate (t - length key) 0)
        (IsBytes-zeros (t - length key)) (length-replicate {A = ℕ} (t - length key) 0)
      ∙ sym (big_endian-padded t key))

  module _ (name : Bytes) (named : IsText name) (fits : length name ≤ t) where
    padded-IsBytes : IsBytes (padded t name)
    padded-IsBytes =
        IsBytes-append name (replicate (t - length name) 0) (IsText→IsBytes name named)
          (IsBytes-zeros (t - length name))

    length-padded : length (padded t name) ≡ t
    length-padded = omega (
      arith,
      length-append name (replicate (t - length name) 0),
      length-replicate {A = ℕ} (t - length name) 0,
    )

    masked-name :
        masked ((t - length key) * 8) (packed t name)
        ≡ big_endian (take (length key) (padded t name)) * pow8 (t - length key)
    masked-name =
        ap (masked ((t - length key) * 8)) (
          sym (big_endian-padded t name)
          ∙ ap big_endian (sym (take-append-drop (length key) (padded t name))))
        ∙ masked-top (t - length key) (take (length key) (padded t name))
            (drop (length key) (padded t name))
            (IsBytes-drop (length key) (padded t name) padded-IsBytes)
            (omega (arith, length-drop (length key) (padded t name), length-padded))

    -- A packed name agrees with a packed key under the key's mask exactly if the key is a prefix of
    -- the name.
    pub matching_iff :
        (masked ((t - length key) * 8) (packed t name)
          ≡ masked ((t - length key) * 8) (packed t key))
        ↔ IsPrefix key name
    matching_iff = (only, of)
      where
        only :
            masked ((t - length key) * 8) (packed t name)
              ≡ masked ((t - length key) * 8) (packed t key)
            → IsPrefix key name
        only e = take-only key name (t - length name) text (
            big_endian-injective (take (length key) (padded t name)) key
              (IsBytes-take (length key) (padded t name) padded-IsBytes) (IsText→IsBytes key text)
              (omega (arith, length-take (length key) (padded t name), length-padded))
              (cancel (pow8 (t - length key)) _ _ (pow8-pos (t - length key))
                (sym masked-name ∙ e ∙ masked-packed)))

        of :
            IsPrefix key name
            → masked ((t - length key) * 8) (packed t name)
              ≡ masked ((t - length key) * 8) (packed t key)
        of p =
            masked-name
            ∙ ap (λ s. big_endian s * pow8 (t - length key)) (take-of key name (t - length name) p)
            ∙ sym masked-packed
