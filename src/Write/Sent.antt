-- ===== src/Write/Sent.antt =====
-- l_builtin/src/write.rs: what the loop of `write` has sent.
use l_builtin.Base.{
  ==_iff, ℕ, zero, suc, ◌+◌, ◌≡◌, ◌≤◌, ◌∙◌, refl, ap, sym, List, [], ◌∷◌, ◌++◌, ◌≢◌, Bool, true,
  false, ◌||◌, Bytes, take, drop, length, length-drop, ◌==◌, arith, Bool-cases, inl, inr, ==_iff,
}
use l_builtin.Write.{
  Answer, accepts, interrupted, fails, Ending, finished, failed, running, write_loop,
}
use Prim.Native.Nat.{min}

take-nil : (n : ℕ) → take {A = ℕ} n [] ≡ []
take-nil zero = refl
take-nil (suc n) = refl

or-false : (b c : Bool) → (b || c) ≡ true → b ≡ false → c ≡ true
or-false true c h e = cc
or-false false c h e = h

differ : (a b : ℕ) → (a == b) ≡ false → a ≢ b
differ a b h e = ground arith

take-more : (t k : ℕ) (xs : Bytes) → take t xs ++ take k (drop t xs) ≡ take (t + k) xs
take-more zero k xs = let z : k ≡ 0 + k = omega arith in ap (λ n. take n xs) z
take-more (suc t) k [] = take-nil k ∙ sym (take-nil (suc t + k))
take-more (suc t) k (x ∷ xs) =
    let z : suc (t + k) ≡ suc t + k = omega arith in
    ap (λ r. x ∷ r) (take-more t k xs) ∙ ap (λ n. take n (x ∷ xs)) z

take-all : (xs : Bytes) → take (length xs) xs ≡ xs
take-all [] = refl
take-all (x ∷ xs) = ap (λ t. x ∷ t) (take-all xs)

-- The descriptor has got a beginning of the bytes; all of them where the loop ended by itself.
abbrev pub Faithful : Bool → Bytes → Ending × Bytes → Type 0
Faithful non_blocking bytes (finished t, sent) =
    (sent ≡ take t bytes) × (t ≤ length bytes) × (non_blocking ≡ false → t ≡ length bytes)
Faithful non_blocking bytes (failed, sent) = (t : ℕ) × (sent ≡ take t bytes)
Faithful non_blocking bytes (running, sent) = (t : ℕ) × (sent ≡ take t bytes)

write_loop-Faithful :
    (answers : List Answer) (non_blocking : Bool) (bytes sent : Bytes) (total : ℕ)
    → sent ≡ take total bytes
    → total ≤ length bytes
    → Faithful non_blocking bytes (write_loop answers non_blocking bytes total sent)
unfolding write_loop
write_loop-Faithful [] nb bytes sent total e l = (total, e)
write_loop-Faithful (interrupted ∷ more_answers) nb bytes sent total e l =
    write_loop-Faithful more_answers nb bytes sent total e l
write_loop-Faithful (fails ∷ more_answers) nb bytes sent total e l = (total, e)
write_loop-Faithful (accepts n ∷ more_answers) nb bytes sent total e l =
    let k = min n (length (drop total bytes)) in
    let room = length-drop total bytes in
    let more : sent ++ take k (drop total bytes) ≡ take (total + k) bytes =
      ap (λ s. s ++ take k (drop total bytes)) e ∙ take-more total k bytes in
    let fits : total + k ≤ length bytes = omega arith in
    elim (Bool-cases (nb || (total + k == length bytes))) [
      | inl s ↦ rw s (
        more,
        fits,
        λ off.
            (==_iff (total + k) (length bytes)).0 (or-false nb (total + k == length bytes) s off),
      )
      | inr s ↦ rw s (
          write_loop-Faithful more_answers nb bytes (sent ++ take k (drop total bytes)) (total + k)
            more fits)
    ]

-- How many bytes the answers take together.
abbrev pub capacity : List Answer → ℕ
capacity [] = 0
capacity (accepts n ∷ more_answers) = n + capacity more_answers
capacity (interrupted ∷ more_answers) = capacity more_answers
capacity (fails ∷ more_answers) = capacity more_answers

abbrev pub NoFailure : List Answer → Type 0
NoFailure [] = Unit {0}
NoFailure (accepts n ∷ more_answers) = NoFailure more_answers
NoFailure (interrupted ∷ more_answers) = NoFailure more_answers
NoFailure (fails ∷ more_answers) = ⊥

write_loop-ends :
    (answers : List Answer) (bytes sent : Bytes) (total : ℕ)
    → NoFailure answers
    → total ≤ length bytes
    → length bytes ≤ total + capacity answers
    → 1 ≤ capacity answers
    → (write_loop answers false bytes total sent).0 ≡ Ending.finished (length bytes)
unfolding write_loop
write_loop-ends [] bytes sent total good l c one = absurd (omega arith)
write_loop-ends (interrupted ∷ more_answers) bytes sent total good l c one =
    write_loop-ends more_answers bytes sent total good l c one
write_loop-ends (fails ∷ more_answers) bytes sent total good l c one = absurd good
write_loop-ends (accepts n ∷ more_answers) bytes sent total good l c one =
    let k = min n (length (drop total bytes)) in
    let room = length-drop total bytes in
    elim (Bool-cases (total + k == length bytes)) [
      | inl s ↦ rw s (ap Ending.finished ((==_iff (total + k) (length bytes)).0 s))
      | inr s ↦
          let short : total + k ≢ length bytes = differ (total + k) (length bytes) s in
          rw s (
            write_loop-ends more_answers bytes (sent ++ take k (drop total bytes)) (total + k) good
              (omega arith) (omega arith) (omega arith))
    ]

-- Whatever write(2) answers, the descriptor has got a beginning of the data, and each byte once; where
-- the loop ends without -n and without an error, it has got all of it.
pub sent_faithfully :
    (answers : List Answer) (non_blocking : Bool) (bytes : Bytes)
    → Faithful non_blocking bytes (write_loop answers non_blocking bytes 0 [])
sent_faithfully answers non_blocking bytes =
    write_loop-Faithful answers non_blocking bytes [] 0 refl (omega arith)

-- Without -n, if write(2) fails at most with EINTR and takes together as many bytes as there are, and at
-- least one, then the loop ends, everything is sent in order, and the total is the number of bytes.
pub all_is_sent :
    (answers : List Answer) (bytes : Bytes)
    → NoFailure answers
    → length bytes ≤ capacity answers
    → 1 ≤ capacity answers
    → write_loop answers false bytes 0 [] ≡ (Ending.finished (length bytes), bytes)
all_is_sent answers bytes good c one =
    whole (write_loop answers false bytes 0 []) (sent_faithfully answers false bytes)
      (write_loop-ends answers bytes [] 0 good (omega arith) (omega arith) one)
  where
    whole :
        (r : Ending × Bytes)
        → Faithful false bytes r
        → r.0 ≡ Ending.finished (length bytes)
        → r ≡ (Ending.finished (length bytes), bytes)
    whole (finished t, sent) f e =
        let p = f.0 ∙ ap (λ n. take n bytes) (f.2 refl) ∙ take-all bytes in λ i. (e i, p i)
    whole (failed, sent) f e = cc
    whole (running, sent) f e = cc
