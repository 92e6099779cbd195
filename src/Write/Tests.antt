-- ===== src/Write/Tests.antt =====
-- Runs of `write` (l_builtin/src/write.rs).
use l_builtin.Base.{◌≡◌, refl, List, [], ◌∷◌, true, false, arith, Bytes}
use l_builtin.Write.{Answer, accepts, interrupted, fails, Ending, write_loop}
use l_builtin.Write.Sent.{Faithful, sent_faithfully, all_is_sent}

abbrev word : Bytes
word = b'a' ∷ b'b' ∷ b'c' ∷ b'd' ∷ b'e' ∷ []

abbrev answers : List Answer
answers = accepts 2 ∷ interrupted ∷ accepts 1 ∷ accepts 9 ∷ []

sent_faithfully_example :
    Faithful false word (write_loop (accepts 2 ∷ interrupted ∷ fails ∷ []) false word 0 [])
sent_faithfully_example = sent_faithfully (accepts 2 ∷ interrupted ∷ fails ∷ []) false word

all_is_sent_example : write_loop answers false word 0 [] ≡ (Ending.finished 5, word)
all_is_sent_example = all_is_sent answers word tt (omega arith) (omega arith)

one_call : write_loop answers true word 0 [] ≡ (Ending.finished 2, b'a' ∷ b'b' ∷ [])
unfolding write_loop
one_call = refl
