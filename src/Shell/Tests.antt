-- ===== src/Shell/Tests.antt =====
-- Runs of the argument parser (l_builtin/src/cmdargs.rs), on the arguments of `barrier wait`: -n, and a
-- handle.
use l_builtin.Base.{
  ◌≡◌, refl, List, [], ◌∷◌, true, false, Bool, Bytes, Outcome, ok, err, if◌then◌else◌, ◌==◌,
  ex_usage,
}
use l_builtin.Shell.Arguments.{CmdArgs, getopt_help, found, parse, parse_options}

abbrev first_word : Bool → List Bytes → Outcome ((Bool × Bytes) × List Bytes)
first_word n [] = err ex_usage
first_word n (w ∷ ws) = ok ((n, w), ws)

abbrev wait_args : CmdArgs (Bool × Bytes)
wait_args = record {
  has_rest = false;
  new_default = (false, []);
  apply_opt = λ this c p. if c == b'n' then ok (true, this.1) else err ex_usage;
  fill_positionals = λ this words. first_word this.0 words;
  post = λ this. ok tt;
}

abbrev one : Bytes
one = b'1' ∷ []

parses : parse wait_args (found b'n' [] ∷ []) (one ∷ []) ≡ ok (true, one)
unfolding parse parse_options
parses = refl

help_wins : parse wait_args (getopt_help ∷ found b'?' [] ∷ []) [] ≡ err 0
unfolding parse parse_options
help_wins = refl

too_many : parse wait_args [] (one ∷ one ∷ []) ≡ err ex_usage
unfolding parse parse_options
too_many = refl
