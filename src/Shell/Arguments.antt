-- ===== src/Shell/Arguments.antt =====
-- l_builtin/src/cmdargs.rs: `CmdArgs::parse`, the loop behind every subcommand's arguments. The fields
-- of an arguments struct are the derive macro's, and bash's `internal_getopt` gives a list of what it
-- finds and the words behind the options.
use l_builtin.Base.{
  ℕ, List, [], ◌∷◌, Bool, true, false, not, ◌&&◌, ◌||◌, Bytes, Outcome, ok, err, ex_usage,
  if◌then◌else◌, ◌==◌,
}

-- `trait CmdArgs`
pub record CmdArgs (Args : Type 0) : Type 0 where
  pub has_rest : Bool
  pub new_default : Args
  pub apply_opt : Args → ℕ → Bytes → Outcome Args
  pub fill_positionals : Args → List Bytes → Outcome (Args × List Bytes)
  pub post : Args → Outcome (Unit {0})

-- `GETOPT_HELP`, or a character with its argument
pub data Found : Type 0 where
  getopt_help : Found
  found : ℕ → Bytes → Found

-- `?`
abbrev pub outcome_then : {A B : Type 0} → Outcome A → (A → Outcome B) → Outcome B
outcome_then (ok a) rest = rest a
outcome_then (err code) rest = err code

abbrev is_empty : List Bytes → Bool
is_empty [] = true
is_empty (w ∷ ws) = false

module _ {Args : Type 0} (derived : CmdArgs Args) where
  unfoldable pub parse_options : List Found → Args → Outcome Args
  parse_options [] this = ok this
  parse_options (getopt_help ∷ more) this = err 0
  parse_options (found c p ∷ more) this =
      let rest = λ (next : Args). parse_options more next in
      if c == b'h'
      then err 0
      else if c == b'?' || c == b':'
      then err ex_usage
      else outcome_then (derived.apply_opt this c p) rest

  abbrev pub bound_words : Args × List Bytes → Outcome Args
  bound_words (this, words) =
      if not derived.has_rest && not (is_empty words)
      then err ex_usage
      else outcome_then (derived.post this) (λ _. ok this)

  unfoldable pub parse : List Found → List Bytes → Outcome Args
  parse options words =
      outcome_then (parse_options options derived.new_default)
        (λ this. outcome_then (derived.fill_positionals this words) bound_words)
