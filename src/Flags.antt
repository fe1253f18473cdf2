-- ===== src/Flags.antt =====
-- The package flag of Go, as far as the programs use it, over the variables `V` that the flags are
-- bound to. The texts of the errors of that package are not modelled.
pub mod Invariant
use podlock.Prelude.{
  ℕ, Bool, true, false, ◌||◌, Option, none, some, List, [], ◌∷◌, Text, codes, contains, ◌==◌,
  text_eq, nat_eq, if◌then◌else◌,
}
use podlock.Strings.{cut_at}
use podlock.Fallible.{Result, ok, err, ◌>>=◌}

-- One argument, as flag.FlagSet.parseOne reads it: `stop` is the end of the flags.
pub data Token : Type 0 where
  stop : Token
  bad_syntax : Token
  a_flag : Text → Option Text → Token

abbrev pub flag_of : ℕ → Text → Option (Text × Text) → Token
flag_of c name none = a_flag (c ∷ name) none
flag_of c name (some (key, value)) = a_flag (c ∷ key) (some value)

-- What follows the minus signs. A `=` in the first place does not end a name.
abbrev pub named : Text → Token
named [] = bad_syntax
named (c ∷ name) = if c == b'-' || c == b'=' then bad_syntax else flag_of c name (cut_at b'=' name)

abbrev pub after_two_minuses : Text → Token
after_two_minuses [] = stop
after_two_minuses (c ∷ s) = named (c ∷ s)

unfoldable pub token : Text → Token
token [] = stop
token (c ∷ []) = stop
token (c ∷ d ∷ s) =
    if c == b'-' then (if d == b'-' then after_two_minuses s else named (d ∷ s)) else stop

-- strconv.ParseBool
unfoldable pub parse_bool : Text → Result Bool
parse_bool s =
    if contains
      (codes "1" ∷ codes "t" ∷ codes "T" ∷ codes "true" ∷ codes "TRUE" ∷ codes "True" ∷ []) s
    then ok true
    else if contains
        (codes "0" ∷ codes "f" ∷ codes "F" ∷ codes "false" ∷ codes "FALSE" ∷ codes "False" ∷ []) s
    then ok false
    else err (codes "parse error")

-- A flag of a flag set: its `Set`, and whether it is Boolean, so that it takes no argument.
pub data Flag (V : Type 0) : Type 0 where
  value_flag : (Text → V → Result V) → Flag V
  bool_flag : (Text → V → Result V) → Flag V

-- What one argument does: the flags are at an end, a flag is set, or one waits for its value.
pub data Step (V : Type 0) : Type 0 where
  finished : Step V
  set_to : Result V → Step V
  waits : (Text → V → Result V) → Step V

module _ {V : Type 0} where
  abbrev pub step_flag : V → Option Text → Option (Flag V) → Step V
  step_flag f value none = set_to (err (codes "flag provided but not defined"))
  step_flag f none (some (bool_flag set)) = set_to (set (codes "true") f)
  step_flag f (some v) (some (bool_flag set)) = set_to (set v f)
  step_flag f none (some (value_flag set)) = waits set
  step_flag f (some v) (some (value_flag set)) = set_to (set v f)

  -- `formal` are the flags of the set, by their names.
  unfoldable pub step : (formal : Text → Option (Flag V)) → V → Token → Step V
  step formal f stop = finished
  step formal f bad_syntax = set_to (err (codes "bad flag syntax"))
  step formal f (a_flag name value) = step_flag f value (formal name)

  -- flag.FlagSet.Parse, where a flag may be waiting for its value. What stands after the first
  -- argument that is not a flag is left alone.
  unfoldable pub parse :
      (formal : Text → Option (Flag V)) → V → Option (Text → V → Result V) → List Text → Result V
  parse formal f none [] = ok f
  parse formal f (some set) [] = err (codes "flag needs an argument")
  parse formal f (some set) (value ∷ args) = set value f >>= λ g. parse formal g none args
  parse formal f none (arg ∷ args) = elim (step formal f (token arg)) [
    | finished ↦ ok f
    | set_to r ↦ r >>= λ g. parse formal g none args
    | waits set ↦ parse formal f (some set) args
  ]
