-- ===== src/Seal/Cli/Separator.antt =====
-- The arguments of the seal and those of the binary are kept apart.
use podlock.Prelude.{◌≡◌, ◌≢◌, List, [], ◌∷◌, ◌++◌, Text, codes, All, arith, text_eq}
use podlock.Seal.Cli.{cut_separator}

-- Arguments that are not `--` are those of the seal up to the first `--`, and everything after that
-- one is the command, a further `--` included.
pub cut_separator-append :
    (flag_args command : List Text)
    → All (λ a. a ≢ codes "--") flag_args
    → cut_separator (flag_args ++ (codes "--" ∷ command)) ≡ (flag_args, command)
unfolding cut_separator
cut_separator-append [] command h = ground arith
cut_separator-append (a ∷ args) command h = ground (arith, cut_separator-append args command h.1)
