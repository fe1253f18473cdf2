-- ===== src/Seal/Env.antt =====
-- cmd/seal/env.go
pub mod Filter
use podlock.Prelude.{
  ℕ, Bool, true, false, Option, none, some, List, [], ◌∷◌, Text, codes, if◌then◌else◌,
}
use podlock.Strings.{has_prefix, cut_at}

-- seal.SealEnvVarPrefix (internal/seal/constants.go)
abbrev pub seal_env_var_prefix : Text
seal_env_var_prefix = codes "SEAL_"

-- One round of the loop, over what the later rounds append.
abbrev pub keep_variable : Text → Option (Text × Text) → List Text → List Text
keep_variable kv none rest = rest
keep_variable kv (some (key, value)) rest =
    if has_prefix key seal_env_var_prefix then rest else kv ∷ rest

-- sealedProcessEnv, of os.Environ()
unfoldable pub sealed_process_env : List Text → List Text
sealed_process_env [] = []
sealed_process_env (kv ∷ environ) = keep_variable kv (cut_at b'=' kv) (sealed_process_env environ)
