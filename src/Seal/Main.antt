-- ===== src/Seal/Main.antt =====
-- cmd/seal/main.go: the system calls of the seal, in their order.
pub mod Sealed
pub mod Linked
pub mod Named
use podlock.Prelude.{Option, none, some, List, [], ◌∷◌, ◌++◌, Text, Bool, if◌then◌else◌}
use podlock.Fallible.{Result, ok, err}
use podlock.Api.{Profile, ProfileByBinary}
use podlock.Sets.{StringSets}
use podlock.Seal.Rules.{Rule, Stat, profile_to_landlock_rules, rules_for_binary_to_run}
use podlock.Seal.Config.{Config, build_profile}
use podlock.Seal.Logger.{LogHandler, setup_logger}
use podlock.Seal.Cli.{Process, parse_flags}
use podlock.Seal.Env.{sealed_process_env}

-- landlock.V3.RestrictPaths(rules…) and syscall.Exec(path, argv, env)
pub data Call : Type 0 where
  restrict_paths : List Rule → Call
  exec : Text → List Text → List Text → Call

-- What the seal asks of the system before its calls, and whether RestrictPaths succeeds.
pub record System : Type 0 where
  pub environ : List Text
  pub read : Text → Result Text
  pub decode : Text → Result ProfileByBinary
  pub stat : Text → Stat
  pub discover : Text → Result (List Text)
  pub restrict : List Rule → Result (Unit {0})

module _ (sys : System) where
  -- What follows RestrictPaths: the binary is executed only if it succeeded.
  abbrev pub after_restriction : Config → Result (Unit {0}) → List Call
  after_restriction c (err e) = []
  after_restriction c (ok _) =
      exec c.binary_to_run (c.binary ∷ c.binary_args) (sealed_process_env sys.environ) ∷ []

  abbrev pub with_rules : Config → List Rule → List Call
  with_rules c rules = restrict_paths rules ∷ after_restriction c (sys.restrict rules)

  abbrev pub with_binary_rules : Config → List Rule → Result (List Rule) → List Call
  with_binary_rules c rules (err e) = []
  with_binary_rules c rules (ok binary_rules) = with_rules c (rules ++ binary_rules)

  abbrev pub with_profile : Config → Result Profile → List Call
  with_profile c (err e) = []
  with_profile c (ok profile) =
      with_binary_rules c (profile_to_landlock_rules sys.stat profile)
        (rules_for_binary_to_run sys.stat c.binary_to_run c.add_linked_libraries sys.discover)

  abbrev pub with_logger : Config → Result LogHandler → List Call
  with_logger c (err e) = []
  with_logger c (ok handler) = with_profile c (build_profile sys.read sys.decode c)

  abbrev pub with_config : Result Config → List Call
  with_config (err e) = []
  with_config (ok c) = with_logger c (setup_logger c.log_level c.log_format)

  -- main; an error ends it with no further call.
  unfoldable pub main : StringSets → Process → Text → List Text → List Call
  main S p argv0 args = with_config (parse_flags S p argv0 args)
