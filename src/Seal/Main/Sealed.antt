-- ===== src/Seal/Main/Sealed.antt =====
-- The binary runs under the rules of its profile, or not at all.
use podlock.Prelude.{
  ◌≡◌, refl, sym, ◌∙◌, ap₂, subst, true, false, ◌||◌, List, [], ◌∷◌, ◌++◌, Text, contains, text_eq,
  ◌==◌,
}
use podlock.Fallible.{Result, ok, err}
use podlock.Api.{Profile}
use podlock.Sets.{StringSets}
use podlock.Seal.Access.{AccessRight}
use podlock.Seal.Rules.{Rule, profile_to_landlock_rules, rules_for_binary_to_run}
use podlock.Seal.Rules.Grants.{grants, grants-append}
use podlock.Seal.Rules.LeastPrivilege.{
  meant, RunsUnder, libraries, grants-profile, rules_for_binary_to_run_lem,
}
use podlock.Seal.Config.{Config, build_profile}
use podlock.Seal.Logger.{LogHandler, setup_logger}
use podlock.Seal.Cli.{Process, parse_flags}
use podlock.Seal.Env.Filter.{where_true, is_passed_on, sealed_process_env-eq}
use podlock.Seal.Main.{
  Call, restrict_paths, exec, System, after_restriction, with_binary_rules, with_profile,
  with_logger, with_config, main,
}

module _ (sys : System) (S : StringSets) (p : Process) (argv0 : Text) (args : List Text) where
  -- The rules grant what the profile and the running of the binary are meant to, and no more.
  pub record IsLeast (c : Config) (rules : List Rule) : Type 0 where
    pub profile : Profile
    pub libs : List Text
    pub built : build_profile sys.read sys.decode c ≡ ok profile
    pub linked : libraries sys.stat c.binary_to_run c.add_linked_libraries sys.discover ≡ ok libs
    pub least :
        (path : Text) (r : AccessRight)
        → grants rules path r ≡ (
            meant
              (sys.stat path)
              r
              (contains profile.read_only path)
              (contains profile.read_write path)
              (contains profile.read_exec path)
              (contains profile.read_write_exec path)
            || meant
                (sys.stat path)
                r
                false
                false
                (path == c.binary_to_run || contains libs path)
                false)

  -- What ends the seal before its first call.
  pub data StopsEarly : Type 0 where
    bad_command_line : (e : Text) → parse_flags S p argv0 args ≡ err e → StopsEarly
    bad_level :
        (c : Config) (e : Text)
        → parse_flags S p argv0 args ≡ ok c
        → setup_logger c.log_level c.log_format ≡ err e
        → StopsEarly
    no_profile :
        (c : Config) (e : Text)
        → parse_flags S p argv0 args ≡ ok c
        → build_profile sys.read sys.decode c ≡ err e
        → StopsEarly
    no_libraries :
        (c : Config) (e : Text)
        → parse_flags S p argv0 args ≡ ok c
        → c.add_linked_libraries ≡ true
        → sys.discover c.binary_to_run ≡ err e
        → StopsEarly

  -- The runs of the seal: something stops it and it makes no call, or the restriction fails and is
  -- the last one, or it succeeds and the binary is executed.
  pub data IsSealed : List Call → Type 0 where
    stopped : StopsEarly → IsSealed []
    refused :
        (c : Config) (rules : List Rule) (e : Text)
        → parse_flags S p argv0 args ≡ ok c
        → IsLeast c rules
        → sys.restrict rules ≡ err e
        → IsSealed (restrict_paths rules ∷ [])
    sealed :
        (c : Config) (rules : List Rule)
        → parse_flags S p argv0 args ≡ ok c
        → IsLeast c rules
        → sys.restrict rules ≡ ok tt
        → IsSealed (
            restrict_paths rules
            ∷ exec c.binary_to_run (c.binary ∷ c.binary_args) (where_true is_passed_on sys.environ)
            ∷ [])

  rules-IsSealed :
      (c : Config) (rules : List Rule) (o : Result (Unit {0}))
      → parse_flags S p argv0 args ≡ ok c
      → IsLeast c rules
      → sys.restrict rules ≡ o
      → IsSealed (restrict_paths rules ∷ after_restriction sys c o)
  rules-IsSealed c rules (err e) parsed least h = refused c rules e parsed least h
  rules-IsSealed c rules (ok _) parsed least h =
      subst
        (λ (env : List Text).
          IsSealed
            (restrict_paths rules ∷ exec c.binary_to_run (c.binary ∷ c.binary_args) env ∷ []))
        (sym (sealed_process_env-eq sys.environ)) (sealed c rules parsed least h)

  binary_rules-IsSealed :
      (c : Config) (profile : Profile) (o : Result (List Rule))
      → parse_flags S p argv0 args ≡ ok c
      → build_profile sys.read sys.decode c ≡ ok profile
      → RunsUnder sys.stat c.binary_to_run c.add_linked_libraries sys.discover o
      → IsSealed (with_binary_rules sys c (profile_to_landlock_rules sys.stat profile) o)
  binary_rules-IsSealed c profile (err e) parsed built under =
      stopped (no_libraries c e parsed under.0 under.1)
  binary_rules-IsSealed c profile (ok rules) parsed built (libs, linked, rights) =
      let own = profile_to_landlock_rules sys.stat profile in
      rules-IsSealed c (own ++ rules) (sys.restrict (own ++ rules)) parsed
        (record {
          profile = profile;
          libs = libs;
          built = built;
          linked = linked;
          least = λ path r.
              grants-append own rules path r
              ∙ ap₂ ◌||◌ (grants-profile sys.stat profile path r) (rights path r);
        })
        refl

  profile-IsSealed :
      (c : Config) (o : Result Profile)
      → parse_flags S p argv0 args ≡ ok c
      → build_profile sys.read sys.decode c ≡ o
      → IsSealed (with_profile sys c o)
  profile-IsSealed c (err e) parsed built = stopped (no_profile c e parsed built)
  profile-IsSealed c (ok profile) parsed built =
      binary_rules-IsSealed c profile
        (rules_for_binary_to_run sys.stat c.binary_to_run c.add_linked_libraries sys.discover)
        parsed built
        (rules_for_binary_to_run_lem sys.stat c.binary_to_run c.add_linked_libraries sys.discover)

  logger-IsSealed :
      (c : Config) (o : Result LogHandler)
      → parse_flags S p argv0 args ≡ ok c
      → setup_logger c.log_level c.log_format ≡ o
      → IsSealed (with_logger sys c o)
  logger-IsSealed c (err e) parsed h = stopped (bad_level c e parsed h)
  logger-IsSealed c (ok handler) parsed h =
      profile-IsSealed c (build_profile sys.read sys.decode c) parsed refl

  config-IsSealed :
      (o : Result Config) → parse_flags S p argv0 args ≡ o → IsSealed (with_config sys o)
  config-IsSealed (err e) parsed = stopped (bad_command_line e parsed)
  config-IsSealed (ok c) parsed =
      logger-IsSealed c (setup_logger c.log_level c.log_format) parsed refl

  -- The seal makes no call only if the command line, the level of the log, the profile or the
  -- discovery of the libraries stops it. Otherwise it restricts itself by rules that grant exactly
  -- what the levels of the profile give and, of the binary and its libraries, reading and execution;
  -- and it executes the binary, with the arguments of the configuration and no variable of the seal,
  -- exactly if the restriction succeeds.
  pub main-IsSealed : IsSealed (main sys S p argv0 args)
  unfolding main
  main-IsSealed = config-IsSealed (parse_flags S p argv0 args) refl
