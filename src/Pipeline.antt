-- ===== src/Pipeline.antt =====
-- The parts of the program together: from CreateContainer of the plugin to the calls that the seal
-- makes when a binary of the container is run.
pub mod Confined
pub mod Hooks
pub mod Admitted
pub mod Created
pub mod Later
pub mod Served
pub mod Clash
use podlock.Prelude.{
  ◌≡◌, ◌≢◌, refl, sym, ap, ◌∙◌, subst, Bool, true, false, not, ◌||◌, Option, none, some, List, [],
  ◌∷◌, Text, codes, All, contains, ◌==◌, text_eq, arith, if◌then◌else◌,
}
use podlock.Fallible
use podlock.Map.{lookup}
use podlock.Io.{Result, ok}
use podlock.FilePath.{base}
use podlock.Api.{Profile, ProfileByBinary, LandlockProfile}
use podlock.Sets.{StringSets}
use podlock.Levels.{Level, parse_log_level}
use podlock.Controller.Client.{ObjectKey, pod_profile_label}
use podlock.Nri.HostFs.{HostFs, Contents, IsLawful}
use podlock.Nri.Paths.{
  container_profile_path_inside_container, landlock_profile_path_on_host,
  swapped_binary_path_inside_container,
}
use podlock.Nri.Adjustments.{Mount, ContainerAdjustment, create_container_adjustment, bind_mount}
use podlock.Nri.Adjustments.Wiring.{create_container_adjustment_lem}
use podlock.Nri.Plugin.{PodSandbox, Container, profile_of, create_container}
use podlock.Nri.Plugin.Create.{
  IsAdjusted, Outcome, adjusted, unlabelled, unprofiled, create_container-ok,
}
use podlock.Seal.Access.{AccessRight}
use podlock.Seal.Rules.{Rule}
use podlock.Seal.Rules.Grants.{grants}
use podlock.Seal.Rules.LeastPrivilege.{meant, libraries}
use podlock.Seal.Config.{Config, build_profile, found_profile}
use podlock.Seal.Logger.{LogHandler, setup_logger}
use podlock.Seal.Env.Filter.{where_true, is_passed_on}
use podlock.Seal.Cli.{
  Process, absolute, parse_flags, wrapper_mode, profile_env_var, log_level_env_var,
  add_linked_libraries_env_var,
}
use podlock.Seal.Cli.Wrapper.{wrapper_mode_lem}
use podlock.Seal.Main.{Call, restrict_paths, exec, System, main}
use podlock.Seal.Main.Sealed.{
  IsSealed, stopped, refused, sealed, StopsEarly, bad_command_line, bad_level, no_profile,
  no_libraries, IsLeast, main-IsSealed,
}

-- What the seal does for a binary with these profiles: if there is none for the binary it makes no
-- call, and otherwise it restricts itself to what the profile gives and to the running of the
-- binary that the hook has kept, before it executes that binary.
module _ (sys : System) (p : Process) (m : ProfileByBinary) (binary : Text) (args : List Text) where
  abbrev pub kept : Text
  kept = swapped_binary_path_inside_container binary

  abbrev pub links : Bool
  links = not (p.getenv add_linked_libraries_env_var == [])

  pub record IsGranted (rules : List Rule) : Type 0 where
    pub profile : Profile
    pub listed : lookup binary m ≡ some profile
    pub libs : List Text
    pub linked : libraries sys.stat kept links sys.discover ≡ podlock.Fallible.ok libs
    pub least :
        (path : Text) (r : AccessRight)
        → grants rules path r ≡ (
            meant
              (sys.stat path)
              r
              (contains profile.read_only path)
              (contains profile.read_write path)
              (contains profile.read_exec path)
              (contains profile.read_write_exec path)
            || meant (sys.stat path) r false false (path == kept || contains libs path) false)

  pub data IsConfined : List Call → Type 0 where
    unlisted : lookup binary m ≡ none → IsConfined []
    undiscovered :
        (e : Text) → links ≡ true → sys.discover kept ≡ podlock.Fallible.err e → IsConfined []
    unrestricted :
        (rules : List Rule) (e : Text)
        → IsGranted rules
        → sys.restrict rules ≡ podlock.Fallible.err e
        → IsConfined (restrict_paths rules ∷ [])
    executed :
        (rules : List Rule)
        → IsGranted rules
        → sys.restrict rules ≡ podlock.Fallible.ok tt
        → IsConfined (
            restrict_paths rules
            ∷ exec kept (binary ∷ args) (where_true is_passed_on sys.environ)
            ∷ [])

  found-listed :
      (o : Option Profile) (profile : Profile)
      → found_profile binary o ≡ podlock.Fallible.ok profile
      → o ≡ some profile
  found-listed none profile h = absurd (cc)
  found-listed (some q) profile h = cc

  found-unlisted :
      (o : Option Profile) (e : Text) → found_profile binary o ≡ podlock.Fallible.err e → o ≡ none
  found-unlisted none e h = refl
  found-unlisted (some q) e h = absurd (cc)

  module _ (S : StringSets) (argv0 : Text)
      (parsed : parse_flags S p argv0 args ≡ podlock.Fallible.ok (wrapper_mode p binary args))
      (built : build_profile sys.read sys.decode (wrapper_mode p binary args)
        ≡ found_profile binary (lookup binary m)) where
    abbrev config : Config
    config = wrapper_mode p binary args

    same_config : (c : Config) → parse_flags S p argv0 args ≡ podlock.Fallible.ok c → config ≡ c
    same_config c h =
        ap
          (λ (r : podlock.Fallible.Result Config). elim r [
            | podlock.Fallible.ok x ↦ x
            | podlock.Fallible.err e ↦ config
          ])
          (sym parsed ∙ h)

    granted : (rules : List Rule) → IsLeast sys S p argv0 args config rules → IsGranted rules
    unfolding wrapper_mode
    granted rules l = record {
      profile = l.profile;
      listed = found-listed (lookup binary m) l.profile (sym built ∙ l.built);
      libs = l.libs;
      linked = l.linked;
      least = l.least;
    }

    sealed-IsConfined :
        (handler : LogHandler)
        → setup_logger config.log_level config.log_format ≡ podlock.Fallible.ok handler
        → (calls : List Call) → IsSealed sys S p argv0 args calls
        → IsConfined calls
    unfolding wrapper_mode
    sealed-IsConfined handler logged _ (stopped (bad_command_line e h)) = absurd (cc)
    sealed-IsConfined handler logged _ (stopped (bad_level c e h failed)) =
        let refuses =
          subst (λ (x : Config). setup_logger x.log_level x.log_format ≡ podlock.Fallible.err e)
            (sym (same_config c h)) failed in
        absurd (cc (sym logged ∙ refuses))
    sealed-IsConfined handler logged _ (stopped (no_profile c e h failed)) =
        let unbuilt =
          subst (λ (x : Config). build_profile sys.read sys.decode x ≡ podlock.Fallible.err e)
            (sym (same_config c h)) failed in
        unlisted (found-unlisted (lookup binary m) e (sym built ∙ unbuilt))
    sealed-IsConfined handler logged _ (stopped (no_libraries c e h linking failed)) =
        subst
          (λ (x : Config).
            x.add_linked_libraries ≡ true
            → sys.discover x.binary_to_run ≡ podlock.Fallible.err e
            → IsConfined [])
          (same_config c h) (undiscovered e) linking failed
    sealed-IsConfined handler logged _ (refused c rules e h least failed) =
        subst
          (λ (x : Config).
            IsLeast sys S p argv0 args x rules → IsConfined (restrict_paths rules ∷ []))
          (same_config c h) (λ l. unrestricted rules e (granted rules l) failed) least
    sealed-IsConfined handler logged _ (sealed c rules h least restricted) =
        subst
          (λ (x : Config).
            IsLeast sys S p argv0 args x rules
            → IsConfined (
                restrict_paths rules
                ∷ exec x.binary_to_run (x.binary ∷ x.binary_args)
                    (where_true is_passed_on sys.environ)
                ∷ []))
          (same_config c h) (λ l. executed rules (granted rules l) restricted) least
