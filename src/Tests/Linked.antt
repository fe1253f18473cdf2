-- ===== src/Tests/Linked.antt =====
-- A shell that is run under the seal, which looks for its libraries.
use podlock.Prelude.{
  ◌≡◌, ◌⊎◌, refl, true, List, [], ◌∷◌, Text, codes, contains, text_eq, nat_eq, ◌==◌, if◌then◌else◌,
}
use podlock.Fallible.{ok, err}
use podlock.FilePath.{base, join, clean}
use podlock.Map.{lookup}
use podlock.Sets.{list_sets}
use podlock.Levels.{
  level_info, parse_log_level, unmarshal_level, split_at_sign, base_level, to_upper,
}
use podlock.Seal.Access.{execute, read_file}
use podlock.Seal.Rules.{Rule, is_file}
use podlock.Seal.Rules.Grants.{grants}
use podlock.Seal.Config.{Config, build_profile, profile_from_path}
use podlock.Nri.Paths.{container_profile_path_inside_container}
use podlock.Seal.Logger.{json_handler, setup_logger}
use podlock.Seal.Cli.{Process, parse_flags, wrapper_mode, add_linked_libraries_env_var}
use podlock.Seal.Env.Filter.{where_true, is_passed_on}
use podlock.Seal.Ldd.{class64, detect_file_type, discover_linked_libraries}
use podlock.Seal.Ldd.Entry.{libraries_of}
use podlock.Seal.Main.{System, restrict_paths, exec, main}
use podlock.Seal.Main.Linked.{IsDynamic, IsReady, main-CanLoad}
use podlock.Tests.Data.{nginx, nginx_binaries, sh}
use podlock.Tests.Seal.{sys, listed, listed-IsWellFormed}

abbrev process : Process
process = record {
  getenv = λ key. if key == add_linked_libraries_env_var then codes "1" else [];
  getwd = ok (codes "/");
  look_path = λ name. err (codes "not found");
}

abbrev system : System
system = record {
  environ = [];
  read = λ path. ok (codes "{}");
  decode = λ contents. ok nginx_binaries;
  stat = λ path. is_file;
  discover = discover_linked_libraries sys;
  restrict = λ rules. ok tt;
}

abbrev config : Config
config = wrapper_mode process sh (codes "-c" ∷ [])

parsed : parse_flags list_sets process sh (codes "-c" ∷ []) ≡ ok config
unfolding parse_flags base join clean text_eq
parsed = refl

sh-IsDynamic : IsDynamic sys config.binary_to_run listed
unfolding detect_file_type nat_eq
sh-IsDynamic = record {
  elf_class = class64;
  import = codes "libc.so.6";
  imports = [];
  elf = refl;
  class_read = refl;
  imported = refl;
  printed = refl;
  well_formed = listed-IsWellFormed;
}

process-IsReady : IsReady system list_sets process sh (codes "-c" ∷ []) config parsed
unfolding wrapper_mode build_profile setup_logger parse_log_level unmarshal_level split_at_sign
    base_level to_upper lookup text_eq nat_eq container_profile_path_inside_container join
    profile_from_path
process-IsReady = record {
  handler = json_handler level_info;
  profile = nginx;
  logged = refl;
  built = refl;
  restricted = λ rules. refl;
}

asked : config.add_linked_libraries ≡ true
unfolding wrapper_mode text_eq
asked = refl

main-CanLoad_example :
    (rules : List Rule) × (main system list_sets process sh (codes "-c" ∷ [])
      ≡ restrict_paths rules
        ∷ exec config.binary_to_run
            (config.binary ∷ config.binary_args)
            (where_true is_passed_on [])
        ∷ [])
    × ((path : Text)
        → (path ≡ config.binary_to_run) ⊎ (contains (libraries_of listed) path ≡ true)
        → is_file ≡ is_file
        → (grants rules path execute ≡ true) × (grants rules path read_file ≡ true))
main-CanLoad_example =
    main-CanLoad system list_sets process sh (codes "-c" ∷ []) config parsed sys listed sh-IsDynamic
      refl process-IsReady asked
