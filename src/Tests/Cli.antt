-- ===== src/Tests/Cli.antt =====
-- The command line of the seal, and its main.
use podlock.Prelude.{
  All, ◌≢◌, apart, ◌≡◌, refl, false, none, List, [], ◌∷◌, ◌++◌, Text, codes, contains, text_eq,
  nat_eq, ◌==◌, if◌then◌else◌,
}
use podlock.Fallible.{Result, ok, err}
use podlock.Map.{lookup}
use podlock.Api.{ProfileByBinary}
use podlock.FilePath.{base}
use podlock.Strings.{cut_at}
use podlock.Sets.{list_sets, list_sets-IsLawful, from_list, add}
use podlock.Nri.Adjustments.{binary_mount}
use podlock.Seal.Rules.{is_dir}
use podlock.Seal.Config.{Config, build_profile, found_profile}
use podlock.Flags.{parse, step, token}
use podlock.Seal.Flags.{Flags, no_flags, formal, set_string}
use podlock.Seal.Cli.{
  Process, cut_separator, wrapper_mode, native_mode, with_flags, resolve_binary_path,
  log_level_env_var, profile_env_var,
}
use podlock.Seal.Cli.Modes.{Outcome, native_mode-Outcome}
use podlock.Seal.Cli.PathFlags.{
  Level, read_only, read_write, print_flags, paths_of, field, parse-print_flags,
}
use podlock.Seal.Cli.Wrapper.{wrapper_mode_lem}
use podlock.Seal.Main.{System, main}
use podlock.Seal.Main.Named.{with_files, main-unread}
use podlock.Seal.Main.Sealed.{IsSealed, main-IsSealed}
use podlock.Tests.Data.{nginx_binaries, sh, pod_uid, ctr_name}

abbrev process : Process
process = record {
  getenv = λ k. if k == log_level_env_var then codes "debug" else [];
  getwd = ok (codes "/root");
  look_path = λ n. ok (codes "/usr/bin/" ++ n);
}

abbrev command_line : List Text
command_line =
    codes "-ro"
    ∷ codes "/etc"
    ∷ codes "-rw=/tmp"
    ∷ codes "--"
    ∷ codes "cat"
    ∷ codes "--"
    ∷ codes "/etc/passwd"
    ∷ []

abbrev cat_config : Config
cat_config = record {
  add_linked_libraries = false;
  profile_path = [];
  binary = codes "/usr/bin/cat";
  binary_to_run = codes "/usr/bin/cat";
  binary_args = codes "--" ∷ codes "/etc/passwd" ∷ [];
  log_level = codes "debug";
  log_format = [];
  ro_paths = codes "/etc" ∷ [];
  rx_paths = [];
  rw_paths = codes "/tmp" ∷ [];
  rwx_paths = [];
}

native_ok : native_mode list_sets process command_line ≡ ok cat_config
unfolding native_mode with_flags resolve_binary_path cut_separator parse step token formal
    set_string text_eq base cut_at from_list add
native_ok = refl

abbrev given : List (Level × Text)
given = (read_only, codes "/etc") ∷ (read_write, codes "-odd") ∷ (read_only, codes "/usr") ∷ []

given_apart : All (λ a. a ≢ codes "--") (print_flags given)
unfolding text_eq
given_apart =
    let other = λ (a : Text) (h : (a == codes "--") ≡ false). apart a (codes "--") h in
    (
      other (codes "-ro") refl,
      (
        other (codes "/etc") refl,
        (
          other (codes "-rw") refl,
          (other (codes "-odd") refl, (other (codes "-ro") refl, (other (codes "/usr") refl, tt))),
        ),
      ),
    )

native_mode-Outcome_example :
    Outcome list_sets process given (codes "cat" ∷ codes "--" ∷ codes "/etc/passwd" ∷ []) (
      native_mode list_sets process
        (print_flags given ++ (codes "--" ∷ codes "cat" ∷ codes "--" ∷ codes "/etc/passwd" ∷ [])))
native_mode-Outcome_example =
    native_mode-Outcome list_sets process list_sets-IsLawful given
      (codes "cat" ∷ codes "--" ∷ codes "/etc/passwd" ∷ []) given_apart

parse-print_flags_example :
    (g : Flags list_sets) × (parse (formal list_sets) (no_flags list_sets) none (print_flags given)
      ≡ ok g)
    × ((l : Level) (x : Text) → contains (field list_sets l g) x ≡ contains (paths_of l given) x)
parse-print_flags_example = parse-print_flags list_sets list_sets-IsLawful given

abbrev read : Text → Result Text
read p = ok (codes "{}")

abbrev decode : Text → Result ProfileByBinary
decode c = ok nginx_binaries

wrapper_mode_lem_example :
    (build_profile read decode (wrapper_mode process sh (codes "-c" ∷ []))
      ≡ found_profile sh (lookup sh nginx_binaries))
    × ((wrapper_mode process sh (codes "-c" ∷ [])).binary_to_run
        ≡ (binary_mount pod_uid ctr_name sh).destination)
wrapper_mode_lem_example =
    wrapper_mode_lem process read decode (codes "{}") nginx_binaries (unfold text_eq in refl) refl
      refl sh pod_uid ctr_name (codes "-c" ∷ [])

abbrev system : System
system = record {
  environ = codes "PATH=/bin" ∷ codes "SEAL_LOG_LEVEL=debug" ∷ [];
  read = read;
  decode = decode;
  stat = λ p. is_dir;
  discover = λ b. ok [];
  restrict = λ rules. ok tt;
}

main-IsSealed_example :
    IsSealed system list_sets process
      (codes "/usr/bin/seal")
      command_line
      (main system list_sets process (codes "/usr/bin/seal") command_line)
main-IsSealed_example = main-IsSealed system list_sets process (codes "/usr/bin/seal") command_line

named_seal : base (codes "/usr/bin/seal") ≡ codes "seal"
unfolding base text_eq
named_seal = refl

unset : process.getenv profile_env_var ≡ []
unfolding text_eq
unset = refl

-- The profile of the pod cannot be read.
main-unread_example :
    main
      (with_files system (λ path. err (codes "not found")) decode)
      list_sets
      process
      (codes "/usr/bin/seal")
      command_line
    ≡ main system list_sets process (codes "/usr/bin/seal") command_line
main-unread_example =
    main-unread system (λ path. err (codes "not found")) decode list_sets process
      (codes "/usr/bin/seal") command_line named_seal unset
