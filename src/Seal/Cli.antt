-- ===== src/Seal/Cli.antt =====
-- cmd/seal/cli.go: how the command line and the environment give a configuration.
pub mod Separator
pub mod Given
pub mod Modes
pub mod PathFlags
pub mod Wrapper
use podlock.Prelude.{
  Bool, true, false, not, ◌||◌, ◌&&◌, Option, none, some, List, [], ◌∷◌, Text, codes, ◌==◌, text_eq,
  if◌then◌else◌,
}
use podlock.Fallible.{Result, ok, err, ◌>>=◌, wrap_result}
use podlock.FilePath.{base, is_local, abs, clean}
use podlock.Sets.{StringSets}
use podlock.Nri.Paths.{
  container_profile_path_inside_container, swapped_binary_path_inside_container,
}
pub use podlock.Nri.Adjustments.{log_level_env_var}
use podlock.Seal.Config.{Config, log_format_json}
use podlock.Flags.{parse, step, token, waits}
use podlock.Seal.Flags.{Flags, no_flags, list_of, formal}

abbrev pub profile_env_var : Text
profile_env_var = codes "SEAL_PROFILE_PATH"

abbrev pub log_format_env_var : Text
log_format_env_var = codes "SEAL_LOG_FORMAT"

abbrev pub add_linked_libraries_env_var : Text
add_linked_libraries_env_var = codes "SEAL_ADD_LINKED_LIBRARIES"

-- What stands before the first `--`, and what stands after it; nothing, if there is none.
unfoldable pub cut_separator : List Text → List Text × List Text
cut_separator [] = ([], [])
cut_separator (arg ∷ args) =
    let (before, after) = cut_separator args in
    if arg == codes "--" then ([], args) else (arg ∷ before, after)

-- The binary and its arguments: the empty text, if there is nothing.
abbrev pub command_of : List Text → Text × List Text
command_of [] = ([], [])
command_of (binary ∷ args) = (binary, args)

-- The value of a variable that is not empty, or else another value.
abbrev pub env_or : Text → Text → Text
env_or value default_value = if value == [] then default_value else value

-- What the process knows: os.Getenv, os.Getwd, and exec.LookPath.
pub record Process : Type 0 where
  pub getenv : Text → Text
  pub getwd : Result Text
  pub look_path : Text → Result Text

-- filepath.Abs, which asks for the directory of the process only if the path is not absolute
abbrev pub absolute : Process → Text → Result Text
absolute p path =
    if podlock.FilePath.is_abs path then ok (clean path) else p.getwd >>= λ cwd. ok (abs cwd path)

-- resolveBinaryPath; the texts that wrap an error name no path here.
unfoldable pub resolve_binary_path : Process → Text → Result Text
resolve_binary_path p binary =
    if base binary == binary
    then wrap_result (codes "could not find binary in PATH") (p.look_path binary)
    else if is_local binary
    then wrap_result (codes "could not determine absolute path of binary") (absolute p binary)
    else ok (clean binary)

-- wrapperMoode
unfoldable pub wrapper_mode : Process → Text → List Text → Config
wrapper_mode p binary binary_args = record {
  profile_path = env_or (p.getenv profile_env_var) container_profile_path_inside_container;
  log_level = env_or (p.getenv log_level_env_var) (codes "INFO");
  log_format = env_or (p.getenv log_format_env_var) log_format_json;
  binary = binary;
  binary_to_run = swapped_binary_path_inside_container binary;
  binary_args = binary_args;
  add_linked_libraries = not (p.getenv add_linked_libraries_env_var == []);
  ro_paths = [];
  rx_paths = [];
  rw_paths = [];
  rwx_paths = [];
}

abbrev pub is_nonempty : List Text → Bool
is_nonempty [] = false
is_nonempty (x ∷ xs) = true

module _ (S : StringSets) (p : Process) where
  -- Some flag gives a path.
  abbrev pub has_paths : Flags S → Bool
  has_paths f =
      is_nonempty (list_of S f.ro)
      || is_nonempty (list_of S f.rx)
      || is_nonempty (list_of S f.rw_)
      || is_nonempty (list_of S f.rwx)

  abbrev pub native_config : Flags S → List Text → Text → Config
  native_config f binary_args path = record {
    profile_path = p.getenv profile_env_var;
    log_level = env_or (p.getenv log_level_env_var) f.log_level;
    log_format = env_or (p.getenv log_format_env_var) f.log_format;
    ro_paths = list_of S f.ro;
    rx_paths = list_of S f.rx;
    rw_paths = list_of S f.rw_;
    rwx_paths = list_of S f.rwx;
    binary = path;
    binary_to_run = path;
    binary_args = binary_args;
    add_linked_libraries = f.ldd || not (p.getenv add_linked_libraries_env_var == []);
  }

  -- What follows the parsing of the flags.
  unfoldable pub with_flags : Text → List Text → Flags S → Result Config
  with_flags binary binary_args f =
      if has_paths f && not (p.getenv profile_env_var == [])
      then err (codes "cannot use --profile together with --ro, --rx, --rw, or --rwx")
      else if binary == []
      then err (codes "no binary specified to run; use -- to separate flags and binary")
      else resolve_binary_path p binary >>= λ path. ok (native_config f binary_args path)

  -- nativeMode
  unfoldable pub native_mode : List Text → Result Config
  native_mode args =
      let (flag_args, command) = cut_separator args in
      let (binary, binary_args) = command_of command in
      wrap_result (codes "could not parse flags") (parse (formal S) (no_flags S) none flag_args)
      >>= with_flags binary binary_args

  -- parseFlags, of os.Args
  unfoldable pub parse_flags : Text → List Text → Result Config
  parse_flags argv0 args =
      if base argv0 == codes "seal"
      then native_mode args
      else wrap_result (codes "could not determine absolute path of binary") (absolute p argv0)
        >>= λ binary. ok (wrapper_mode p binary args)
