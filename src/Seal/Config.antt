-- ===== src/Seal/Config.antt =====
-- cmd/seal/config.go
use podlock.Prelude.{
  Option, none, some, List, [], Bool, ◌++◌, Text, codes, ◌==◌, text_eq, if◌then◌else◌,
}
use podlock.Fallible.{wrap_result, Result, ok, err, ◌>>=◌}
use podlock.Map.{lookup}
use podlock.Api.{Profile, ProfileByBinary}

abbrev pub log_format_json : Text
log_format_json = codes "json"

abbrev pub log_format_text : Text
log_format_text = codes "text"

-- LogFormatFlag.Set, as the value that it stores
unfoldable pub set_log_format : Text → Result Text
set_log_format value =
    if value == log_format_json
    then ok value
    else if value == log_format_text
    then ok value
    else if value == codes ""
    then ok log_format_json
    else err (codes "invalid log format: " ++ value)

-- config
pub record Config : Type 0 where
  pub add_linked_libraries : Bool
  pub profile_path : Text
  pub binary : Text
  pub binary_to_run : Text
  pub binary_args : List Text
  pub log_level : Text
  pub log_format : Text
  pub ro_paths : List Text
  pub rx_paths : List Text
  pub rw_paths : List Text
  pub rwx_paths : List Text

abbrev pub found_profile : Text → Option Profile → Result Profile
found_profile binary none = err (codes "cannot find profile for '" ++ (binary ++ codes "'"))
found_profile binary (some profile) = ok profile

-- `read` is os.Open and the reading of the file, and `decode` the JSON decoder.
module _ (read : Text → Result Text) (decode : Text → Result ProfileByBinary) where
  unfoldable pub profile_from_path : Text → Text → Result Profile
  profile_from_path path binary = do
    contents ← wrap_result (codes "cannot open profile '" ++ (path ++ codes "'")) (read path)
    m ←
        wrap_result (codes "cannot unmarshal contents of profile file '" ++ (path ++ codes "'"))
          (decode contents)
    found_profile binary (lookup binary m)

  unfoldable pub build_profile : Config → Result Profile
  build_profile c =
      if c.profile_path == []
      then ok (record {
        read_only = c.ro_paths;
        read_exec = c.rx_paths;
        read_write = c.rw_paths;
        read_write_exec = c.rwx_paths;
      })
      else profile_from_path c.profile_path c.binary
