-- ===== src/Seal/Rules.antt =====
-- rules.go
pub mod Grants
pub mod LeastPrivilege
use podlock.Prelude.{ℕ, Bool, true, false, List, [], ◌∷◌, ◌++◌, Text, length, ltb, if◌then◌else◌}
use podlock.Fallible.{Result, ok, err}
use podlock.Api.{Profile}
use podlock.Seal.Access.{
  AccessFsSet, access_file_r, access_file_rw, access_file_rx, access_file_rwx, access_dir_r,
  access_dir_rw, access_dir_rx, access_dir_rwx,
}

-- landlock.PathAccess(access, paths…)
pub record Rule : Type 0 where
  pub access : AccessFsSet
  pub paths : List Text

-- os.Stat, as far as the code reads it
pub data Stat : Type 0 where
  stat_failed : Stat
  is_file : Stat
  is_dir : Stat

abbrev pub path_access : AccessFsSet → List Text → List Rule
path_access access paths =
    if ltb 0 (length paths) then record { access = access; paths = paths } ∷ [] else []

-- One round of the loop of `processPaths`: a path that cannot be read is skipped.
unfoldable pub place : Stat → Text → List Text × List Text → List Text × List Text
place stat_failed path (files, dirs) = (files, dirs)
place is_dir path (files, dirs) = (files, dirs ++ path ∷ [])
place is_file path (files, dirs) = (files ++ path ∷ [], dirs)

module _ (stat : Text → Stat) where
  -- The loop of `processPaths`, over the files and the directories so far.
  unfoldable pub sort_paths : List Text × List Text → List Text → List Text × List Text
  sort_paths found [] = found
  sort_paths found (path ∷ paths) = sort_paths (place (stat path) path found) paths

  unfoldable pub process_paths : List Text → AccessFsSet → AccessFsSet → List Rule
  process_paths paths dir_access_mode file_access_mode =
      let (files, dirs) = sort_paths ([], []) paths in
      path_access file_access_mode files ++ path_access dir_access_mode dirs

  unfoldable pub profile_to_landlock_rules : Profile → List Rule
  profile_to_landlock_rules p =
      process_paths p.read_only access_dir_r access_file_r
      ++ (process_paths p.read_write access_dir_rw access_file_rw
          ++ (process_paths p.read_exec access_dir_rx access_file_rx
              ++ process_paths p.read_write_exec access_dir_rwx access_file_rwx))

  abbrev pub rules_for_files : Text → Result (List Text) → Result (List Rule)
  rules_for_files binary_path (err e) = err e
  rules_for_files binary_path (ok libs) =
      ok (process_paths (binary_path ∷ libs) access_dir_rx access_file_rx)

  -- `discover` is the argument `discoverLinkedLibsFn`.
  unfoldable pub rules_for_binary_to_run :
      Text → Bool → (Text → Result (List Text)) → Result (List Rule)
  rules_for_binary_to_run binary_path add_linked_libraries discover =
      rules_for_files binary_path (if add_linked_libraries then discover binary_path else ok [])
