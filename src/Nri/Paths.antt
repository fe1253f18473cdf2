-- ===== src/Nri/Paths.antt =====
-- Where the plugin puts its files: constants.go and the path functions of filesystem.go.
pub mod Layout
pub mod Distinct
pub mod Files
use podlock.Prelude.{List, [], ◌∷◌, Text, codes}
use podlock.FilePath.{join}

abbrev pub seal_binary_path_host : Text
seal_binary_path_host = codes "/opt/podlock/bin/seal"

abbrev pub swap_oci_hook_binary_path_container : Text
swap_oci_hook_binary_path_container = codes "/swap-oci-hook"

abbrev pub swap_oci_hook_binary_path_host : Text
swap_oci_hook_binary_path_host = codes "/opt/podlock/bin/swap-oci-hook"

abbrev pub podlock_container_data_dir : Text
podlock_container_data_dir = codes "/.podlock/"

abbrev pub podlock_container_swapped_binaries_dir : Text
podlock_container_swapped_binaries_dir = codes "/.podlock/swapped-binaries/"

abbrev pub podlock_var_run_dir : Text
podlock_var_run_dir = codes "/var/run/podlock/"

abbrev pub container_profile_name : Text
container_profile_name = codes "profile.json"

unfoldable pub seal_binary_path_container : Text
seal_binary_path_container = join (podlock_container_data_dir ∷ codes "bin" ∷ codes "seal" ∷ [])

unfoldable pub container_profile_path_inside_container : Text
container_profile_path_inside_container =
    join (podlock_container_data_dir ∷ container_profile_name ∷ [])

unfoldable pub swapped_binary_path_inside_container : Text → Text
swapped_binary_path_inside_container binary =
    join (podlock_container_swapped_binaries_dir ∷ binary ∷ [])

unfoldable pub swapped_binary_path_on_host : Text → Text → Text → Text
swapped_binary_path_on_host pod_id container_name binary =
    join (podlock_var_run_dir ∷ pod_id ∷ container_name ∷ codes "swapped-binaries" ∷ binary ∷ [])

unfoldable pub landlock_profile_path_on_host : Text → Text → Text
landlock_profile_path_on_host pod_id container_name =
    join (podlock_var_run_dir ∷ pod_id ∷ container_name ∷ container_profile_name ∷ [])

-- The argument of os.RemoveAll in RemoveContainer.
unfoldable pub podlock_runtime_pod_dir : Text → Text
podlock_runtime_pod_dir pod_id = join (podlock_var_run_dir ∷ pod_id ∷ [])
