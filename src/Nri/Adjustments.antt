-- ===== src/Nri/Adjustments.antt =====
-- adjustments.go. What the API of NRI adds to an adjustment stands in lists, in the order of the
-- calls.
pub mod Wiring
use podlock.Prelude.{List, [], ◌∷◌, ◌++◌, map, Text, codes}
use podlock.Api.{Profile, ProfileByBinary}
use podlock.Nri.Paths.{
  seal_binary_path_container, seal_binary_path_host, container_profile_path_inside_container,
  landlock_profile_path_on_host, swapped_binary_path_on_host, swapped_binary_path_inside_container,
  swap_oci_hook_binary_path_host,
}

-- api.Mount
pub record Mount : Type 0 where
  pub destination : Text
  pub source : Text
  pub options : List Text
  pub type_ : Text

-- api.Hook
pub record Hook : Type 0 where
  pub path : Text
  pub args : List Text

-- The part of api.ContainerAdjustment that is filled in: `hooks` are those of `CreateContainer`.
pub record ContainerAdjustment : Type 0 where
  pub mounts : List Mount
  pub hooks : List Hook
  pub env : List (Text × Text)

abbrev pub mount_options : List Text
mount_options = codes "rprivate" ∷ codes "rbind" ∷ codes "ro" ∷ []

abbrev pub bind_mount : Text → Text → Mount
bind_mount destination source = record {
  destination = destination;
  source = source;
  options = mount_options;
  type_ = codes "bind";
}

-- seal.LogLevelEnvVar (internal/seal/constants.go)
abbrev pub log_level_env_var : Text
log_level_env_var = codes "SEAL_LOG_LEVEL"

unfoldable pub binary_mount : Text → Text → Text → Mount
binary_mount pod_id container_name binary =
    bind_mount (swapped_binary_path_inside_container binary)
      (swapped_binary_path_on_host pod_id container_name binary)

unfoldable pub binary_hook : Text → Hook
binary_hook binary = record {
  path = swap_oci_hook_binary_path_host;
  args =
      codes "swap-oci-hook"
      ∷ codes "-target"
      ∷ binary
      ∷ codes "-backup"
      ∷ swapped_binary_path_inside_container binary
      ∷ [];
}

-- The loop over the binaries, over the mounts and the hooks so far.
unfoldable pub add_binaries :
    Text → Text → ProfileByBinary → List Mount × List Hook → List Mount × List Hook
add_binaries pod_id container_name [] (mounts, hooks) = (mounts, hooks)
add_binaries pod_id container_name ((binary, profile) ∷ m) (mounts, hooks) =
    add_binaries pod_id container_name m
      (mounts ++ binary_mount pod_id container_name binary ∷ [], hooks ++ binary_hook binary ∷ [])

unfoldable pub create_container_adjustment :
    Text → Text → ProfileByBinary → Text → ContainerAdjustment
unfolding add_binaries binary_mount binary_hook
create_container_adjustment pod_id container_name m log_level =
    let seal_mount = bind_mount seal_binary_path_container seal_binary_path_host in
    let profile_mount =
      bind_mount container_profile_path_inside_container
        (landlock_profile_path_on_host pod_id container_name) in
    let (mounts, hooks) =
      add_binaries pod_id container_name m (seal_mount ∷ profile_mount ∷ [], []) in
    record { mounts = mounts; hooks = hooks; env = (log_level_env_var, log_level) ∷ [] }
