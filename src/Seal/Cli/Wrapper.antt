-- ===== src/Seal/Cli/Wrapper.antt =====
-- The wrapper mode reads what the plugin has written, and runs what the hook has kept.
use podlock.Prelude.{◌≡◌, ◌≢◌, sym, refl, ◌∙◌, ap, List, [], Text, codes, arith, text_eq}
use podlock.Fallible.{Result, ok}
use podlock.Map.{lookup}
use podlock.Api.{ProfileByBinary}
use podlock.FilePath.{join, clean}
use podlock.Nri.Paths.{container_profile_path_inside_container}
use podlock.Nri.Adjustments.{binary_mount}
use podlock.Seal.Config.{Config, build_profile, profile_from_path, found_profile}
use podlock.Seal.Cli.{Process, wrapper_mode, profile_env_var}

-- The place is a fixed one.
container_profile_path : container_profile_path_inside_container ≡ codes "/.podlock/profile.json"
unfolding container_profile_path_inside_container join clean text_eq
container_profile_path = refl

profile_from_path-eq :
    (read : Text → Result Text) (decode : Text → Result ProfileByBinary)
    (path binary contents : Text) (m : ProfileByBinary)
    → read path ≡ ok contents
    → decode contents ≡ ok m
    → profile_from_path read decode path binary ≡ found_profile binary (lookup binary m)
unfolding profile_from_path
profile_from_path-eq read decode path binary contents m h d = rw h (rw d refl)

-- A configuration with a path takes its profile from there.
build_profile-eq :
    (read : Text → Result Text) (decode : Text → Result ProfileByBinary) (c : Config)
    → c.profile_path ≢ []
    → build_profile read decode c ≡ profile_from_path read decode c.profile_path c.binary
unfolding build_profile
build_profile-eq read decode c h = ground arith

module _ (p : Process) (read : Text → Result Text) (decode : Text → Result ProfileByBinary)
    (contents : Text) (m : ProfileByBinary) where
  -- If no variable names another file, and the file that the plugin has mounted holds the profiles
  -- of the container, a binary gets its profile among them, or an error if it has none there, and
  -- what is run is the destination of the mount for it.
  pub wrapper_mode_lem :
      p.getenv profile_env_var ≡ []
      → read container_profile_path_inside_container ≡ ok contents
      → decode contents ≡ ok m
      → (binary pod_id container_name : Text) (binary_args : List Text)
      → (build_profile read decode (wrapper_mode p binary binary_args)
          ≡ found_profile binary (lookup binary m))
        × ((wrapper_mode p binary binary_args).binary_to_run
            ≡ (binary_mount pod_id container_name binary).destination)
  unfolding wrapper_mode binary_mount
  wrapper_mode_lem unset at_path decoded binary pod_id container_name binary_args =
      let c = wrapper_mode p binary binary_args in
      let place : c.profile_path ≡ container_profile_path_inside_container =
        ground (arith, unset) in
      let there : c.profile_path ≢ [] =
        λ e. absurd (cc (sym container_profile_path ∙ sym place ∙ e)) in
      (
        build_profile-eq read decode c there
            ∙ profile_from_path-eq read decode c.profile_path binary contents m
                (ap read place ∙ at_path) decoded,
        refl,
      )
