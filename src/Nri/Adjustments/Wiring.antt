-- ===== src/Nri/Adjustments/Wiring.antt =====
-- How the mounts and the hooks of an adjustment fit together.
use mathlib.Core.List.{append_assoc, append-nil}
use podlock.Prelude.{◌≡◌, refl, sym, ap, subst, List, [], ◌∷◌, ◌++◌, map, Text, codes}
use podlock.Api.{Profile, ProfileByBinary}
use podlock.Nri.Paths.{
  seal_binary_path_container, seal_binary_path_host, container_profile_path_inside_container,
  landlock_profile_path_on_host, swapped_binary_path_on_host, swap_oci_hook_binary_path_host,
}
use podlock.Nri.Adjustments.{
  Mount, Hook, bind_mount, binary_mount, binary_hook, add_binaries, log_level_env_var,
  create_container_adjustment,
}

-- The wiring of one binary: its file of the host is mounted, read-only, in the place that the hook
-- is told to exchange the binary with.
pub record IsWired (pod_id container_name binary : Text) (mount : Mount) (hook : Hook)
    : Type 0 where
  pub source : mount.source ≡ swapped_binary_path_on_host pod_id container_name binary
  pub options : mount.options ≡ codes "rprivate" ∷ codes "rbind" ∷ codes "ro" ∷ []
  pub hook_path : hook.path ≡ swap_oci_hook_binary_path_host
  pub hook_args :
      hook.args
      ≡ codes "swap-oci-hook" ∷ codes "-target" ∷ binary ∷ codes "-backup" ∷ mount.destination ∷ []

-- One mount and one hook for each binary, in the same order.
pub data AreWired (pod_id container_name : Text)
    : ProfileByBinary → List Mount → List Hook → Type 0 where
  wired_nil : AreWired pod_id container_name [] [] []
  wired_cons :
      {binary : Text} {profile : Profile} {m : ProfileByBinary} {mount : Mount} {hook : Hook}
      {mounts : List Mount} {hooks : List Hook}
      → IsWired pod_id container_name binary mount hook
      → AreWired pod_id container_name m mounts hooks
      → AreWired pod_id container_name ((binary, profile) ∷ m) (mount ∷ mounts) (hook ∷ hooks)

add_binaries-eq :
    (p c : Text) (m : ProfileByBinary) (mounts : List Mount) (hooks : List Hook)
    → add_binaries p c m (mounts, hooks)
      ≡ (mounts ++ map (λ e. binary_mount p c e.0) m, hooks ++ map (λ e. binary_hook e.0) m)
unfolding add_binaries
add_binaries-eq p c [] mounts hooks = rw (append-nil, append-nil) refl
add_binaries-eq p c ((b, profile) ∷ m) mounts hooks =
    rw (add_binaries-eq p c m (mounts ++ binary_mount p c b ∷ []) (hooks ++ binary_hook b ∷ []))
      (simp append_assoc)

map-AreWired :
    (p c : Text) (m : ProfileByBinary)
    → AreWired p c m (map (λ e. binary_mount p c e.0) m) (map (λ e. binary_hook e.0) m)
unfolding binary_mount binary_hook
map-AreWired p c [] = wired_nil
map-AreWired p c ((b, profile) ∷ m) =
    wired_cons (record { source = refl; options = refl; hook_path = refl; hook_args = refl })
      (map-AreWired p c m)

-- The adjustment mounts the seal binary and the profile of the container where the seal looks for
-- them, then for each binary, in order, its file of the host, all read-only, and has one hook for
-- each binary, which is told to exchange the binary with the place of just that mount; the level of
-- the log is handed on.
pub create_container_adjustment_lem :
    (pod_id container_name : Text) (m : ProfileByBinary) (log_level : Text)
    → let a = create_container_adjustment pod_id container_name m log_level in
      (mounts : List Mount) × AreWired pod_id container_name m mounts a.hooks
      × (a.mounts
          ≡ bind_mount seal_binary_path_container seal_binary_path_host
            ∷ bind_mount container_profile_path_inside_container
                (landlock_profile_path_on_host pod_id container_name)
            ∷ mounts)
      × (a.env ≡ (log_level_env_var, log_level) ∷ [])
unfolding create_container_adjustment
create_container_adjustment_lem p c m log_level =
    let e =
      add_binaries-eq p c m
        (bind_mount seal_binary_path_container seal_binary_path_host
          ∷ bind_mount container_profile_path_inside_container (landlock_profile_path_on_host p c)
          ∷ [])
        [] in
    (
      map (λ e. binary_mount p c e.0) m,
      subst (AreWired p c m _) (sym (ap (λ x. x.1) e)) (map-AreWired p c m),
      ap (λ x. x.0) e,
      refl,
    )

-- The hooks of an adjustment are those of its binaries, in order.
pub create_container_adjustment-hooks :
    (pod_id container_name : Text) (m : ProfileByBinary) (log_level : Text)
    → (create_container_adjustment pod_id container_name m log_level).hooks
      ≡ map (λ (e : Text × Profile). binary_hook e.0) m
unfolding create_container_adjustment
create_container_adjustment-hooks p c m log_level =
    ap (λ (x : List Mount × List Hook). x.1)
      (add_binaries-eq p c m
        (bind_mount seal_binary_path_container seal_binary_path_host
          ∷ bind_mount container_profile_path_inside_container (landlock_profile_path_on_host p c)
          ∷ [])
        [])
