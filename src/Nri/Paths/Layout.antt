-- ===== src/Nri/Paths/Layout.antt =====
-- The elements of the paths, for names that are proper elements and binaries that are clean.
use mathlib.Core.List.{reverse-append, reverse-reverse}
use podlock.Prelude.{◌≡◌, refl, List, [], ◌∷◌, ◌++◌, reverse, Text, codes, All, text_eq, nat_eq}
use podlock.Strings.{split_on}
use podlock.FilePath.{clean_step}
use podlock.FilePath.Components.{IsName, root_path, advance, advance-root_path, advance-name}
use podlock.FilePath.Clean.{join_abs}
use podlock.Nri.Paths.{
  swapped_binary_path_inside_container, swapped_binary_path_on_host, landlock_profile_path_on_host,
  podlock_runtime_pod_dir, podlock_var_run_dir, podlock_container_swapped_binaries_dir,
}

advance-var_run : advance [] podlock_var_run_dir ≡ codes "podlock" ∷ codes "run" ∷ codes "var" ∷ []
unfolding clean_step split_on text_eq
advance-var_run = refl

advance-swapped_binaries :
    advance [] podlock_container_swapped_binaries_dir
    ≡ codes "swapped-binaries" ∷ codes ".podlock" ∷ []
unfolding clean_step split_on text_eq
advance-swapped_binaries = refl

reverse-append_reverse {ℓ} :
    {A : Type ℓ} (xs ys : List A) → reverse (reverse xs ++ ys) ≡ reverse ys ++ xs
reverse-append_reverse xs ys = rw (reverse-append, reverse-reverse)

abbrev pub pod_elements : Text → List Text
pod_elements pod_id = codes "var" ∷ codes "run" ∷ codes "podlock" ∷ pod_id ∷ []

abbrev pub swapped_elements : List Text → List Text
swapped_elements ws = codes ".podlock" ∷ codes "swapped-binaries" ∷ ws

pub IsName-swapped : IsName (codes "swapped-binaries")
unfolding nat_eq
IsName-swapped = (refl, λ e. cc, λ e. cc, λ e. cc)

pub IsName-profile : IsName (codes "profile.json")
unfolding nat_eq
IsName-profile = (refl, λ e. cc, λ e. cc, λ e. cc)

run_names : All IsName (codes "var" ∷ codes "run" ∷ codes "podlock" ∷ [])
unfolding nat_eq
run_names = (
  (refl, λ e. cc, λ e. cc, λ e. cc),
  ((refl, λ e. cc, λ e. cc, λ e. cc), ((refl, λ e. cc, λ e. cc, λ e. cc), tt)),
)

pub swapped_elements-IsName : (ws : List Text) → All IsName ws → All IsName (swapped_elements ws)
unfolding nat_eq
swapped_elements-IsName ws h = ((refl, λ e. cc, λ e. cc, λ e. cc), (IsName-swapped, h))

pub podlock_runtime_pod_dir-eq :
    (pod_id : Text)
    → IsName pod_id
    → podlock_runtime_pod_dir pod_id ≡ root_path (pod_elements pod_id)
unfolding podlock_runtime_pod_dir
podlock_runtime_pod_dir-eq pod_id pod = rw (join_abs, advance-var_run, advance-name _ pod_id pod)

pub pod_elements-IsName :
    (pod_id : Text) (ws : List Text)
    → IsName pod_id
    → All IsName ws
    → All IsName (pod_elements pod_id ++ ws)
pod_elements-IsName pod_id ws pod h = (run_names.0, (run_names.1.0, (run_names.1.1.0, (pod, h))))

module _ (pod_id container_name : Text) (pod : IsName pod_id) (ctr : IsName container_name) where
  pub landlock_profile_path_on_host-eq :
      landlock_profile_path_on_host pod_id container_name
      ≡ root_path (pod_elements pod_id ++ (container_name ∷ codes "profile.json" ∷ []))
  unfolding landlock_profile_path_on_host
  landlock_profile_path_on_host-eq = rw (
    join_abs,
    advance-var_run,
    advance-name _ pod_id pod,
    advance-name _ container_name ctr,
    advance-name _ _ IsName-profile,
  )

  pub swapped_binary_path_on_host-eq :
      (ws : List Text)
      → All IsName ws
      → swapped_binary_path_on_host pod_id container_name (root_path ws)
        ≡ root_path (pod_elements pod_id ++ (container_name ∷ codes "swapped-binaries" ∷ ws))
  unfolding swapped_binary_path_on_host
  swapped_binary_path_on_host-eq ws h = rw (
    join_abs,
    advance-var_run,
    advance-name _ pod_id pod,
    advance-name _ container_name ctr,
    advance-name _ _ IsName-swapped,
    advance-root_path _ ws h,
    reverse-append_reverse,
  )

pub swapped_binary_path_inside_container-eq :
    (ws : List Text)
    → All IsName ws
    → swapped_binary_path_inside_container (root_path ws) ≡ root_path (swapped_elements ws)
unfolding swapped_binary_path_inside_container
swapped_binary_path_inside_container-eq ws h =
    rw (join_abs, advance-swapped_binaries, advance-root_path _ ws h, reverse-append_reverse)
