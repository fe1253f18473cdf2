-- ===== src/Nri/Paths/Distinct.antt =====
-- The files of a container lie below the directory of its pod, apart from all other files.
use podlock.Prelude.{◌≡◌, ◌≢◌, ◌∙◌, sym, ap, List, [], ◌∷◌, ◌++◌, Text, codes, All, length, arith}
use podlock.FilePath.Components.{IsName, root_path}
use podlock.FilePath.Clean.{root_path-injective, IsCleanAbs}
use podlock.Nri.Paths.{
  swapped_binary_path_inside_container, swapped_binary_path_on_host, landlock_profile_path_on_host,
  podlock_runtime_pod_dir,
}
use podlock.Nri.Paths.Layout.{
  pod_elements, IsName-swapped, IsName-profile, swapped_elements-IsName, podlock_runtime_pod_dir-eq,
  pod_elements-IsName, landlock_profile_path_on_host-eq, swapped_binary_path_on_host-eq,
  swapped_binary_path_inside_container-eq,
}

abbrev swapped : Text → Text → List Text → List Text
swapped p c ws = pod_elements p ++ (c ∷ codes "swapped-binaries" ∷ ws)

abbrev pub profile : Text → Text → List Text
profile p c = pod_elements p ++ (c ∷ codes "profile.json" ∷ [])

swapped-IsName :
    (p c : Text) (ws : List Text)
    → IsName p
    → IsName c
    → All IsName ws
    → All IsName (swapped p c ws)
swapped-IsName p c ws hp hc h =
    pod_elements-IsName p (c ∷ codes "swapped-binaries" ∷ ws) hp (hc, (IsName-swapped, h))

pub profile-IsName : (p c : Text) → IsName p → IsName c → All IsName (profile p c)
profile-IsName p c hp hc =
    pod_elements-IsName p (c ∷ codes "profile.json" ∷ []) hp (hc, (IsName-profile, tt))

swapped-shape :
    (p c b : Text)
    → IsName p
    → IsName c
    → (clean : IsCleanAbs b)
    → swapped_binary_path_on_host p c b ≡ root_path (swapped p c clean.elements)
swapped-shape p c b hp hc clean =
    rw clean.shape (swapped_binary_path_on_host-eq p c hp hc clean.elements clean.names)

-- `p` is `d` or lies in the directory `d`, with no element that leads out of it again.
pub record IsBelow (d p : Text) : Type 0 where
  pub above : List Text
  pub rest : List Text
  pub names : All IsName (above ++ rest)
  pub dir_shape : d ≡ root_path above
  pub path_shape : p ≡ root_path (above ++ rest)

pub profile-IsBelow :
    (pod_id container_name : Text)
    → IsName pod_id
    → IsName container_name
    → IsBelow (podlock_runtime_pod_dir pod_id) (landlock_profile_path_on_host pod_id container_name)
profile-IsBelow pod_id container_name pod ctr = record {
  above = pod_elements pod_id;
  rest = container_name ∷ codes "profile.json" ∷ [];
  names = profile-IsName pod_id container_name pod ctr;
  dir_shape = podlock_runtime_pod_dir-eq pod_id pod;
  path_shape = landlock_profile_path_on_host-eq pod_id container_name pod ctr;
}

-- For proper pod and container names and a clean binary, both files of a container lie below the
-- directory of its pod.
pub files-IsBelow :
    (pod_id container_name binary : Text)
    → IsName pod_id
    → IsName container_name
    → IsCleanAbs binary
    → IsBelow
        (podlock_runtime_pod_dir pod_id)
        (swapped_binary_path_on_host pod_id container_name binary)
      × IsBelow
          (podlock_runtime_pod_dir pod_id)
          (landlock_profile_path_on_host pod_id container_name)
files-IsBelow pod_id container_name binary pod ctr clean = (
  record {
    above = pod_elements pod_id;
    rest = container_name ∷ codes "swapped-binaries" ∷ clean.elements;
    names = swapped-IsName pod_id container_name clean.elements pod ctr clean.names;
    dir_shape = podlock_runtime_pod_dir-eq pod_id pod;
    path_shape = swapped-shape pod_id container_name binary pod ctr clean;
  },
  profile-IsBelow pod_id container_name pod ctr,
)

-- For proper pod and container names and clean binaries, the pod, the container and the binary are
-- determined by the path on the host: no two binaries of any containers share a file.
pub swapped_binary_path_on_host-injective :
    (p c b q d e : Text)
    → IsName p
    → IsName c
    → IsCleanAbs b
    → IsName q
    → IsName d
    → IsCleanAbs e
    → swapped_binary_path_on_host p c b ≡ swapped_binary_path_on_host q d e
    → (p ≡ q) × (c ≡ d) × (b ≡ e)
swapped_binary_path_on_host-injective p c b q d e hp hc hb hq hd he same =
    let elements =
      root_path-injective _ _ (swapped-IsName p c hb.elements hp hc hb.names)
        (swapped-IsName q d he.elements hq hd he.names)
        (sym (swapped-shape p c b hp hc hb) ∙ same ∙ swapped-shape q d e hq hd he) in
    (cc elements, cc elements, hb.shape ∙ ap root_path (cc elements) ∙ sym he.shape)

-- For proper pod and container names and a clean binary, the profile of a container is never in the
-- place of a swapped binary, of the same container or another.
pub profile-ne-swapped :
    (p c q d e : Text)
    → IsName p
    → IsName c
    → IsName q
    → IsName d
    → IsCleanAbs e
    → landlock_profile_path_on_host p c ≢ swapped_binary_path_on_host q d e
profile-ne-swapped p c q d e hp hc hq hd he same =
    let elements =
      root_path-injective _ _ (profile-IsName p c hp hc)
        (swapped-IsName q d he.elements hq hd he.names)
        (sym (landlock_profile_path_on_host-eq p c hp hc) ∙ same ∙ swapped-shape q d e hq hd he) in
    let names : codes "profile.json" ≡ codes "swapped-binaries" = cc elements in
    absurd (omega (arith, ap (λ (w : Text). length w) names))

-- Inside the container no two clean binaries share a place for the swapped binary.
pub swapped_binary_path_inside_container-injective :
    (b e : Text)
    → IsCleanAbs b
    → IsCleanAbs e
    → swapped_binary_path_inside_container b ≡ swapped_binary_path_inside_container e
    → b ≡ e
swapped_binary_path_inside_container-injective b e hb he same =
    let inside = λ (x : Text) (h : IsCleanAbs x).
      ap swapped_binary_path_inside_container h.shape
      ∙ swapped_binary_path_inside_container-eq h.elements h.names in
    let elements =
      root_path-injective _ _ (swapped_elements-IsName hb.elements hb.names)
        (swapped_elements-IsName he.elements he.names) (sym (inside b hb) ∙ same ∙ inside e he) in
    hb.shape ∙ ap root_path (cc elements) ∙ sym he.shape

-- No clean binary is kept in its own place: what the hook is given as target and backup differs.
pub swapped_binary_path_inside_container_ne :
    (b : Text) → IsCleanAbs b → b ≢ swapped_binary_path_inside_container b
swapped_binary_path_inside_container_ne b hb same =
    let inside =
      ap swapped_binary_path_inside_container hb.shape
      ∙ swapped_binary_path_inside_container-eq hb.elements hb.names in
    let elements =
      root_path-injective _ _ hb.names (swapped_elements-IsName hb.elements hb.names)
        (sym hb.shape ∙ same ∙ inside) in
    absurd (omega (arith, ap (λ (ws : List Text). length ws) elements))
