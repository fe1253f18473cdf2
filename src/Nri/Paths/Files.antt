-- ===== src/Nri/Paths/Files.antt =====
-- The files that the plugin makes for a container, and whose they are.
use podlock.Prelude.{◌≡◌, sym, ◌∙◌, ap, subst, [], ◌++◌, Text, All-front}
use podlock.FilePath.Components.{IsName}
use podlock.FilePath.Clean.{root_path-injective, IsCleanAbs}
use podlock.Nri.Paths.{
  swapped_binary_path_on_host, landlock_profile_path_on_host, podlock_runtime_pod_dir,
}
use podlock.Nri.Paths.Layout.{
  pod_elements, pod_elements-IsName, podlock_runtime_pod_dir-eq, landlock_profile_path_on_host-eq,
}
use podlock.Nri.Paths.Distinct.{
  IsBelow, profile-IsName, profile-IsBelow, files-IsBelow, profile-ne-swapped,
  swapped_binary_path_on_host-injective,
}

-- The profile of the container, and the empty files over which its binaries are mounted.
pub data IsFileOf (pod_id container_name path : Text) : Type 0 where
  profile_file :
      path ≡ landlock_profile_path_on_host pod_id container_name
      → IsFileOf pod_id container_name path
  swapped_file :
      (binary : Text)
      → IsCleanAbs binary
      → path ≡ swapped_binary_path_on_host pod_id container_name binary
      → IsFileOf pod_id container_name path

pub IsFileOf-IsBelow :
    (p c x : Text) → IsName p → IsName c → IsFileOf p c x → IsBelow (podlock_runtime_pod_dir p) x
IsFileOf-IsBelow p c x hp hc (profile_file e) =
    subst (IsBelow (podlock_runtime_pod_dir p)) (sym e) (profile-IsBelow p c hp hc)
IsFileOf-IsBelow p c x hp hc (swapped_file b clean e) =
    subst (IsBelow (podlock_runtime_pod_dir p)) (sym e) (files-IsBelow p c b hp hc clean).0

landlock_profile_path_on_host-injective :
    (p c q d : Text)
    → IsName p
    → IsName c
    → IsName q
    → IsName d
    → landlock_profile_path_on_host p c ≡ landlock_profile_path_on_host q d
    → (p ≡ q) × (c ≡ d)
landlock_profile_path_on_host-injective p c q d hp hc hq hd same =
    let elements = root_path-injective _ _ (profile-IsName p c hp hc) (profile-IsName q d hq hd) (
      sym (landlock_profile_path_on_host-eq p c hp hc)
      ∙ same
      ∙ landlock_profile_path_on_host-eq q d hq hd) in
    (cc elements, cc elements)

-- A file is that of one container of one pod only, where their names are proper.
pub IsFileOf-unique :
    (p c q d x : Text)
    → IsName p
    → IsName c
    → IsName q
    → IsName d
    → IsFileOf p c x
    → IsFileOf q d x
    → (p ≡ q) × (c ≡ d)
IsFileOf-unique p c q d x hp hc hq hd (profile_file e) (profile_file f) =
    landlock_profile_path_on_host-injective p c q d hp hc hq hd (sym e ∙ f)
IsFileOf-unique p c q d x hp hc hq hd (profile_file e) (swapped_file b clean f) =
    absurd (profile-ne-swapped p c q d b hp hc hq hd clean (sym e ∙ f))
IsFileOf-unique p c q d x hp hc hq hd (swapped_file b clean e) (profile_file f) =
    absurd (profile-ne-swapped q d p c b hq hd hp hc clean (sym f ∙ e))
IsFileOf-unique p c q d x hp hc hq hd (swapped_file b clean e) (swapped_file b' clean' f) =
    let (same_pod, same_container, _) =
      swapped_binary_path_on_host-injective p c b q d b' hp hc clean hq hd clean' (sym e ∙ f) in
    (same_pod, same_container)

-- What lies below the directories of two pods lies below that of one.
IsBelow-unique :
    (p q x : Text)
    → IsName p
    → IsName q
    → IsBelow (podlock_runtime_pod_dir p) x
    → IsBelow (podlock_runtime_pod_dir q) x
    → p ≡ q
IsBelow-unique p q x hp hq below below' =
    let elements = λ (r : Text) (h : IsName r) (b : IsBelow (podlock_runtime_pod_dir r) x).
      root_path-injective b.above (pod_elements r) (All-front IsName b.above b.rest b.names)
        (pod_elements-IsName r [] h tt) (sym b.dir_shape ∙ podlock_runtime_pod_dir-eq r h) in
    let same =
      root_path-injective _ _ below.names below'.names (sym below.path_shape ∙ below'.path_shape) in
    let whole : pod_elements p ++ below.rest ≡ pod_elements q ++ below'.rest =
      sym (ap (λ ws. ws ++ below.rest) (elements p hp below))
      ∙ same
      ∙ ap (λ ws. ws ++ below'.rest) (elements q hq below') in
    cc whole

-- The files of a container lie outside of the directories of other pods.
pub IsFileOf-Below :
    (p c q x : Text)
    → IsName p
    → IsName c
    → IsName q
    → IsFileOf p c x
    → IsBelow (podlock_runtime_pod_dir q) x
    → p ≡ q
IsFileOf-Below p c q x hp hc hq own below =
    IsBelow-unique p q x hp hq (IsFileOf-IsBelow p c x hp hc own) below
