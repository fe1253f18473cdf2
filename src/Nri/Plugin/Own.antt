-- ===== src/Nri/Plugin/Own.antt =====
-- The paths of the files that CreateContainer makes for a list of binaries, as a test.
use podlock.Prelude.{◌≡◌, Bool, true, false, ◌||◌, [], ◌∷◌, Text, ◌==◌, text_eq, All, arith}
use podlock.Api.{ProfileByBinary}
use podlock.Webhook.Valid.{AreValidBinaries}
use podlock.Nri.Paths.{swapped_binary_path_on_host, landlock_profile_path_on_host}
use podlock.Nri.Paths.Files.{IsFileOf, profile_file, swapped_file}

module _ (pod_id container_name : Text) where
  is_swapped : ProfileByBinary → Text → Bool
  is_swapped [] x = false
  is_swapped (e ∷ m) x =
      x == swapped_binary_path_on_host pod_id container_name e.0 || is_swapped m x

  pub is_own : ProfileByBinary → Text → Bool
  is_own m x = x == landlock_profile_path_on_host pod_id container_name || is_swapped m x

  is_swapped-IsFileOf :
      (m : ProfileByBinary) (x : Text)
      → AreValidBinaries m
      → is_swapped m x ≡ true
      → IsFileOf pod_id container_name x
  unfolding is_swapped
  is_swapped-IsFileOf [] x valid h = absurd (cc)
  is_swapped-IsFileOf ((b, profile) ∷ m) x valid h =
      elim (text_eq.dec x (swapped_binary_path_on_host pod_id container_name b)) [
        | yes same ↦ swapped_file b valid.0.0 same
        | no other ↦ is_swapped-IsFileOf m x valid.1 (ground arith)
      ]

  pub is_own-IsFileOf :
      (m : ProfileByBinary) (x : Text)
      → AreValidBinaries m
      → is_own m x ≡ true
      → IsFileOf pod_id container_name x
  unfolding is_own
  is_own-IsFileOf m x valid h =
      elim (text_eq.dec x (landlock_profile_path_on_host pod_id container_name)) [
        | yes same ↦ profile_file same
        | no other ↦ is_swapped-IsFileOf m x valid (ground arith)
      ]

  pub profile-is_own :
      (m : ProfileByBinary) → is_own m (landlock_profile_path_on_host pod_id container_name) ≡ true
  unfolding is_own
  profile-is_own m = ground arith

  -- The same of a part `k` of the list.
  taken-is_own :
      (m k : ProfileByBinary)
      → ((x : Text) → is_swapped k x ≡ true → is_swapped m x ≡ true)
      → All (λ e. is_own m (swapped_binary_path_on_host pod_id container_name e.0) ≡ true) k
  unfolding is_own is_swapped
  taken-is_own m [] within = tt
  taken-is_own m ((b, profile) ∷ k) within = (
    let here = within (swapped_binary_path_on_host pod_id container_name b) (ground arith) in
        ground (arith, here),
    taken-is_own m k (λ x h. within x (ground (arith, h))),
  )

  pub swapped-is_own :
      (m : ProfileByBinary)
      → All (λ e. is_own m (swapped_binary_path_on_host pod_id container_name e.0) ≡ true) m
  swapped-is_own m = taken-is_own m m (λ x e. e)
