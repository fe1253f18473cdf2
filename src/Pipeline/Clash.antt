-- ===== src/Pipeline/Clash.antt =====
-- What happens to two binaries of an admitted profile of which one lies where the other is kept.
use podlock.Prelude.{◌≡◌, ◌∙◌, sym, ap, subst, Option, none, some, List, [], ◌∷◌, Text, false}
use podlock.Io.{ok, bind-Ran}
use podlock.Sets.{StringSets}
use podlock.Sets
use podlock.Strings.{has_prefix}
use podlock.FilePath.Clean.{IsCleanAbs}
use podlock.Api.{Profile, ProfileByBinary, LandlockProfile}
use podlock.Webhook.Valid.{IsValidProfile, IsValidSpec}
use podlock.Webhook.Validator.{validate_create}
use podlock.Webhook.Accepts.{validate-accepts_iff}
use podlock.Nri.Paths.{seal_binary_path_container, swapped_binary_path_inside_container}
use podlock.Nri.Adjustments.{create_container_adjustment}
use podlock.OciHook.Syscalls.{Kernel, View, IsLawful}
use podlock.Pipeline.Hooks.{kept, run_hooks, hook-Exchanges}
use podlock.Pipeline.Admitted.{own_dir, swapped_dir, has_prefix-kept, has_prefix-seal, ne_of}
use podlock.Nri.Paths.Layout.{
  swapped_elements, swapped_elements-IsName, swapped_binary_path_inside_container-eq,
}
use podlock.Nri.Paths.Distinct.{swapped_binary_path_inside_container_ne}
use podlock.Nri.Adjustments.Wiring.{create_container_adjustment-hooks}
use podlock.Nri.Adjustments.{Hook, binary_hook}
use podlock.OciHook.Entry.{main_of}
use podlock.Map.{Map}

kept-IsCleanAbs : (binary : Text) → IsCleanAbs binary → IsCleanAbs (kept binary)
kept-IsCleanAbs binary clean = record {
  elements = swapped_elements clean.elements;
  names = swapped_elements-IsName clean.elements clean.names;
  shape = ap kept clean.shape ∙ swapped_binary_path_inside_container-eq clean.elements clean.names;
}

-- A binary, and one in the place where the hook keeps the first.
abbrev pub clashing : Text → Profile → Profile → ProfileByBinary
clashing binary x y = (binary, x) ∷ (kept binary, y) ∷ []

module _ (S : StringSets) (sets : podlock.Sets.IsLawful S) where
  clashing-accepted :
      (binary container_name : Text) (x y : Profile) (profile : LandlockProfile)
      → IsCleanAbs binary
      → IsValidProfile x
      → IsValidProfile y
      → profile.spec.profiles_by_container ≡ some ((container_name, clashing binary x y) ∷ [])
      → validate_create S profile ≡ none
  clashing-accepted binary container_name x y profile clean hx hy e =
      (validate-accepts_iff S sets profile profile).0.1 (
        subst
          (λ (o : Option (Map ProfileByBinary)). IsValidSpec (record { profiles_by_container = o }))
          (sym e) (((clean, hx), ((kept-IsCleanAbs binary clean, hy), tt)), tt))

  module _ (K : Kernel) (V : View K) (L : IsLawful K V)
      (at-chroot : (path : Text) (s : K.State) (q : Text)
        → V.at (K.chroot path s).1 q ≡ V.at s q) where
    two_hooks :
        (binary : Text) (s : K.State)
        → IsCleanAbs binary
        → has_prefix binary own_dir ≡ false
        → let run = run_hooks K (binary_hook binary ∷ binary_hook (kept binary) ∷ []) s in
          run.0 ≡ ok tt
          → (V.at run.1 binary ≡ V.at s seal_binary_path_container)
            × (V.at run.1 (kept binary) ≡ V.at s seal_binary_path_container)
            × (V.at run.1 (kept (kept binary)) ≡ V.at s binary)
    unfolding run_hooks
    two_hooks binary s clean outside h =
        let first = bind-Ran (main_of K (binary_hook binary).args) _ s tt h in
        let u = (main_of K (binary_hook binary).args s).1 in
        let second = bind-Ran (main_of K (binary_hook (kept binary)).args) _ u tt first.second in
        let inside = kept-IsCleanAbs binary clean in
        let (own, elsewhere) = hook-Exchanges K V L at-chroot binary s clean first.first in
        let (next, apart) = hook-Exchanges K V L at-chroot (kept binary) u inside second.first in
        let end = first.last ∙ second.last in
        let there = λ (q : Text). ap (λ (t : K.State). V.at t q) end in
        let seal_stays = elsewhere seal_binary_path_container (
          ne_of own_dir seal_binary_path_container binary has_prefix-seal.0 outside,
          λ e.
              ne_of swapped_dir (kept binary) seal_binary_path_container
                (has_prefix-kept binary clean).1 has_prefix-seal.1 (sym e),
        ) in
        let binary_stays = apart binary (
          swapped_binary_path_inside_container_ne binary clean,
          λ e.
              ne_of own_dir (kept (kept binary)) binary (has_prefix-kept (kept binary) inside).0
                outside (sym e),
        ) in
        (
          there binary ∙ binary_stays ∙ own.sealed,
          there (kept binary) ∙ next.sealed ∙ seal_stays,
          there (kept (kept binary)) ∙ next.kept_there ∙ own.kept_there,
        )

    -- The webhook accepts a profile, valid otherwise, that lists for a container a binary and also the
    -- place where the plugin keeps that binary. If the adjustment meets the binary first, and its
    -- hooks succeed, then the seal is in both places: what the seal executes in place of the binary
    -- is the seal itself. It is assumed that the binary does not lie below `/.podlock/`, and that the
    -- change of the root changes no path.
    pub clashing_lem :
        (binary container_name : Text) (x y : Profile) (profile : LandlockProfile)
        → IsCleanAbs binary
        → has_prefix binary own_dir ≡ false
        → IsValidProfile x
        → IsValidProfile y
        → profile.spec.profiles_by_container ≡ some ((container_name, clashing binary x y) ∷ [])
        → (pod_id log_level : Text) (s : K.State)
        → let m = clashing binary x y in
          let hooks = (create_container_adjustment pod_id container_name m log_level).hooks in
          (run_hooks K hooks s).0 ≡ ok tt
          → let t = (run_hooks K hooks s).1 in
            (validate_create S profile ≡ none)
            × (V.at t binary ≡ V.at s seal_binary_path_container)
            × (V.at t (swapped_binary_path_inside_container binary)
                ≡ V.at s seal_binary_path_container)
    clashing_lem binary container_name x y profile clean outside hx hy e pod_id log_level s h =
        let same_hooks =
          create_container_adjustment-hooks pod_id container_name (clashing binary x y) log_level in
        let both =
          subst
            (λ (hooks : List Hook).
              (run_hooks K hooks s).0 ≡ ok tt
              → (V.at (run_hooks K hooks s).1 binary ≡ V.at s seal_binary_path_container)
                × (V.at (run_hooks K hooks s).1 (kept binary) ≡ V.at s seal_binary_path_container))
            (sym same_hooks)
            (λ g. let found = two_hooks binary s clean outside g in (found.0, found.1)) h in
        (clashing-accepted binary container_name x y profile clean hx hy e, both.0, both.1)
