-- ===== src/Pipeline/Admitted.antt =====
-- The webhook, the adjustment and its hooks together: what the hooks do for a profile that the
-- webhook admits.
use podlock.Prelude.{
  ◌≡◌, ◌≢◌, refl, sym, ap, ◌∙◌, true, false, none, some, List, [], ◌∷◌, Text, codes, All, text_eq,
  nat_eq, arith,
}
use podlock.Map.{lookup, NodupKeys}
use podlock.Strings.{has_prefix, join_with}
use podlock.Io.{ok}
use podlock.Sets.{StringSets}
use podlock.Sets
use podlock.FilePath.Components.{root_path}
use podlock.FilePath.Clean.{IsCleanAbs}
use podlock.Api.{Profile, ProfileByBinary, LandlockProfile}
use podlock.Webhook.Valid.{AreValidBinaries}
use podlock.Webhook.Validator.{validate_create}
use podlock.Webhook.Accepts.{validate-accepts_iff}
use podlock.Nri.Paths.{seal_binary_path_container}
use podlock.Nri.Paths.Layout.{swapped_elements, swapped_binary_path_inside_container-eq}
use podlock.Nri.Adjustments.{create_container_adjustment}
use podlock.Nri.Plugin.Confined.{of_spec}
use podlock.OciHook.Syscalls.{Kernel, View, IsLawful}
use podlock.Pipeline.Hooks.{kept, Avoids, AreApart, AllExchanged, run_hooks, run_hooks-AllExchanged}

-- The directory of the plugin in a container.
abbrev pub own_dir : Text
own_dir = codes "/.podlock/"

-- No binary lies below the directory of the plugin.
abbrev pub AreOutside : ProfileByBinary → Type 0
AreOutside = All (λ (e : Text × Profile). has_prefix e.0 own_dir ≡ false)

-- Where the binaries are kept, but not the seal, lies below this.
abbrev pub swapped_dir : Text
swapped_dir = codes "/.podlock/s"

has_prefix-swapped :
    (ws : List Text)
    → (has_prefix (root_path (swapped_elements ws)) own_dir ≡ true)
      × (has_prefix (root_path (swapped_elements ws)) swapped_dir ≡ true)
unfolding has_prefix join_with nat_eq
has_prefix-swapped [] = (refl, refl)
has_prefix-swapped (w ∷ ws) = (refl, refl)

pub has_prefix-kept :
    (binary : Text)
    → IsCleanAbs binary
    → (has_prefix (kept binary) own_dir ≡ true) × (has_prefix (kept binary) swapped_dir ≡ true)
has_prefix-kept binary clean =
    let moved =
      ap kept clean.shape ∙ swapped_binary_path_inside_container-eq clean.elements clean.names in
    let (own, swapped) = has_prefix-swapped clean.elements in
    (ap (λ p. has_prefix p own_dir) moved ∙ own, ap (λ p. has_prefix p swapped_dir) moved ∙ swapped)

pub has_prefix-seal :
    (has_prefix seal_binary_path_container own_dir ≡ true)
    × (has_prefix seal_binary_path_container swapped_dir ≡ false)
unfolding has_prefix seal_binary_path_container podlock.FilePath.join nat_eq text_eq
has_prefix-seal = (refl, refl)

pub ne_of : (dir p q : Text) → has_prefix p dir ≡ true → has_prefix q dir ≡ false → p ≢ q
ne_of dir p q h k e = cc

apart_from :
    (binary : Text) (m : ProfileByBinary)
    → IsCleanAbs binary
    → has_prefix binary own_dir ≡ false
    → lookup binary m ≡ none
    → AreValidBinaries m
    → AreOutside m
    → All (λ (e : Text × Profile). Avoids binary e.0 × Avoids e.0 binary) m
unfolding lookup
apart_from binary [] clean outside h valid others = tt
apart_from binary ((j, p) ∷ m) clean outside h ((j_clean, _), valid) (j_outside, others) =
    let ne : binary ≢ j = λ e. ground arith in
    (
      (
        (ne, λ e. ne_of own_dir (kept j) binary (has_prefix-kept j j_clean).0 outside (sym e)),
        (
          λ e. ne (sym e),
          λ e. ne_of own_dir (kept binary) j (has_prefix-kept binary clean).0 j_outside (sym e),
        ),
      ),
      apart_from binary m clean outside (ground arith) valid others,
    )

valid-AreApart :
    (m : ProfileByBinary) → AreValidBinaries m → NodupKeys m → AreOutside m → AreApart m
valid-AreApart [] valid nodup outside = tt
valid-AreApart ((binary, p) ∷ m) ((clean, _), valid) (new, nodup) (outside, others) = (
  clean,
  (
    (
      ne_of own_dir seal_binary_path_container binary has_prefix-seal.0 outside,
      λ e.
          ne_of swapped_dir (kept binary) seal_binary_path_container
            (has_prefix-kept binary clean).1 has_prefix-seal.1 (sym e),
    ),
    (apart_from binary m clean outside new valid others, valid-AreApart m valid nodup others),
  ),
)

module _ (K : Kernel) (V : View K) (L : IsLawful K V)
    (at-chroot : (path : Text) (s : K.State) (q : Text) → V.at (K.chroot path s).1 q ≡ V.at s q)
    (S : StringSets) (sets : podlock.Sets.IsLawful S) where
  -- Let ValidateCreate accept a profile with the binaries `m` for a container. If all hooks of the
  -- adjustment for `m` succeed, one after the other, then every binary of `m` is the seal, and what
  -- it was is in the place where the seal looks for it. It is assumed that no binary is listed twice
  -- or lies below `/.podlock/`, and that the change of the root changes no path.
  pub admitted-AllExchanged :
      (profile : LandlockProfile)
      → validate_create S profile ≡ none
      → (pod_id container_name log_level : Text) (m : ProfileByBinary)
      → elim profile.spec.profiles_by_container [
        | none ↦ none
        | some containers ↦ lookup container_name containers
      ]
        ≡ some m
      → NodupKeys m
      → AreOutside m
      → (s : K.State)
      → let hooks = (create_container_adjustment pod_id container_name m log_level).hooks in
        (run_hooks K hooks s).0 ≡ ok tt → AllExchanged K V L s (run_hooks K hooks s).1 m
  admitted-AllExchanged profile accepted pod_id container_name log_level m found nodup outside s =
      let valid = (validate-accepts_iff S sets profile profile).0.0 accepted in
      run_hooks-AllExchanged K V L at-chroot pod_id container_name log_level m s (
        valid-AreApart m (of_spec profile.spec.profiles_by_container container_name m valid found)
          nodup outside)
