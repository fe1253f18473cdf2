-- ===== src/Nri/Plugin/Confined.antt =====
-- CreateContainer for an admitted profile changes the files of its container only.
use podlock.Prelude.{◌≡◌, refl, Option, none, some, [], ◌∷◌, Text, codes, All, text_eq, arith}
use podlock.Map.{Map, lookup}
use podlock.Api.{ProfileByBinary, LandlockProfile}
use podlock.FilePath.Components.{IsName}
use podlock.Controller.Client.{ObjectKey, pod_profile_label}
use podlock.Io.{Result, ok, err, lift, Frame, ◌>>=◌}
use podlock.Sets.{StringSets}
use podlock.Sets
use podlock.Webhook.Valid.{IsValidSpec, AreValidBinaries}
use podlock.Webhook.Validator.{validate_create}
use podlock.Webhook.Accepts.{validate-accepts_iff}
use podlock.Nri.HostFs.{HostFs, Contents, IsLawful}
use podlock.Nri.Paths.{
  swapped_binary_path_on_host, landlock_profile_path_on_host, podlock_runtime_pod_dir,
}
use podlock.Nri.Paths.Distinct.{IsBelow}
use podlock.Nri.Paths.Files.{IsFileOf, profile_file, swapped_file, IsFileOf-IsBelow}
use podlock.Nri.Filesystem.{
  at_path, wrap_result, reserve_swapped_binaries, write_landlock_profile_to_host_filesystem,
}
use podlock.Nri.Filesystem.Frames.{
  Only, Only-refl, bind-Only, reserve_path-Only, write_profile-Only,
}
use podlock.Nri.Plugin.{
  PodSandbox, Container, profile_of, adjust, adjust_if_found, adjust_labelled, adjust_if_labelled,
  create_container,
}

lookup-All {ℓ κ} :
    {A : Type ℓ} (P : A → Type κ) (k : Text) (m : Map A) (v : A)
    → All (λ e. P e.1) m
    → lookup k m ≡ some v
    → P v
unfolding lookup
lookup-All P k [] v h e = absurd (cc)
lookup-All P k ((j, w) ∷ m) v h e = ground (arith, lookup-All P k m v)

pub of_spec :
    (o : Option (Map ProfileByBinary)) (name : Text) (m : ProfileByBinary)
    → IsValidSpec (record { profiles_by_container = o })
    → elim o [ none ↦ none | some containers ↦ lookup name containers ] ≡ some m
    → AreValidBinaries m
of_spec none name m h e = absurd (cc)
of_spec (some containers) name m h e = lookup-All AreValidBinaries name containers m h e

module _ (H : HostFs) (V : Contents H) (L : IsLawful H V) where
  -- The files below the directory of the pod.
  abbrev pub OwnFiles : PodSandbox → Text → Type 0
  OwnFiles pod = IsBelow (podlock_runtime_pod_dir pod.id)

  module _ (encode : ProfileByBinary → Result Text) (log_level : Text) (pod : PodSandbox) where
    reserve-Only :
        (c : Text) (m : ProfileByBinary)
        → AreValidBinaries m
        → Frame (Only H V (IsFileOf pod.id c)) (reserve_swapped_binaries H pod.id c m)
    unfolding reserve_swapped_binaries
    reserve-Only c [] h = Only-refl H V (IsFileOf pod.id c)
    reserve-Only c ((b, profile) ∷ m) h =
        bind-Only H V L (IsFileOf pod.id c) _ _
          (reserve_path-Only H V L (IsFileOf pod.id c) (swapped_binary_path_on_host pod.id c b)
            (swapped_file b h.0.0 refl))
          (λ _. reserve-Only c m h.1)

    adjust-Only :
        (get : ObjectKey → Result LandlockProfile) (c : Container) (m : ProfileByBinary)
        → AreValidBinaries m
        → Frame (Only H V (IsFileOf pod.id c.name)) (adjust H encode get log_level pod c m)
    unfolding adjust write_landlock_profile_to_host_filesystem
    adjust-Only get c m h =
        let own = IsFileOf pod.id c.name in
        bind-Only H V L own _ _
          (bind-Only H V L own _ _ (reserve-Only c.name m h) (λ _.
            write_profile-Only H V L own (landlock_profile_path_on_host pod.id c.name) encode m
              (profile_file refl)))
          (λ _. Only-refl H V own)

    module _ (get : ObjectKey → Result LandlockProfile) (S : StringSets) (laws : Sets.IsLawful S)
        (admitted : (k : ObjectKey) (p : LandlockProfile)
          → get k ≡ ok p
          → validate_create S p ≡ none) where
      pub found-valid :
          (c : Container) (k : ObjectKey) (p : LandlockProfile) (m : ProfileByBinary)
          → get k ≡ ok p
          → profile_of p c ≡ some m
          → AreValidBinaries m
      found-valid c k p m got e =
          of_spec p.spec.profiles_by_container c.name m
            ((validate-accepts_iff S laws p p).0.0 (admitted k p got)) e

      found-Only :
          (c : Container) (k : ObjectKey) (p : LandlockProfile)
          → get k ≡ ok p
          → (o : Option ProfileByBinary) → profile_of p c ≡ o
          → Frame
              (Only H V (IsFileOf pod.id c.name))
              (adjust_if_found H encode get log_level pod c o)
      found-Only c k p got none e = Only-refl H V (IsFileOf pod.id c.name)
      found-Only c k p got (some m) e = adjust-Only get c m (found-valid c k p m got e)

      fetched-Only :
          (c : Container) (k : ObjectKey) (r : Result LandlockProfile) (message : Text)
          → get k ≡ r
          → Frame (Only H V (IsFileOf pod.id c.name)) (
              lift (wrap_result message r) >>= λ p.
              adjust_if_found H encode get log_level pod c (profile_of p c))
      unfolding ◌>>=◌
      fetched-Only c k (ok p) message got = found-Only c k p got (profile_of p c) refl
      fetched-Only c k (err e) message got = Only-refl H V (IsFileOf pod.id c.name)

      labelled-Only :
          (c : Container) (o : Option Text)
          → Frame
              (Only H V (IsFileOf pod.id c.name))
              (adjust_if_labelled H encode get log_level pod (some c) o)
      unfolding adjust_labelled
      labelled-Only c none = Only-refl H V (IsFileOf pod.id c.name)
      labelled-Only c (some n) =
          let k : ObjectKey = record { namespace = pod.namespace; name = n } in
          fetched-Only c k (get k) (at_path (codes "failed to get LandlockProfile") n) refl

      -- If the stored profiles are those that the webhook admits, the handler leaves every file as
      -- it was that is none of the container, whether it succeeds or fails.
      pub create_container-OnlyFiles :
          (c : Container)
          → Frame
              (Only H V (IsFileOf pod.id c.name))
              (create_container H encode get log_level (some pod) (some c))
      unfolding create_container
      create_container-OnlyFiles c = labelled-Only c (lookup pod_profile_label pod.labels)

  module _ (encode : ProfileByBinary → Result Text) (log_level : Text) (pod : PodSandbox)
      (id_name : IsName pod.id) (get : ObjectKey → Result LandlockProfile) (S : StringSets)
      (laws : Sets.IsLawful S)
      (admitted : (k : ObjectKey) (p : LandlockProfile)
        → get k ≡ ok p
        → validate_create S p ≡ none) where
    -- If the stored profiles are those that the webhook admits, and the pod and the container have
    -- proper names, then the handler leaves every file outside of the directory of the pod as it
    -- was, whether it succeeds or fails.
    pub create_container-Only :
        (c : Container)
        → IsName c.name
        → Frame
            (Only H V (OwnFiles pod))
            (create_container H encode get log_level (some pod) (some c))
    create_container-Only c name s q outside =
        create_container-OnlyFiles encode log_level pod get S laws admitted c s q
          (λ own. outside (IsFileOf-IsBelow pod.id c.name q id_name name own))
