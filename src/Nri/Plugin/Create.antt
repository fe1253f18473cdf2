-- ===== src/Nri/Plugin/Create.antt =====
-- What a successful CreateContainer has found, and the files that it leaves.
use podlock.Prelude.{
  ◌≡◌, ◌≢◌, refl, sym, ◌∙◌, subst, Option, none, some, [], ◌∷◌, Text, codes, All, text_eq,
}
use podlock.Map.{lookup}
use podlock.Api.{ProfileByBinary, LandlockProfile}
use podlock.Controller.Client.{ObjectKey, pod_profile_label}
use podlock.Io.{Result, ok, bind-Ran}
use podlock.Nri.HostFs.{HostFs, Contents, IsLawful, IsLawfulFor}
use podlock.Nri.Paths.{swapped_binary_path_on_host, landlock_profile_path_on_host}
use podlock.Nri.Filesystem.{
  at_path, reserve_swapped_binaries, write_landlock_profile_to_host_filesystem,
}
use podlock.Nri.Filesystem.Frames.{Only, write_profile-Only}
use podlock.Nri.Filesystem.Reserve.{
  AreKnown, wrap_result-ok, reserve_swapped_binaries-AreReserved, write_profile-ok,
}
use podlock.Nri.Adjustments.{ContainerAdjustment, create_container_adjustment}
use podlock.Nri.Plugin.{
  PodSandbox, Container, profile_of, adjust, adjust_if_found, adjust_labelled, adjust_if_labelled,
  create_container,
}

-- The key of the profile that a pod asks for.
abbrev pub profile_key : PodSandbox → Text → ObjectKey
profile_key pod profile_name = record { namespace = pod.namespace; name = profile_name }

module _ (H : HostFs) (V : Contents H) (encode : ProfileByBinary → Result Text) where
  -- The files of the container are there: one for each binary, and the profile.
  pub record AreSetUp (t : H.State) (pod : PodSandbox) (ctr : Container) (m : ProfileByBinary)
      : Type 0 where
    pub contents : Text
    pub encoded : encode m ≡ ok contents
    pub written : V.file t (landlock_profile_path_on_host pod.id ctr.name) ≡ some contents
    pub reserved : All (λ e. V.file t (swapped_binary_path_on_host pod.id ctr.name e.0) ≢ none) m

  module _ {Known : Text → Type 0} (L : IsLawfulFor H V Known) where
    -- What is there stays there if a file with contents is written.
    there-write :
        (s t : H.State) (p q c : Text)
        → Only H V (λ r. r ≡ p) s t
        → V.file t p ≡ some c
        → V.file s q ≢ none
        → V.file t q ≢ none
    there-write s t p q c only at there e = elim (text_eq.dec q p) [
      | yes same ↦ absurd (cc)
      | no other ↦ there (sym (only q other) ∙ e)
    ]

    reserved-write :
        (s t : H.State) (p c : Text) (pod : PodSandbox) (ctr : Container) (m : ProfileByBinary)
        → Only H V (λ r. r ≡ p) s t
        → V.file t p ≡ some c
        → All (λ e. V.file s (swapped_binary_path_on_host pod.id ctr.name e.0) ≢ none) m
        → All (λ e. V.file t (swapped_binary_path_on_host pod.id ctr.name e.0) ≢ none) m
    reserved-write s t p c pod ctr [] only at h = tt
    reserved-write s t p c pod ctr ((b, profile) ∷ m) only at h = (
      there-write s t p (swapped_binary_path_on_host pod.id ctr.name b) c only at h.0,
      reserved-write s t p c pod ctr m only at h.1,
    )

    module _ (get : ObjectKey → Result LandlockProfile) (log_level : Text) where
      pub adjust-ok :
          (pod : PodSandbox) (ctr : Container) (m : ProfileByBinary) (s : H.State)
          (r : Option ContainerAdjustment)
          → Known (landlock_profile_path_on_host pod.id ctr.name)
          → AreKnown H V L pod.id ctr.name m
          → (adjust H encode get log_level pod ctr m s).0 ≡ ok r
          → (r ≡ some (create_container_adjustment pod.id ctr.name m log_level))
            × AreSetUp (adjust H encode get log_level pod ctr m s).1 pod ctr m
      unfolding adjust write_landlock_profile_to_host_filesystem
      adjust-ok pod ctr m s r known all_known h =
          let both = bind-Ran _ _ s r h in
          let each = bind-Ran (reserve_swapped_binaries H pod.id ctr.name m) _ s tt both.first in
          let reserved = (reserve_swapped_binaries H pod.id ctr.name m s).1 in
          let path = landlock_profile_path_on_host pod.id ctr.name in
          let there =
            reserve_swapped_binaries-AreReserved H V L pod.id ctr.name m s all_known each.first in
          let (c, encoded, at) = write_profile-ok H V L path encode m reserved known each.second in
          let end = both.last ∙ each.last in
          (
            cc both.second,
            subst (λ (t : H.State). AreSetUp t pod ctr m) (sym end)
                (record {
                  contents = c;
                  encoded = encoded;
                  written = at;
                  reserved =
                      reserved-write reserved _ path c pod ctr m
                        (write_profile-Only H V L (λ r. r ≡ path) path encode m refl reserved) at
                        there;
                }),
          )

  module _ (L : IsLawful H V) where
    all-AreKnown : (p c : Text) (m : ProfileByBinary) → AreKnown H V L p c m
    all-AreKnown p c [] = tt
    all-AreKnown p c (e ∷ m) = (tt, all-AreKnown p c m)

    module _ (get : ObjectKey → Result LandlockProfile) (log_level : Text) where
      -- What a handler that asks for an adjustment has found and done.
      pub record IsAdjusted (pod : PodSandbox) (ctr : Container) (t : H.State)
          (a : ContainerAdjustment) : Type 0 where
        pub profile_name : Text
        pub profile : LandlockProfile
        pub binaries : ProfileByBinary
        pub labelled : lookup pod_profile_label pod.labels ≡ some profile_name
        pub fetched : get (profile_key pod profile_name) ≡ ok profile
        pub of_container : profile_of profile ctr ≡ some binaries
        pub adjustment : a ≡ create_container_adjustment pod.id ctr.name binaries log_level
        pub set_up : AreSetUp t pod ctr binaries

      -- What a run from `s` to `t` that returns an adjustment or none has found and done.
      pub data Outcome (pod : PodSandbox) (ctr : Option Container) (s t : H.State)
          : Option ContainerAdjustment → Type 0 where
        unlabelled : lookup pod_profile_label pod.labels ≡ none → t ≡ s → Outcome pod ctr s t none
        unprofiled :
            (c : Container) (profile_name : Text) (profile : LandlockProfile)
            → ctr ≡ some c
            → lookup pod_profile_label pod.labels ≡ some profile_name
            → get (profile_key pod profile_name) ≡ ok profile
            → profile_of profile c ≡ none
            → t ≡ s
            → Outcome pod ctr s t none
        adjusted :
            (c : Container) (a : ContainerAdjustment)
            → ctr ≡ some c
            → IsAdjusted pod c t a
            → Outcome pod ctr s t (some a)

      found-Outcome :
          (pod : PodSandbox) (c : Container) (profile_name : Text) (profile : LandlockProfile)
          (o : Option ProfileByBinary) (s : H.State) (r : Option ContainerAdjustment)
          → lookup pod_profile_label pod.labels ≡ some profile_name
          → get (profile_key pod profile_name) ≡ ok profile
          → profile_of profile c ≡ o
          → (adjust_if_found H encode get log_level pod c o s).0 ≡ ok r
          → Outcome pod (some c) s (adjust_if_found H encode get log_level pod c o s).1 r
      found-Outcome pod c name profile none s r label got e h =
          let same : none ≡ r = cc h in
          subst (Outcome pod (some c) s s) same (unprofiled c name profile refl label got e refl)
      found-Outcome pod c name profile (some m) s r label got e h =
          let (result, done) =
            adjust-ok L get log_level pod c m s r tt (all-AreKnown pod.id c.name m) h in
          let a = create_container_adjustment pod.id c.name m log_level in
          subst (Outcome pod (some c) s _) (sym result) (
            adjusted c a refl (record {
              profile_name = name;
              profile = profile;
              binaries = m;
              labelled = label;
              fetched = got;
              of_container = e;
              adjustment = refl;
              set_up = done;
            }))

      labelled-Outcome :
          (pod : PodSandbox) (ctr : Option Container) (o : Option Text) (s : H.State)
          (r : Option ContainerAdjustment)
          → lookup pod_profile_label pod.labels ≡ o
          → (adjust_if_labelled H encode get log_level pod ctr o s).0 ≡ ok r
          → Outcome pod ctr s (adjust_if_labelled H encode get log_level pod ctr o s).1 r
      unfolding adjust_labelled
      labelled-Outcome pod ctr none s r e h =
          let same : none ≡ r = cc h in subst (Outcome pod ctr s s) same (unlabelled e refl)
      labelled-Outcome pod none (some name) s r e h = absurd (cc)
      labelled-Outcome pod (some c) (some name) s r e h =
          let ran = bind-Ran _ _ s r h in
          let profile = ran.value in
          let got =
            wrap_result-ok (at_path (codes "failed to get LandlockProfile") name)
              (get (profile_key pod name)) profile ran.first in
          subst (λ (t : H.State). Outcome pod (some c) s t r) (sym ran.last)
            (found-Outcome pod c name profile (profile_of profile c) s r e got refl ran.second)

      -- If the handler returns an adjustment, the pod has the label, the profile that the label
      -- names in the namespace of the pod lists the container, each binary listed there has its
      -- file, the file of the profile holds the encoding of the list, and the adjustment is the one
      -- for this list. If it returns none without an error, the pod has no label or the profile does
      -- not list the container, and nothing has changed.
      pub create_container-ok :
          (pod : PodSandbox) (ctr : Option Container) (s : H.State) (r : Option ContainerAdjustment)
          → (create_container H encode get log_level (some pod) ctr s).0 ≡ ok r
          → Outcome pod ctr s (create_container H encode get log_level (some pod) ctr s).1 r
      unfolding create_container
      create_container-ok pod ctr s r =
          labelled-Outcome pod ctr (lookup pod_profile_label pod.labels) s r refl

      adjusted_lem :
          (pod : PodSandbox) (c : Option Container) (ctr : Container) (s t : H.State)
          (r : Option ContainerAdjustment) (a : ContainerAdjustment)
          → Outcome pod c s t r
          → c ≡ some ctr
          → r ≡ some a
          → IsAdjusted pod ctr t a
      adjusted_lem pod c ctr s t _ a (unlabelled _ _) e h = absurd (cc)
      adjusted_lem pod c ctr s t _ a (unprofiled _ _ _ _ _ _ _ _) e h = absurd (cc)
      adjusted_lem pod c ctr s t _ a (adjusted d b named found) e h =
          let same : d ≡ ctr = cc in
          let same_result : b ≡ a = cc in
          subst (IsAdjusted pod ctr t) same_result (subst (λ x. IsAdjusted pod x t b) same found)

      pub create_container-IsAdjusted :
          (pod : PodSandbox) (ctr : Container) (s : H.State) (a : ContainerAdjustment)
          → (create_container H encode get log_level (some pod) (some ctr) s).0 ≡ ok (some a)
          → IsAdjusted pod ctr (create_container H encode get log_level (some pod) (some ctr) s).1 a
      create_container-IsAdjusted pod ctr s a h =
          adjusted_lem pod (some ctr) ctr s
            (create_container H encode get log_level (some pod) (some ctr) s).1 (some a) a
            (create_container-ok pod (some ctr) s (some a) h) refl refl
