-- ===== src/Pipeline/Created.antt =====
-- The webhook, the plugin and the hooks together: what the hooks of the adjustment that
-- CreateContainer returns do in the container.
use podlock.Prelude.{◌≡◌, sym, none, some, Text, subst}
use podlock.Map.{NodupKeys}
use podlock.Io.{Result, ok}
use podlock.Sets.{StringSets}
use podlock.Sets
use podlock.Api.{ProfileByBinary, LandlockProfile}
use podlock.Webhook.Validator.{validate_create}
use podlock.Controller.Client.{ObjectKey}
use podlock.Nri.HostFs.{HostFs, Contents}
use podlock.Nri.HostFs
use podlock.Nri.Adjustments.{ContainerAdjustment}
use podlock.Nri.Plugin.{PodSandbox, Container, profile_of, create_container}
use podlock.Nri.Plugin.Create.{create_container-IsAdjusted}
use podlock.OciHook.Syscalls.{Kernel, View}
use podlock.OciHook.Syscalls
use podlock.Pipeline.Confined.{IsAskedFor}
use podlock.Pipeline.Hooks.{AllExchanged, run_hooks}
use podlock.Pipeline.Admitted.{AreOutside, admitted-AllExchanged}

module _ (S : StringSets) where
  -- ValidateCreate accepts the profile, and what it lists for the container has no binary twice and
  -- none below `/.podlock/`.
  abbrev pub IsExchangeable : Container → LandlockProfile → Type 0
  IsExchangeable ctr profile =
      (validate_create S profile ≡ none)
      × ((m : ProfileByBinary) → profile_of profile ctr ≡ some m → NodupKeys m × AreOutside m)

module _ (H : HostFs) (V : Contents H) (L : podlock.Nri.HostFs.IsLawful H V) (K : Kernel)
    (W : View K) (M : podlock.OciHook.Syscalls.IsLawful K W)
    (at-chroot : (path : Text) (s : K.State) (q : Text) → W.at (K.chroot path s).1 q ≡ W.at s q)
    (S : StringSets) (sets : podlock.Sets.IsLawful S) where
  -- Let CreateContainer return an adjustment for a container, where each profile that the cache of
  -- the plugin returns was accepted by ValidateCreate and lists no binary of the container twice or
  -- below `/.podlock/`. If all hooks of the adjustment succeed, one after the other, then every
  -- binary that the profile of the pod lists for the container is the seal, and what it was is in
  -- the place where the seal looks for it. It is assumed that the change of the root changes no
  -- path.
  pub created-AllExchanged :
      (encode : ProfileByBinary → Result Text) (get : ObjectKey → Result LandlockProfile)
      (log_level : Text) (pod : PodSandbox) (ctr : Container) (s : H.State)
      (a : ContainerAdjustment)
      → (create_container H encode get log_level (some pod) (some ctr) s).0 ≡ ok (some a)
      → ((k : ObjectKey) (profile : LandlockProfile)
          → get k ≡ ok profile
          → IsExchangeable S ctr profile)
      → (u : K.State) → (run_hooks K a.hooks u).0 ≡ ok tt
      → (m : ProfileByBinary) × IsAskedFor H V L encode get log_level pod ctr m
        × AllExchanged K W M u (run_hooks K a.hooks u).1 m
  created-AllExchanged encode get log_level pod ctr s a created admitted u =
      let found = create_container-IsAdjusted H V encode L get log_level pod ctr s a created in
      let m = found.binaries in
      let (accepted, listed) = admitted _ found.profile found.fetched in
      let (nodup, outside) = listed m found.of_container in
      let asked : IsAskedFor H V L encode get log_level pod ctr m = record {
        profile_name = found.profile_name;
        profile = found.profile;
        labelled = found.labelled;
        fetched = found.fetched;
        of_container = found.of_container;
      } in
      subst
        (λ (x : ContainerAdjustment).
          (run_hooks K x.hooks u).0 ≡ ok tt
          → (m : ProfileByBinary) × IsAskedFor H V L encode get log_level pod ctr m
            × AllExchanged K W M u (run_hooks K x.hooks u).1 m)
        (sym found.adjustment)
        (λ h. (
          m,
          asked,
          admitted-AllExchanged K W M at-chroot S sets found.profile accepted pod.id ctr.name
              log_level m found.of_container nodup outside u h,
        ))
