-- ===== src/Pipeline/Served.antt =====
-- The whole program: from the profile that a user sends to the cluster to the binary that runs.
use podlock.Prelude.{◌≡◌, none, some, Text}
use podlock.Fallible
use podlock.Map.{lookup}
use podlock.Api.{LandlockProfile, ProfileByBinary}
use podlock.Finalizers.{Finalizers}
use podlock.Sets.{StringSets}
use podlock.Sets
use podlock.Webhook.Validator.{validate_create}
use podlock.Controller.Client
use podlock.Controller.Client.{Client, pod_profile_label}
use podlock.Controller.Protection.{World}
use podlock.Admission.{Run}
use podlock.Nri.HostFs.{HostFs, Contents, IsLawful}
use podlock.Nri.Plugin.{PodSandbox, Container, profile_of}
use podlock.Nri.Plugin.Create.{profile_key}

module _ (F : Finalizers) (S : StringSets) (laws : podlock.Sets.IsLawful S) (C : Client)
    (VC : podlock.Controller.Client.Contents C) (LC : podlock.Controller.Client.IsLawful C VC)
    (w v : World C) where
  -- The list that a profile has for the container, where the pod names the profile, the webhook
  -- admits it, and it was stored at some moment between `w` and `v`.
  pub record IsListed (pod : PodSandbox) (ctr : Container) (m : ProfileByBinary) : Type 0 where
    pub profile_name : Text
    pub profile : LandlockProfile
    pub labelled : lookup pod_profile_label pod.labels ≡ some profile_name
    pub admitted : validate_create S profile ≡ none
    pub moment : World C
    pub before : Run F S C VC w moment
    pub after : Run F S C VC moment v
    pub stored : VC.stored moment.current (profile_key pod profile_name) ≡ some profile
    pub of_container : profile_of profile ctr ≡ some m
