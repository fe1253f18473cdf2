-- ===== src/Tests/Lifecycle.antt =====
-- The events of two pods, one after the other, and a shell that is run after them.
use podlock.Prelude.{
  ◌≡◌, ◌≢◌, refl, subst, some, none, List, [], ◌∷◌, Text, codes, All, apart, ◌==◌, text_eq, nat_eq,
  arith, if◌then◌else◌,
}
use podlock.FilePath.{join, clean}
use podlock.FilePath.Components.{IsName}
use podlock.Map.{lookup}
use podlock.Io.{Result, ok}
use podlock.Sets.{list_sets, list_sets-IsLawful}
use podlock.Webhook.Validator.{validate_create}
use podlock.Nri.Memory.{
  Files, is_below, is_below_complete, memory, memory_contents, memory-IsLawful,
}
use podlock.Nri.Paths.{landlock_profile_path_on_host, podlock_runtime_pod_dir}
use podlock.Nri.Paths.Distinct.{IsBelow}
use podlock.Nri.Paths.Files.{IsFileOf, profile_file, IsFileOf-IsBelow}
use podlock.Nri.Filesystem.{
  reserve_swapped_binaries, reserve_path, write_landlock_profile_to_host_filesystem, write_profile,
}
use podlock.Nri.Plugin.{PodSandbox, create_container, remove_container, adjust, adjust_labelled}
use podlock.Nri.Plugin.Create.{IsAdjusted}
use podlock.Nri.Plugin.Lifecycle.{
  AreAdmitted, Event, creates, removes, others, run, Spares, remove_container-StaysRemoved,
}
use podlock.Nri.Plugin.Interleaved.{busy, create_container-IsKept_interleaved}
use podlock.Nri.HostFs.{HostFs}
use podlock.Tests.Data.{good, pod_uid, IsName-pod_uid}
use podlock.Tests.Codec.{encode}
use podlock.Tests.Pipeline.{pod, web, get, no_files, adjustment}
use podlock.Tests.Created.{good_admitted}

good-AreAdmitted : AreAdmitted list_sets get
good-AreAdmitted k p e =
    let same : good ≡ p = cc in subst (λ x. validate_create list_sets x ≡ none) same good_admitted

abbrev other_pod : PodSandbox
other_pod = record pod { id = codes "pod456" }

IsName-other : IsName (codes "pod456")
unfolding nat_eq
IsName-other = (refl, λ e. cc, λ e. cc, λ e. cc)

pub IsName-web : IsName (codes "nginx")
unfolding nat_eq
IsName-web = (refl, λ e. cc, λ e. cc, λ e. cc)

-- A container of the other pod comes and goes, and another program writes a file of its own.
abbrev pub events : List (Event memory)
events =
    creates get other_pod web
    ∷ others (λ s q. if q == codes "/etc/motd" then some (codes "hello") else s q)
    ∷ removes other_pod web
    ∷ []

other_ne : codes "pod456" ≢ pod_uid
unfolding text_eq
other_ne = apart (codes "pod456") pod_uid refl

motd_not-IsBelow : ¬ IsBelow (podlock_runtime_pod_dir pod_uid) (codes "/etc/motd")
unfolding is_below podlock_runtime_pod_dir join clean text_eq
motd_not-IsBelow b = cc (is_below_complete (podlock_runtime_pod_dir pod_uid) (codes "/etc/motd") b)

others-spare :
    (s : Files) (x : Text)
    → IsFileOf pod_uid (codes "nginx") x
    → (if x == codes "/etc/motd" then some (codes "hello") else s x) ≡ s x
others-spare s x own = elim (text_eq.dec x (codes "/etc/motd")) [
  | yes same ↦ absurd (
      motd_not-IsBelow (
        subst (IsBelow (podlock_runtime_pod_dir pod_uid)) same
          (IsFileOf-IsBelow pod_uid (codes "nginx") x IsName-pod_uid IsName-web own)))
  | no other ↦ ground arith
]

pub events-Spares : All (Spares memory memory_contents list_sets pod_uid (codes "nginx")) events
events-Spares = (
  (IsName-other, IsName-web, good-AreAdmitted, λ e. other_ne e.0),
  (others-spare, ((IsName-other, other_ne), tt)),
)

-- The same happens before each call of the handler.
abbrev pub crowd : HostFs
crowd = busy memory memory_contents memory-IsLawful encode (codes "info") (λ n. events)

amid_ok :
    (create_container crowd encode get (codes "info") (some pod) (some web) (no_files, 0)).0
    ≡ ok (some adjustment)
unfolding create_container adjust adjust_labelled reserve_swapped_binaries reserve_path
    write_landlock_profile_to_host_filesystem write_profile lookup text_eq podlock.Io.◌>>=◌
amid_ok = refl

abbrev amid : Files
amid = (create_container crowd encode get (codes "info") (some pod) (some web) (no_files, 0)).1.0

create_container-IsKept_interleaved_example :
    IsAdjusted memory memory_contents encode memory-IsLawful get
      (codes "info")
      pod
      web
      (run memory encode (codes "info") events amid)
      adjustment
create_container-IsKept_interleaved_example =
    create_container-IsKept_interleaved memory memory_contents memory-IsLawful encode (codes "info")
      list_sets list_sets-IsLawful get good-AreAdmitted pod web IsName-pod_uid IsName-web
      (λ n. events) (λ n. events-Spares) (no_files, 0) adjustment amid_ok events events-Spares

removed_ok : (remove_container memory pod web no_files).0 ≡ ok tt
unfolding remove_container
removed_ok = refl

remove_container-StaysRemoved_example :
    run memory encode
      (codes "info")
      (removes pod web ∷ events)
      no_files
      (landlock_profile_path_on_host pod_uid (codes "nginx"))
    ≡ none
remove_container-StaysRemoved_example =
    remove_container-StaysRemoved memory memory_contents memory-IsLawful encode (codes "info")
      list_sets list_sets-IsLawful pod web no_files IsName-pod_uid removed_ok (codes "nginx")
      IsName-web events events-Spares (landlock_profile_path_on_host pod_uid (codes "nginx"))
      (profile_file refl)
