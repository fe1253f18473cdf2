-- ===== src/Tests/Controller.antt =====
-- The reconciler, over a cluster in memory.
use podlock.Prelude.{
  sym, Bool, false, Option, ◌↔◌, contains, ltb, arith, ◌≡◌, ◌⊎◌, refl, ap, true, none, some, [],
  ◌∷◌, codes, text_eq,
}
use podlock.Map.{lookup}
use podlock.Finalizers.{list_finalizers, list_finalizers-IsLawful, remove}
use podlock.Api.{LandlockProfile, is_being_deleted}
use podlock.Controller.Client.{key_eq, ObjectKey, Pod, Uses, pod_profile_label}
use podlock.Controller.Memory.{
  Cluster, find, select, erase, pod_eq, memory, contents, memory-IsLawful,
}
use podlock.Controller.Reconcile.{
  Result, ReconcileError, Outcome, reconcile, handle_deletion, release, find_profiles_for_pod,
}
use podlock.Controller.Branches.{Releases, reconcile-writes}
use podlock.Controller.Protection.{Patch, World, deferred}
use podlock.Controller.Progress.{Moments, IsRequeuing, IsDeleting, IsReleased, CanRelease}
use podlock.Controller.Attempts.{Turn, moments, attempts, Keep, attempts-IsReleased}
use podlock.Controller.Requests.{find_profiles_for_pod-Uses}
use podlock.Tests.Data.{good}

abbrev web : Pod
web = record {
  namespace = codes "default";
  name = codes "web";
  labels = (pod_profile_label, codes "nginx") ∷ [];
}

abbrev key : ObjectKey
key = record { namespace = codes "default"; name = codes "nginx" }

-- Somebody has asked for the deletion of the profile.
abbrev deleting : LandlockProfile
deleting = record good { metadata = record (good.metadata) { deletion_timestamp = some 7 } }

abbrev in_use : Cluster
in_use = record { profiles = deleting ∷ []; pods = web ∷ [] }

abbrev unused : Cluster
unused = record { profiles = deleting ∷ []; pods = [] }

run : Cluster → Outcome memory
unfolding reconcile handle_deletion is_being_deleted find select erase key_eq pod_eq lookup text_eq
    remove
run s = reconcile list_finalizers memory s key

waits :
    run in_use
    ≡ record { result = record { requeue_after = some 90 }; error = none; state = in_use }
unfolding run
waits = refl

releases : (run unused).state ≡ record { profiles = []; pods = [] }
unfolding run
releases = refl

reconcile-writes_example :
    ((reconcile list_finalizers memory unused key).state ≡ unused)
    ⊎ Releases list_finalizers memory unused key (reconcile list_finalizers memory unused key).state
reconcile-writes_example = reconcile-writes list_finalizers memory unused key

-- A cluster with caches that are not behind.
abbrev pub fresh : Cluster → World memory
fresh s = record { current = s; past = []; profiles = s; pods = s; pending = none }

-- The pod is created between the list of the pods and the patch, or the cache does not have it yet.
sent : Cluster → Option Patch → Cluster
sent s none = s
sent s (some p) = (memory.patch s p.original p.modified).1

race : Cluster
race = sent in_use (reconcile list_finalizers (deferred memory) (fresh unused) key).state.pending

race-eq : race ≡ record { profiles = []; pods = web ∷ [] }
unfolding race reconcile handle_deletion is_being_deleted find select erase key_eq pod_eq lookup
    text_eq remove sent
race-eq = refl

find_profiles_for_pod-Uses_example :
    (contains (find_profiles_for_pod web) key ≡ true) ↔ Uses web key
find_profiles_for_pod-Uses_example = find_profiles_for_pod-Uses web key

-- The queue of controller-runtime, by its documentation.
abbrev requeues : Result → Option ReconcileError → Bool
requeues r (some e) = true
requeues r none = elim r.requeue_after [ none ↦ false | some n ↦ ltb 0 n ]

requeues-IsRequeuing : IsRequeuing requeues
requeues-IsRequeuing = record {
  on_error = λ r e. refl;
  on_delay = λ n h. ground arith;
  on_done = refl;
}

-- The pod goes away during the second call, before the reconciler lists the pods.
pod_gone : Cluster → Cluster
pod_gone s = record s { pods = [] }

abbrev quiet : Turn memory
quiet = record { before_list = λ s. s; before_patch = λ s. s; afterwards = λ s. s }

abbrev leaves : Turn memory
leaves = record quiet { before_list = pod_gone }

in_use-IsDeleting : IsDeleting list_finalizers memory contents requeues key in_use
unfolding find key_eq text_eq is_being_deleted
in_use-IsDeleting p at =
    ap (λ (o : Option LandlockProfile). elim o [ none ↦ true | some x ↦ is_being_deleted x ])
      (sym at)

turns-Keep : Keep list_finalizers memory contents requeues key (quiet ∷ leaves ∷ [])
unfolding pod_gone
turns-Keep = (
  λ s h. (h, λ r. r),
  λ s h. (h, λ r. r),
  λ s h. (h, λ r. r),
  (λ s h. (h, λ r. r), λ s h. (h, λ r. r), λ s h. (h, λ r. r), tt),
)

abbrev second_call : Moments memory
second_call =
    moments memory leaves
      (attempts list_finalizers memory contents requeues key (quiet ∷ []) in_use).0

second_call-CanRelease : CanRelease list_finalizers memory contents requeues key second_call
unfolding attempts reconcile handle_deletion release is_being_deleted find select key_eq pod_eq
    lookup text_eq pod_gone
second_call-CanRelease = record {
  reachable = λ e h. absurd (cc);
  unused = refl;
  writable = λ p q h. refl;
}

attempts-IsReleased_example :
    let end = attempts list_finalizers memory contents requeues key (quiet ∷ leaves ∷ []) in_use in
    (end.1 ≡ false) × IsReleased list_finalizers memory contents requeues key end.0
attempts-IsReleased_example =
    attempts-IsReleased list_finalizers memory contents requeues key list_finalizers-IsLawful
      memory-IsLawful requeues-IsRequeuing (quiet ∷ []) [] leaves in_use turns-Keep
      in_use-IsDeleting second_call-CanRelease
