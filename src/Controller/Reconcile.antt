-- ===== src/Controller/Reconcile.antt =====
-- Reconcile, handleDeletion and findProfilesForPod.
use podlock.Prelude.{ℕ, Option, none, some, List, [], ◌∷◌, Text, length, ltb, if◌then◌else◌}
use podlock.Map.{lookup}
use podlock.Finalizers.{Finalizers}
use podlock.Api.{LandlockProfile, landlock_profile_finalizer, is_being_deleted}
use podlock.Controller.Client.{
  ObjectKey, Pod, GetResult, found, not_found, get_failed, listed, list_failed, ListResult,
  pod_profile_label, Client,
}

-- ctrl.Result: the seconds after which the request is queued again, if it is.
pub record Result : Type 0 where
  pub requeue_after : Option ℕ

abbrev pub done : Result
done = record { requeue_after = none }

pub data ReconcileError : Type 0 where
  get_error : ObjectKey → Text → ReconcileError
  list_error : Text → ReconcileError
  patch_error : Text → Text → Text → ReconcileError

-- The result, the error if there is one, and the cluster afterwards.
abbrev pub Outcome : Client → Type 0
Outcome C = record { result : Result; error : Option ReconcileError; state : C.State }

-- profile.DeepCopy(), then controllerutil.RemoveFinalizer on the profile
abbrev pub without_finalizer : Finalizers → LandlockProfile → LandlockProfile
without_finalizer F p = record p {
  metadata = record (p.metadata) {
    finalizers = F.remove_finalizer p.finalizers landlock_profile_finalizer;
  };
}

module _ (F : Finalizers) (C : Client) where
  abbrev pub patched : LandlockProfile → Option Text × C.State → Outcome C
  patched p (none, s) = record { result = done; error = none; state = s }
  patched p (some e, s) = record {
    result = done;
    error = some (patch_error p.namespace p.name e);
    state = s;
  }

  -- What follows the list of pods.
  unfoldable pub release : C.State → LandlockProfile → ListResult → Outcome C
  release s p (list_failed e) = record { result = done; error = some (list_error e); state = s }
  release s p (listed pods) =
      if ltb 0 (length pods)
      then record { result = record { requeue_after = some 90 }; error = none; state = s }
      else patched p (C.patch s p (without_finalizer F p))

  unfoldable pub handle_deletion : C.State → LandlockProfile → Outcome C
  unfolding release
  handle_deletion s p =
      if F.contains_finalizer p.finalizers landlock_profile_finalizer
      then release s p (C.list_pods s p.namespace pod_profile_label p.name)
      else record { result = done; error = none; state = s }

  abbrev pub reconcile_found : C.State → ObjectKey → GetResult → Outcome C
  reconcile_found s k (get_failed e) = record {
    result = done;
    error = some (get_error k e);
    state = s;
  }
  reconcile_found s k not_found = record { result = done; error = none; state = s }
  reconcile_found s k (found p) =
      if is_being_deleted p
      then handle_deletion s p
      else record { result = done; error = none; state = s }

  unfoldable pub reconcile : C.State → ObjectKey → Outcome C
  reconcile s k = reconcile_found s k (C.get s k)

-- findProfilesForPod
unfoldable pub find_profiles_for_pod : Pod → List ObjectKey
find_profiles_for_pod pod = elim (lookup pod_profile_label pod.labels) [
  | none ↦ []
  | some profile_name ↦ record { namespace = pod.namespace; name = profile_name } ∷ []
]
