-- ===== src/Tests/Admission.antt =====
-- A profile in the cluster, from its creation by a user on.
use podlock.Prelude.{
  ◌≡◌, ◌≢◌, refl, sym, ◌∙◌, false, none, some, [], ◌∷◌, codes, text_eq, list_eq, arith,
}
use podlock.Map.{lookup}
use podlock.Io.{ok, err}
use podlock.Finalizers.{list_finalizers, list_finalizers-IsLawful, add}
use podlock.Sets.{list_sets, list_sets-IsLawful}
use podlock.Api.{LandlockProfile, is_being_deleted}
use podlock.Webhook.Defaulter.{default}
use podlock.Webhook.Validator.{validate_create}
use podlock.Controller.Client.{ObjectKey, Pod, Uses, key_eq, key_of, pod_profile_label}
use podlock.Controller.Memory.{Cluster, find, pod_eq, memory, contents, memory-IsLawful}
use podlock.Controller.Reconcile.{reconcile}
use podlock.Controller.Protection.{
  Patch, IsHeld, deferred, World, becomes, looked, other, saw_profiles,
}
use podlock.Controller.Protection
use podlock.Nri.Plugin.Lifecycle.{Cache, AreAdmitted}
use podlock.Admission.{Act, CarefulAct, creates, deletes, marked, Run, stop, go}
use podlock.Admission.Held.{defaulted-IsHeld}
use podlock.Admission.Valid.{IsServed, Run-AreAdmitted}
use podlock.Tests.Controller.{fresh}
use podlock.Tests.Data.{good}
use podlock.Tests.Created.{good_admitted}

-- What the user sends has no finalizer yet.
abbrev sent : LandlockProfile
sent = record good { metadata = record (good.metadata) { finalizers = [] } }

abbrev key : ObjectKey
key = key_of good

abbrev web : Pod
web = record {
  namespace = codes "default";
  name = codes "web";
  labels = (pod_profile_label, codes "nginx") ∷ [];
}

abbrev Acts : Cluster → Cluster → Type 0
Acts = Act list_finalizers list_sets memory contents

abbrev pub empty : Cluster
empty = record { profiles = []; pods = web ∷ [] }

abbrev stored : Cluster
stored = record empty { profiles = good ∷ [] }

abbrev deleted : Cluster
deleted = record empty { profiles = marked 7 good ∷ [] }

sent-default : default list_finalizers sent ≡ good
unfolding default is_being_deleted add text_eq
sent-default = refl

find_ne : (p : LandlockProfile) (k : ObjectKey) → k ≢ key_of p → find (p ∷ []) k ≡ none
unfolding find
find_ne p k h = ground arith

created : Acts empty stored
unfolding find is_being_deleted default add text_eq key_eq list_eq
created = creates sent refl refl good_admitted refl (λ j h. find_ne good j h)

marked_deleted : Acts stored deleted
unfolding find is_being_deleted text_eq key_eq list_eq
marked_deleted =
    deletes 7 key good refl refl (λ j h. find_ne (marked 7 good) j h ∙ sym (find_ne good j h))

web-Uses : Uses web key
unfolding lookup text_eq
web-Uses = record { same_namespace = refl; labelled = refl }

-- The profile has been deleted, and the cache of the profiles shows it.
abbrev is_told : World memory
is_told = record (becomes (fresh stored) deleted) { profiles = deleted }

-- The user deletes the profile, and the reconciler looks at it.
defaulted-IsHeld_example :
    IsHeld list_finalizers memory contents
      (CarefulAct list_finalizers list_sets memory contents)
      (reconcile list_finalizers (deferred memory) is_told key).state.current
      (key_of sent)
unfolding find is_being_deleted default add text_eq key_eq pod_eq marked_deleted
defaulted-IsHeld_example =
    defaulted-IsHeld list_finalizers list_finalizers-IsLawful list_sets memory contents
      memory-IsLawful sent (fresh stored)
      (reconcile list_finalizers (deferred memory) is_told key).state web refl refl
      (λ q e. absurd (cc)) refl refl web-Uses
      (podlock.Controller.Protection.go refl (other deleted (marked_deleted, tt) refl) (
        podlock.Controller.Protection.go refl (saw_profiles deleted refl) (
          podlock.Controller.Protection.go refl (looked key refl refl)
            (podlock.Controller.Protection.stop _))))

-- A cache that still has the profile as it was before the deletion.
abbrev pub cached : Cache
cached k = elim (find stored.profiles k) [
  | none ↦ err (record { message = codes "not found"; not_exist = false })
  | some p ↦ ok p
]

abbrev after_creation : World memory
after_creation = becomes (fresh empty) stored

abbrev pub after_deletion : World memory
after_deletion = becomes after_creation deleted

to_stored : Run list_finalizers list_sets memory contents (fresh empty) after_creation
to_stored = go (other stored created refl) (stop _)

to_deleted : Run list_finalizers list_sets memory contents after_creation after_deletion
to_deleted = go (other deleted marked_deleted refl) (stop _)

pub both : Run list_finalizers list_sets memory contents (fresh empty) after_deletion
both = go (other stored created refl) to_deleted

pub cached-IsServed :
    IsServed list_finalizers list_sets list_sets-IsLawful memory contents memory-IsLawful cached
      (fresh empty)
      after_deletion
cached-IsServed k p h = (after_creation, to_stored, to_deleted, ground arith)

Run-AreAdmitted_example :
    ((k : ObjectKey) (p : LandlockProfile)
      → contents.stored deleted k ≡ some p
      → validate_create list_sets p ≡ none)
    × AreAdmitted list_sets cached
unfolding find
Run-AreAdmitted_example =
    Run-AreAdmitted list_finalizers list_sets list_sets-IsLawful memory contents memory-IsLawful
      (fresh empty) after_deletion (λ k. refl) refl both cached cached-IsServed
