-- ===== src/Admission.antt =====
-- The API server, which asks the webhook about each profile that is created or changed, beside the
-- reconciler: what users do to the profiles of the cluster.
pub mod Held
pub mod Valid
use podlock.Prelude.{
  ℕ, ◌≡◌, ◌≢◌, Bool, true, false, ◌&&◌, Option, none, some, [], contains, ◌==◌, text_eq, list_eq,
  if◌then◌else◌,
}
use podlock.Finalizers.{Finalizers}
use podlock.Sets.{StringSets}
use podlock.Api.{LandlockProfile, landlock_profile_finalizer, is_being_deleted}
use podlock.Webhook.Validator.{validate_create, validate_update}
use podlock.Webhook.Defaulter.{default}
use podlock.Controller.Client.{ObjectKey, key_of, Client, Contents}
use podlock.Controller.Protection.{World, Step}

-- What the API server keeps of an object: one that is being deleted goes with its last finalizer.
abbrev pub kept : LandlockProfile → Option LandlockProfile
kept p = if is_being_deleted p && p.finalizers == [] then none else some p

-- A deletion marks the object with its time.
abbrev pub marked : ℕ → LandlockProfile → LandlockProfile
marked time p = record p { metadata = record (p.metadata) { deletion_timestamp = some time } }

module _ (F : Finalizers) (S : StringSets) (C : Client) (V : Contents C) where
  -- No profile but the one at the key changes.
  abbrev Elsewhere : C.State → C.State → ObjectKey → Type 0
  Elsewhere s t k = (j : ObjectKey) → j ≢ k → V.stored t j ≡ V.stored s j

  -- The profile that a user creates or sends in place of an old one goes through the defaulter, is
  -- stored if the validator has no error, and a user cannot change the time of the deletion.
  pub data Act (s t : C.State) : Type 0 where
    creates :
        (p : LandlockProfile)
        → is_being_deleted p ≡ false
        → V.stored s (key_of p) ≡ none
        → validate_create S (default F p) ≡ none
        → V.stored t (key_of p) ≡ kept (default F p)
        → Elsewhere s t (key_of p)
        → Act s t
    updates :
        (old p : LandlockProfile)
        → V.stored s (key_of p) ≡ some old
        → p.deletion_timestamp ≡ old.deletion_timestamp
        → validate_update S old (default F p) ≡ none
        → V.stored t (key_of p) ≡ kept (default F p)
        → Elsewhere s t (key_of p)
        → Act s t
    deletes :
        (time : ℕ) (k : ObjectKey) (p : LandlockProfile)
        → V.stored s k ≡ some p
        → V.stored t k ≡ kept (marked time p)
        → Elsewhere s t k
        → Act s t
    -- Something else is done, to pods for one.
    leaves : ((j : ObjectKey) → V.stored t j ≡ V.stored s j) → Act s t

  -- A user does not take the finalizer of the controller from a profile that is being deleted.
  abbrev pub IsCareful : {s t : C.State} → Act s t → Type 0
  IsCareful (updates old p _ _ _ _ _) =
      is_being_deleted p ≡ true
      → contains old.finalizers landlock_profile_finalizer ≡ true
      → contains p.finalizers landlock_profile_finalizer ≡ true
  IsCareful _ = Unit

  abbrev pub CarefulAct : C.State → C.State → Type 0
  CarefulAct s t = (act : Act s t) × IsCareful act

  -- Steps of the reconciler and of the users, in any order.
  pub data Run : World C → World C → Type 0 where
    stop : (w : World C) → Run w w
    go : {w v u : World C} → Step F C V Act w v → Run v u → Run w u
