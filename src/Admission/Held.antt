-- ===== src/Admission/Held.antt =====
-- The finalizer that the defaulter adds protects the profile.
use podlock.Prelude.{
  [], ◌≡◌, ◌≢◌, inl, inr, sym, ◌∙◌, ap, Bool, true, false, some, contains, text_eq, list_eq, arith,
  Bool-cases,
}
use podlock.Finalizers.{Finalizers}
use podlock.Finalizers
use podlock.Sets.{StringSets}
use podlock.Api.{LandlockProfile, landlock_profile_finalizer, is_being_deleted}
use podlock.Webhook.Defaulter.{default, default_lem}
use podlock.Controller.Client.{ObjectKey, key_of, key_eq, Pod, Uses, Client, Contents, IsLawful}
use podlock.Controller.Protection.{Patch, World, RunWith, IsHeld, IsHeld-run}
use podlock.Admission.{CarefulAct, creates, updates, deletes, leaves, kept, marked}

abbrev has_finalizer : LandlockProfile → Bool
has_finalizer p = contains p.finalizers landlock_profile_finalizer

-- The API server keeps what carries the finalizer.
kept-eq : (p : LandlockProfile) → has_finalizer p ≡ true → kept p ≡ some p
kept-eq p h = ground arith

module _ (F : Finalizers) (FL : podlock.Finalizers.IsLawful F) where
  has_finalizer-default :
      (p : LandlockProfile)
      → (is_being_deleted p ≡ true → has_finalizer p ≡ true)
      → has_finalizer (default F p) ≡ true
  has_finalizer-default p h =
      let (_, added, _) = default_lem F FL p in
      added landlock_profile_finalizer ∙ elim (Bool-cases (is_being_deleted p)) [
        | inl deleted ↦ let held = h deleted in ground arith
        | inr live ↦ ground arith
      ]

  module _ (S : StringSets) (C : Client) (V : Contents C) where
    abbrev IsKept : C.State → ObjectKey → Type 0
    IsKept = IsHeld F C V (CarefulAct F S C V)

    stored-IsKept :
        (s t : C.State) (j k : ObjectKey) (p : LandlockProfile)
        → V.stored t j ≡ kept p
        → ((i : ObjectKey) → i ≢ j → V.stored t i ≡ V.stored s i)
        → (k ≡ j → has_finalizer p ≡ true)
        → IsKept s k
        → IsKept t k
    stored-IsKept s t j k p at elsewhere held h = elim (key_eq.dec k j) [
      | yes same ↦ record {
        profile = p;
        at = ap (V.stored t) same ∙ at ∙ kept-eq p (held same);
        held = held same;
      }
      | no other ↦ record { profile = h.profile; at = elsewhere k other ∙ h.at; held = h.held }
    ]

    Act-IsKept : (s t : C.State) (k : ObjectKey) → CarefulAct F S C V s t → IsKept s k → IsKept t k
    Act-IsKept s t k (creates p live absent _ at elsewhere, _) h =
        stored-IsKept s t (key_of p) k (default F p) at elsewhere
          (λ _. has_finalizer-default p (λ deleted. absurd (cc))) h
    Act-IsKept s t k (updates old p there same_time _ at elsewhere, careful) h =
        stored-IsKept s t (key_of p) k (default F p) at elsewhere
          (λ same. has_finalizer-default p (λ deleted. careful deleted (
            let found : some old ≡ some h.profile = sym there ∙ ap (V.stored s) (sym same) ∙ h.at in
            let same_profile : old ≡ h.profile = cc in ap has_finalizer same_profile ∙ h.held)))
          h
    Act-IsKept s t k (deletes time j p there at elsewhere, _) h =
        stored-IsKept s t j k (marked time p) at elsewhere
          (λ same.
            let found : some p ≡ some h.profile = sym there ∙ ap (V.stored s) (sym same) ∙ h.at in
            let same_profile : p ≡ h.profile = cc in ap has_finalizer same_profile ∙ h.held)
          h
    Act-IsKept s t k (leaves same, _) h = record {
      profile = h.profile;
      at = same k ∙ h.at;
      held = h.held;
    }

    -- A profile that is stored as the defaulter leaves it, and that was not being deleted then, is
    -- stored and carries the finalizer for as long as a pod uses it: whatever profiles the users
    -- create, update or delete, this one too, and whenever the reconciler runs, also when other
    -- steps come between its list of the pods and its patch, and it reads from caches that may be
    -- behind. At first no patch of the profile is under way, and the cache of the pods has the pod; it
    -- moves to past states of the run only. Users do not take the finalizer from a profile that is
    -- being deleted.
    pub defaulted-IsHeld :
        IsLawful C V
        → (p : LandlockProfile) (w v : World C) (pod : Pod) → is_being_deleted p ≡ false
        → V.stored w.current (key_of p) ≡ some (default F p)
        → ((q : Patch) → w.pending ≡ some q → key_of q.modified ≢ key_of p)
        → V.runs w.pods pod ≡ true
        → w.past ≡ []
        → Uses pod (key_of p)
        → RunWith F C V (CarefulAct F S C V) pod w v
        → IsHeld F C V (CarefulAct F S C V) v.current (key_of p)
    defaulted-IsHeld L p w v pod live at idle cached start uses run =
        IsHeld-run F C V (CarefulAct F S C V) L Act-IsKept pod (key_of p) uses run (record {
          holds = record {
            profile = default F p;
            at = at;
            held = has_finalizer-default p (λ deleted. absurd (cc));
          };
          not_pending = idle;
          cached = cached;
          seen = rw start tt;
        })
