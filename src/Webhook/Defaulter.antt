-- ===== src/Webhook/Defaulter.antt =====
-- The defaulter of landlockprofile_webhook.go. Its error is always nil and is left out.
use podlock.Prelude.{◌≡◌, not, ◌&&◌, ◌||◌, ◌==◌, Text, contains, text_eq, arith, if◌then◌else◌}
use podlock.Finalizers.{Finalizers, IsLawful}
use podlock.Api.{LandlockProfile, landlock_profile_finalizer, is_being_deleted}

-- controllerutil.AddFinalizer(profile, LandlockProfileFinalizer)
abbrev pub add_finalizer : Finalizers → LandlockProfile → LandlockProfile
add_finalizer F p = record p {
  metadata = record (p.metadata) {
    finalizers = F.add_finalizer p.finalizers landlock_profile_finalizer;
  };
}

module _ (F : Finalizers) where
  unfoldable pub default : LandlockProfile → LandlockProfile
  default p =
      if is_being_deleted p
      then p
      else if F.contains_finalizer p.finalizers landlock_profile_finalizer
      then p
      else add_finalizer F p

  -- Nothing but the finalizers of a profile is changed. Those that it has stay and none is added,
  -- except the finalizer of the controller, to a profile that is not being deleted; and a second pass
  -- changes nothing.
  pub default_lem :
      IsLawful F
      → (p : LandlockProfile)
      → (default p
          ≡ record p { metadata = record (p.metadata) { finalizers = (default p).finalizers } })
        × ((f : Text)
            → contains (default p).finalizers f ≡ (
                contains p.finalizers f
                || not (is_being_deleted p) && f == landlock_profile_finalizer))
        × (default (default p) ≡ default p)
  unfolding default is_being_deleted
  default_lem L p =
      let fin = landlock_profile_finalizer in
      let seen = L.contains_finalizer-eq p.finalizers fin in
      let added = L.contains-add p.finalizers fin in
      let again = L.contains_finalizer-eq (F.add_finalizer p.finalizers fin) fin in
      (ground arith, λ f. ground (arith, seen, added f), ground (arith, again, added fin))
