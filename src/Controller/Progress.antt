-- ===== src/Controller/Progress.antt =====
-- A profile that is being deleted is not forgotten: the queue of controller-runtime calls the
-- reconciler again until the profile has lost its finalizer.
use podlock.Prelude.{
  ◌≡◌, ◌≢◌, ◌⊎◌, inl, inr, refl, sym, ap, ◌∙◌, ℕ, Bool, true, false, Option, none, some, [], ◌∷◌,
  Text, contains, text_eq, ◌<◌, ltb, length, Bool-cases, arith,
}
use podlock.Finalizers.{Finalizers}
use podlock.Finalizers
use podlock.Api.{LandlockProfile, landlock_profile_finalizer, is_being_deleted}
use podlock.Controller.Client.{
  ObjectKey, key_of, GetResult, found, not_found, get_failed, ListResult, listed, list_failed,
  pod_profile_label, Client, Contents, IsLawful,
}
use podlock.Controller.Reconcile.{
  Outcome, ReconcileError, Result, without_finalizer, patched, release, handle_deletion, reconcile,
  reconcile_found,
}

-- Whether controller-runtime queues a request again, by its documentation.
pub record IsRequeuing (requeues : Result → Option ReconcileError → Bool) : Type 0 where
  pub on_error : (r : Result) (e : ReconcileError) → requeues r (some e) ≡ true
  pub on_delay : (n : ℕ) → 0 < n → requeues (record { requeue_after = some n }) none ≡ true
  pub on_done : requeues (record { requeue_after = none }) none ≡ false

-- The cluster at the three calls of the client that the reconciler may make: it changes between them.
pub record Moments (C : Client) : Type 0 where
  pub at_get : C.State
  pub at_list : C.State
  pub at_patch : C.State

-- The client whose calls meet the cluster at these moments.
abbrev pub spread : Client → Client
spread C = record {
  State = Moments C;
  get = λ w k. C.get w.at_get k;
  list_pods = λ w namespace label value. C.list_pods w.at_list namespace label value;
  patch = λ w p q. let (e, t) = C.patch w.at_patch p q in (e, record w { at_patch = t });
}

module _ (F : Finalizers) (C : Client) (V : Contents C)
    (requeues : Result → Option ReconcileError → Bool) (k : ObjectKey) where
  abbrev pub again : Outcome (spread C) → Bool
  again o = requeues o.result o.error

  -- Whatever is stored at the key is being deleted.
  abbrev pub IsDeleting : C.State → Type 0
  IsDeleting s = (p : LandlockProfile) → V.stored s k ≡ some p → is_being_deleted p ≡ true

  -- Nothing is stored at the key, or only without the finalizer.
  abbrev pub IsReleased : C.State → Type 0
  IsReleased s =
      (p : LandlockProfile)
      → V.stored s k ≡ some p
      → contains p.finalizers landlock_profile_finalizer ≡ false

  -- No pod uses the profile, and the API server answers.
  pub record CanRelease (w : Moments C) : Type 0 where
    pub reachable : (e : Text) → C.get w.at_get k ≢ get_failed e
    pub unused : C.list_pods w.at_list k.namespace pod_profile_label k.name ≡ listed []
    pub writable : (p q : LandlockProfile) → key_of p ≡ k → (C.patch w.at_patch p q).0 ≡ none

  -- The call has been made again or the profile is released.
  abbrev Settles : Outcome (spread C) → Type 0
  Settles o = (again o ≡ true) ⊎ IsReleased o.state.at_patch

  module _ (FL : podlock.Finalizers.IsLawful F) (L : IsLawful C V) (Q : IsRequeuing requeues) where
    IsReleased-none : (s : C.State) → V.stored s k ≡ none → IsReleased s
    IsReleased-none s e p h = absurd (cc)

    IsReleased-some :
        (s : C.State) (p : LandlockProfile)
        → V.stored s k ≡ some p
        → contains p.finalizers landlock_profile_finalizer ≡ false
        → IsReleased s
    IsReleased-some s p at free q h =
        let same : p ≡ q =
          ap (λ (o : Option LandlockProfile). elim o [ none ↦ p | some x ↦ x ]) (sym at ∙ h) in
        rw (sym same) free

    without_finalizer-IsFree :
        (p : LandlockProfile)
        → contains (without_finalizer F p).finalizers landlock_profile_finalizer ≡ false
    without_finalizer-IsFree p =
        FL.contains-remove p.finalizers landlock_profile_finalizer landlock_profile_finalizer
        ∙ ground arith

    -- The removal of a finalizer that is there is a difference that a patch sends.
    without_finalizer_ne :
        (p : LandlockProfile)
        → contains p.finalizers landlock_profile_finalizer ≡ true
        → p.finalizers ≢ (without_finalizer F p).finalizers
    without_finalizer_ne p held same = cc (
        sym held
        ∙ ap (λ fs. contains fs landlock_profile_finalizer) same
        ∙ without_finalizer-IsFree p)

    -- The patch was refused, and is tried again, or it has released the profile.
    patched-Settles :
        (w : Moments C) (p : LandlockProfile) (r : Option Text)
        → key_of p ≡ k
        → contains p.finalizers landlock_profile_finalizer ≡ true
        → (C.patch w.at_patch p (without_finalizer F p)).0 ≡ r
        → Settles (patched F (spread C) p (r, ((spread C).patch w p (without_finalizer F p)).1))
    patched-Settles w p (some e) named held h = inl (Q.on_error _ _)
    patched-Settles w p none named held h =
        inr (elim (L.stored-patch w.at_patch p (without_finalizer F p) h) [
          | inl gone ↦ IsReleased-none _ (ap (V.stored _) (sym named) ∙ gone)
          | inr (q, there, written) ↦ IsReleased-some _ q (ap (V.stored _) (sym named) ∙ there) (
              ap (λ fs. contains fs landlock_profile_finalizer)
                (written (without_finalizer_ne p held))
              ∙ without_finalizer-IsFree p)
        ])

    release-Settles :
        (w : Moments C) (p : LandlockProfile) (r : ListResult)
        → key_of p ≡ k
        → contains p.finalizers landlock_profile_finalizer ≡ true
        → Settles (release F (spread C) w p r)
    unfolding release
    release-Settles w p (list_failed e) named held = inl (Q.on_error _ _)
    release-Settles w p (listed []) named held = patched-Settles w p _ named held refl
    release-Settles w p (listed (q ∷ pods)) named held =
        let some_left : ltb 0 (length (q ∷ pods)) ≡ true = ground arith in
        rw some_left (inl (Q.on_delay 90 (omega arith)))

    handle_deletion-Settles :
        (w : Moments C) (p : LandlockProfile)
        → V.stored w.at_get k ≡ some p
        → key_of p ≡ k
        → (IsReleased w.at_get → IsReleased w.at_patch)
        → Settles (handle_deletion F (spread C) w p)
    unfolding handle_deletion
    handle_deletion-Settles w p at named kept =
        let test = FL.contains_finalizer-eq p.finalizers landlock_profile_finalizer in
        elim (Bool-cases (F.contains_finalizer p.finalizers landlock_profile_finalizer)) [
          | inl held ↦ rw held (
              release-Settles w p (C.list_pods w.at_list p.namespace pod_profile_label p.name) named
                (sym test ∙ held))
          | inr free ↦ rw free (inr (kept (IsReleased-some w.at_get p at (sym test ∙ free))))
        ]

    reconcile_found-Settles :
        (w : Moments C) (r : GetResult)
        → IsDeleting w.at_get
        → (IsReleased w.at_get → IsReleased w.at_patch)
        → C.get w.at_get k ≡ r
        → Settles (reconcile_found F (spread C) w k r)
    reconcile_found-Settles w (get_failed e) deleting kept h = inl (Q.on_error _ _)
    reconcile_found-Settles w not_found deleting kept h =
        inr (kept (IsReleased-none w.at_get (L.get-not_found w.at_get k h)))
    reconcile_found-Settles w (found p) deleting kept h =
        let (at, named) = L.get-found w.at_get k p h in
        rw (deleting p at) (handle_deletion-Settles w p at named kept)

    -- However the calls of the reconciler end, a profile that is being deleted is released by it,
    -- or the request is queued again.
    pub reconcile-Settles :
        (w : Moments C)
        → IsDeleting w.at_get
        → (IsReleased w.at_get → IsReleased w.at_patch)
        → Settles (reconcile F (spread C) w k)
    unfolding reconcile
    reconcile-Settles w deleting kept =
        reconcile_found-Settles w (C.get w.at_get k) deleting kept refl

    -- Once the profile can be released, the request is not queued again.
    release-done :
        (w : Moments C) (p : LandlockProfile) (r : Option Text)
        → r ≡ none
        → again (patched F (spread C) p (r, w)) ≡ false
    release-done w p none h = Q.on_done
    release-done w p (some e) h = absurd (cc)

    handle_deletion-done :
        (w : Moments C) (p : LandlockProfile)
        → key_of p ≡ k
        → CanRelease w
        → again (handle_deletion F (spread C) w p) ≡ false
    unfolding handle_deletion release
    handle_deletion-done w p named can =
        let unused : C.list_pods w.at_list p.namespace pod_profile_label p.name ≡ listed [] =
          ap (λ (q : ObjectKey). C.list_pods w.at_list q.namespace pod_profile_label q.name) named
          ∙ can.unused in
        elim (Bool-cases (F.contains_finalizer p.finalizers landlock_profile_finalizer)) [
          | inl held ↦
              rw (held, unused) (release-done _ p _ (can.writable p (without_finalizer F p) named))
          | inr free ↦ rw free Q.on_done
        ]

    reconcile_found-done :
        (w : Moments C) (r : GetResult)
        → IsDeleting w.at_get
        → C.get w.at_get k ≡ r
        → CanRelease w
        → again (reconcile_found F (spread C) w k r) ≡ false
    reconcile_found-done w (get_failed e) deleting h can = absurd (can.reachable e h)
    reconcile_found-done w not_found deleting h can = Q.on_done
    reconcile_found-done w (found p) deleting h can =
        let (at, named) = L.get-found w.at_get k p h in
        rw (deleting p at) (handle_deletion-done w p named can)

    pub reconcile-done :
        (w : Moments C)
        → IsDeleting w.at_get
        → CanRelease w
        → again (reconcile F (spread C) w k) ≡ false
    unfolding reconcile
    reconcile-done w deleting can = reconcile_found-done w (C.get w.at_get k) deleting refl can
