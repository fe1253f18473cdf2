-- ===== src/Controller/Branches.antt =====
-- When the reconciler touches the cluster, and what it answers.
use podlock.Prelude.{◌≡◌, ◌⊎◌, inl, inr, refl, true, [], ◌∷◌, arith, Bool-cases}
use podlock.Finalizers.{Finalizers}
use podlock.Api.{LandlockProfile, landlock_profile_finalizer, is_being_deleted}
use podlock.Controller.Client.{
  ObjectKey, GetResult, found, not_found, get_failed, ListResult, listed, list_failed,
  pod_profile_label, Client,
}
use podlock.Controller.Reconcile.{
  without_finalizer, release, handle_deletion, reconcile, reconcile_found,
}

module _ (F : Finalizers) (C : Client) (s : C.State) (k : ObjectKey) where
  -- The one situation in which the reconciler writes.
  pub record Releases (t : C.State) : Type 0 where
    pub profile : LandlockProfile
    pub got : C.get s k ≡ found profile
    pub deleted : is_being_deleted profile ≡ true
    pub has_finalizer : F.contains_finalizer profile.finalizers landlock_profile_finalizer ≡ true
    pub unused : C.list_pods s profile.namespace pod_profile_label profile.name ≡ listed []
    pub written : t ≡ (C.patch s profile (without_finalizer F profile)).1

  release-cases :
      (p : LandlockProfile) (r : ListResult)
      → ((release F C s p r).state ≡ s)
        ⊎ ((r ≡ listed []) × ((release F C s p r).state ≡ (C.patch s p (without_finalizer F p)).1))
  unfolding release
  release-cases p (list_failed e) = inl refl
  release-cases p (listed []) = inr (refl, ground arith)
  release-cases p (listed (q ∷ pods)) = inl (ground arith)

  handle_deletion-cases :
      (p : LandlockProfile)
      → ((handle_deletion F C s p).state ≡ s)
        ⊎ ((F.contains_finalizer p.finalizers landlock_profile_finalizer ≡ true)
            × (C.list_pods s p.namespace pod_profile_label p.name ≡ listed [])
            × ((handle_deletion F C s p).state ≡ (C.patch s p (without_finalizer F p)).1))
  unfolding handle_deletion
  handle_deletion-cases p =
      let pods = C.list_pods s p.namespace pod_profile_label p.name in
      elim (Bool-cases (F.contains_finalizer p.finalizers landlock_profile_finalizer)) [
        | inl held ↦ rw held (elim (release-cases p pods) [
          | inl kept ↦ inl kept
          | inr (unused, written) ↦ inr (refl, unused, written)
        ])
        | inr free ↦ inl (rw free)
      ]

  reconcile_found-cases :
      (r : GetResult)
      → C.get s k ≡ r
      → ((reconcile_found F C s k r).state ≡ s) ⊎ Releases (reconcile_found F C s k r).state
  reconcile_found-cases not_found e = inl refl
  reconcile_found-cases (get_failed m) e = inl refl
  reconcile_found-cases (found p) e = elim (Bool-cases (is_being_deleted p)) [
    | inl deleted ↦ rw deleted (elim (handle_deletion-cases p) [
      | inl kept ↦ inl kept
      | inr (has, unused, written) ↦ inr (record {
        profile = p;
        got = e;
        deleted = deleted;
        has_finalizer = has;
        unused = unused;
        written = written;
      })
    ])
    | inr live ↦ inl (rw live)
  ]

  -- Whatever the client answers, the reconciler leaves the cluster as it is, or the profile is
  -- being deleted, holds the finalizer, and the list of the pods that use it is empty; then what it
  -- writes is the profile without the finalizer.
  pub reconcile-writes : ((reconcile F C s k).state ≡ s) ⊎ Releases (reconcile F C s k).state
  unfolding reconcile
  reconcile-writes = reconcile_found-cases (C.get s k) refl
