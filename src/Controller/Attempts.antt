-- ===== src/Controller/Attempts.antt =====
-- The calls of the reconciler that one request causes, until it is not queued again, where the others
-- act on the cluster at any time, also between the calls of the client.
use podlock.Prelude.{
  ◌≡◌, ◌⊎◌, inl, inr, refl, sym, ap, ◌∙◌, subst, ℕ, Bool, true, false, Option, none, some, List, [],
  ◌∷◌, ◌++◌, Bool-cases,
}
use podlock.Finalizers.{Finalizers}
use podlock.Finalizers
use podlock.Api.{is_being_deleted}
use podlock.Controller.Client.{ObjectKey, key_of, Client, Contents, IsLawful}
use podlock.Controller.Reconcile.{ReconcileError, Result, without_finalizer, reconcile}
use podlock.Controller.Branches.{Releases, reconcile-writes}
use podlock.Controller.Progress.{
  Moments, spread, IsRequeuing, again, IsDeleting, IsReleased, CanRelease, reconcile-Settles,
  reconcile-done,
}

module _ (C : Client) where
  -- What the other actors do to the cluster during one call of the reconciler and after it.
  pub record Turn : Type 0 where
    pub before_list : C.State → C.State
    pub before_patch : C.State → C.State
    pub afterwards : C.State → C.State

  abbrev pub moments : Turn → C.State → Moments C
  moments turn s = record {
    at_get = s;
    at_list = turn.before_list s;
    at_patch = turn.before_patch (turn.before_list s);
  }

module _ (F : Finalizers) (C : Client) (V : Contents C)
    (requeues : Result → Option ReconcileError → Bool) (k : ObjectKey) where
  abbrev next : Bool → C.State → C.State × Bool → C.State × Bool
  next true s rest = rest
  next false s rest = (s, false)

  -- What the reconciler makes of the request, called again and again: the cluster, and whether the
  -- request is still in the queue.
  unfoldable pub attempts : List (Turn C) → C.State → C.State × Bool
  attempts [] s = (s, true)
  attempts (turn ∷ turns) s =
      let o = reconcile F (spread C) (moments C turn s) k in
      let rest = attempts turns (turn.afterwards o.state.at_patch) in
      next (again F C V requeues k o) o.state.at_patch rest

  -- The other actors do not undo a deletion, and give no finalizer to what is being deleted, as the
  -- API server demands.
  abbrev Keeps : (C.State → C.State) → Type 0
  Keeps change =
      (s : C.State)
      → IsDeleting F C V requeues k s
      → IsDeleting F C V requeues k (change s)
        × (IsReleased F C V requeues k s → IsReleased F C V requeues k (change s))

  abbrev pub Keep : List (Turn C) → Type 0
  Keep [] = Unit
  Keep (turn ∷ turns) =
      Keeps turn.before_list × Keeps turn.before_patch × Keeps turn.afterwards × Keep turns

  module _ (FL : podlock.Finalizers.IsLawful F) (L : IsLawful C V) (Q : IsRequeuing requeues) where
    IsDeleting-patch :
        (w v : Moments C)
        → IsDeleting F C V requeues k w.at_patch
        → Releases F (spread C) w k v
        → IsDeleting F C V requeues k v.at_patch
    unfolding is_being_deleted
    IsDeleting-patch w v deleting r p at =
        let (stored, named) = L.get-found w.at_get k r.profile r.got in
        let modified = without_finalizer F r.profile in
        let here : V.stored (C.patch w.at_patch r.profile modified).1 (key_of modified) ≡ some p =
          ap (V.stored _) named
          ∙ ap (λ (x : Moments C). V.stored x.at_patch k) (sym r.written)
          ∙ at in
        elim (L.stored-patch_any w.at_patch r.profile modified) [
          | inl kept ↦ deleting p (ap (V.stored w.at_patch) (sym named) ∙ sym kept ∙ here)
          | inr (inl gone) ↦ absurd (cc)
          | inr (inr (b, q, before, there, same_time, _)) ↦
              let same : q ≡ p = cc in
              ap is_being_deleted (sym same)
              ∙ ap (λ (o : Option ℕ). elim o [ none ↦ false | some t ↦ true ]) (same_time refl)
              ∙ deleting b (ap (V.stored w.at_patch) (sym named) ∙ before)
        ]

    reconcile-IsDeleting :
        (w : Moments C)
        → IsDeleting F C V requeues k w.at_patch
        → IsDeleting F C V requeues k (reconcile F (spread C) w k).state.at_patch
    reconcile-IsDeleting w deleting = elim (reconcile-writes F (spread C) w k) [
      | inl kept ↦ rw kept deleting
      | inr r ↦ IsDeleting-patch w _ deleting r
    ]

    -- What holds at the moments of a call, and after it.
    pub record IsOrderly (turn : Turn C) (s : C.State) : Type 0 where
      pub released :
          IsReleased F C V requeues k s → IsReleased F C V requeues k (moments C turn s).at_patch
      pub afterwards :
          IsDeleting F C V requeues k
            (turn.afterwards (reconcile F (spread C) (moments C turn s) k).state.at_patch)

    Keep-IsOrderly :
        (turn : Turn C) (turns : List (Turn C)) (s : C.State)
        → Keep (turn ∷ turns)
        → IsDeleting F C V requeues k s
        → IsOrderly turn s
    Keep-IsOrderly turn turns s (keep_list, keep_patch, keep_after, _) deleting =
        let (listed, released) = keep_list s deleting in
        let (patched, still) = keep_patch _ listed in
        record {
          released = λ free. still (released free);
          afterwards = (keep_after _ (reconcile-IsDeleting (moments C turn s) patched)).0;
        }

    next-settles :
        (b : Bool) (s : C.State) (rest : C.State × Bool)
        → (b ≡ true) ⊎ IsReleased F C V requeues k s
        → (rest.1 ≡ true) ⊎ IsReleased F C V requeues k rest.0
        → let end = next b s rest in (end.1 ≡ true) ⊎ IsReleased F C V requeues k end.0
    next-settles true s rest now later = later
    next-settles false s rest (inl queued) later = absurd (cc)
    next-settles false s rest (inr released) later = inr released

    -- The request of a profile that is being deleted stays in the queue until the profile is
    -- released, whatever fails meanwhile.
    pub attempts-settles :
        (turns : List (Turn C)) (s : C.State)
        → Keep turns
        → IsDeleting F C V requeues k s
        → let end = attempts turns s in (end.1 ≡ true) ⊎ IsReleased F C V requeues k end.0
    unfolding attempts
    attempts-settles [] s keep deleting = inl refl
    attempts-settles (turn ∷ turns) s keep deleting =
        let orderly = Keep-IsOrderly turn turns s keep deleting in
        next-settles _ _ _
          (reconcile-Settles F C V requeues k FL L Q (moments C turn s) deleting orderly.released)
          (attempts-settles turns _ keep.3 orderly.afterwards)

    next-false :
        (b : Bool) (s : C.State) (rest : C.State × Bool)
        → rest.1 ≡ false
        → (next b s rest).1 ≡ false
    next-false true s rest h = h
    next-false false s rest h = refl

    attempts-ends :
        (before after : List (Turn C)) (turn : Turn C) (s : C.State)
        → Keep before
        → IsDeleting F C V requeues k s
        → CanRelease F C V requeues k (moments C turn (attempts before s).0)
        → (attempts (before ++ (turn ∷ after)) s).1 ≡ false
    unfolding attempts
    attempts-ends [] after turn s keep deleting can =
        let o = reconcile F (spread C) (moments C turn s) k in
        ap
          (λ (b : Bool).
            (next b o.state.at_patch (attempts after (turn.afterwards o.state.at_patch))).1)
          (reconcile-done F C V requeues k FL L Q (moments C turn s) deleting can)
    attempts-ends (c ∷ before) after turn s keep deleting can =
        let o = reconcile F (spread C) (moments C c s) k in
        elim (Bool-cases (again F C V requeues k o)) [
          | inl queued ↦ next-false _ _ _ (
              attempts-ends before after turn _ keep.3
                (Keep-IsOrderly c before s keep deleting).afterwards
                (subst
                  (λ (b : Bool). CanRelease F C V requeues k (
                    let rest = attempts before (c.afterwards o.state.at_patch) in
                    moments C turn (next b o.state.at_patch rest).0))
                  queued can))
          | inr left ↦ rw left refl
        ]

    Keep-before : (before after : List (Turn C)) → Keep (before ++ after) → Keep before
    Keep-before [] after keep = tt
    Keep-before (turn ∷ before) after (a, b, c, keeps) = (a, b, c, Keep-before before after keeps)

    -- Let a profile be deleted, and let no pod use it and the API server answer, each at the moment
    -- when the reconciler asks, after some of its calls. With the next call, at the latest, the
    -- request has left the queue, and the profile is gone or without the finalizer. The other actors
    -- may change the cluster at any moment, also between the calls of the client, but do not undo
    -- the deletion, and give no finalizer to what is being deleted.
    pub attempts-IsReleased :
        (before after : List (Turn C)) (turn : Turn C) (s : C.State)
        → Keep (before ++ (turn ∷ after))
        → IsDeleting F C V requeues k s
        → CanRelease F C V requeues k (moments C turn (attempts before s).0)
        → let end = attempts (before ++ (turn ∷ after)) s in
          (end.1 ≡ false) × IsReleased F C V requeues k end.0
    attempts-IsReleased before after turn s keep deleting can =
        let ended =
          attempts-ends before after turn s (Keep-before before (turn ∷ after) keep) deleting can in
        elim (attempts-settles (before ++ (turn ∷ after)) s keep deleting) [
          | inl queued ↦ absurd (cc)
          | inr released ↦ (ended, released)
        ]
