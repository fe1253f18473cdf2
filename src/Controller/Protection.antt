-- ===== src/Controller/Protection.antt =====
-- A profile is protected by its finalizer for as long as a pod uses it, whatever else happens, also
-- between the moment when the reconciler lists the pods and the moment when it writes, and where it
-- reads from caches that are behind the cluster.
use podlock.Prelude.{
  ◌≡◌, ◌≢◌, inl, inr, refl, ap, ◌∙◌, true, Option, none, some, [], contains, text_eq, ℕ_discrete,
  subst, List, ◌∷◌, ◌++◌, All,
}
use podlock.Finalizers.{Finalizers}
use podlock.Api.{LandlockProfile, landlock_profile_finalizer}
use podlock.Controller.Client.{
  ObjectKey, Pod, key_of, Uses, listed, pod_profile_label, Client, Contents, IsLawful,
}
use podlock.Controller.Reconcile.{reconcile}
use podlock.Controller.Branches.{Releases, reconcile-writes}

ObjectKey-discrete : Discrete ObjectKey
ObjectKey-discrete = hlevel ℕ_discrete

-- A patch that the reconciler is about to send: the original and the modified profile.
pub record Patch : Type 0 where
  pub original : LandlockProfile
  pub modified : LandlockProfile

-- The cluster as it is and as it was, newest first; the caches from which the reconciler reads the
-- profiles and the pods, each of which has its kind of object as it was at some moment; and the patch
-- that is under way.
pub record World (C : Client) : Type 0 where
  pub current : C.State
  pub past : List C.State
  pub profiles : C.State
  pub pods : C.State
  pub pending : Option Patch

abbrev pub history : {C : Client} → World C → List C.State
history w = w.current ∷ w.past

abbrev pub becomes : {C : Client} → World C → C.State → World C
becomes w t = record w { current = t; past = w.current ∷ w.past }

-- The client that reads from the caches, with its patch put off: it is noted down, and sent by a
-- later step. The patch is the last call of the reconciler, so what it answers decides about nothing
-- else in the cluster.
abbrev pub deferred : Client → Client
deferred C = record {
  State = World C;
  get = λ w k. C.get w.profiles k;
  list_pods = λ w namespace label value. C.list_pods w.pods namespace label value;
  patch = λ w p q. (none, record w { pending = some (record { original = p; modified = q }) });
}

All-middle {ℓ κ} :
    {A : Type ℓ} (P : A → Type κ) (xs ys : List A) (x : A) → All P (xs ++ x ∷ ys) → P x
All-middle P [] ys x h = h.0
All-middle P (y ∷ xs) ys x h = All-middle P xs ys x h.1

module _ (F : Finalizers) (C : Client) (V : Contents C) (Other : C.State → C.State → Type 0) where
  -- The reconciler reads for some key, or sends the patch that it has noted down, or another actor
  -- of the cluster takes a step, or a cache moves to a state of the cluster, which may be old.
  pub data Step (w v : World C) : Type 0 where
    looked :
        (k : ObjectKey) → w.pending ≡ none → v ≡ (reconcile F (deferred C) w k).state → Step w v
    wrote :
        (p : Patch)
        → w.pending ≡ some p
        → v ≡ becomes (record w { pending = none }) (C.patch w.current p.original p.modified).1
        → Step w v
    other : (t : C.State) → Other w.current t → v ≡ becomes w t → Step w v
    saw_profiles : (t : C.State) → v ≡ record w { profiles = t } → Step w v
    saw_pods :
        (newer older : List C.State) (t : C.State)
        → history w ≡ newer ++ t ∷ older
        → v ≡ record w { pods = t }
        → Step w v

  -- A run of the cluster in which the pod is there at every moment.
  pub data RunWith (pod : Pod) : World C → World C → Type 0 where
    stop : (w : World C) → RunWith pod w w
    go :
        {w v u : World C}
        → V.runs w.current pod ≡ true
        → Step w v
        → RunWith pod v u
        → RunWith pod w u

  -- The profile at a key is stored, and carries the finalizer.
  pub record IsHeld (s : C.State) (k : ObjectKey) : Type 0 where
    pub profile : LandlockProfile
    pub at : V.stored s k ≡ some profile
    pub held : contains profile.finalizers landlock_profile_finalizer ≡ true

  -- It is held, no patch of it is under way, and the pod is known to the cache, which may only move
  -- to states with the pod.
  pub record IsGuarded (pod : Pod) (w : World C) (k : ObjectKey) : Type 0 where
    pub holds : IsHeld w.current k
    pub not_pending : (p : Patch) → w.pending ≡ some p → key_of p.modified ≢ k
    pub cached : V.runs w.pods pod ≡ true
    pub seen : All (λ t. V.runs t pod ≡ true) w.past

  module _ (L : IsLawful C V)
      (other_keeps : (s t : C.State) (k : ObjectKey) → Other s t → IsHeld s k → IsHeld t k) where
    -- A release that is noted down is of another profile than those in use.
    IsGuarded-looked :
        (w v : World C) (pod : Pod) (j k : ObjectKey)
        → Uses pod k
        → Releases F (deferred C) w j v
        → IsGuarded pod w k
        → IsGuarded pod v k
    IsGuarded-looked w v pod j k uses r g = rw r.written (record {
      holds = g.holds;
      not_pending = λ p e same.
          let named : key_of r.profile ≡ k =
            ap (λ (o : Option Patch). elim o [ none ↦ k | some x ↦ key_of x.modified ]) e ∙ same in
          let unused =
            subst
              (λ (q : ObjectKey).
                C.list_pods w.pods q.namespace pod_profile_label q.name ≡ listed [])
              named r.unused in
          L.list-complete w.pods k pod [] unused g.cached uses refl;
      cached = g.cached;
      seen = g.seen;
    })

    IsGuarded-Step :
        (w v : World C) (pod : Pod) (k : ObjectKey)
        → V.runs w.current pod ≡ true
        → Uses pod k
        → Step w v
        → IsGuarded pod w k
        → IsGuarded pod v k
    IsGuarded-Step w v pod k here uses (other t o e) g = rw e (record {
      holds = other_keeps w.current t k o g.holds;
      not_pending = g.not_pending;
      cached = g.cached;
      seen = (here, g.seen);
    })
    IsGuarded-Step w v pod k here uses (saw_profiles t e) g =
        rw e (record {
          holds = g.holds;
          not_pending = g.not_pending;
          cached = g.cached;
          seen = g.seen;
        })
    IsGuarded-Step w v pod k here uses (saw_pods newer older t at e) g = rw e (record {
      holds = g.holds;
      not_pending = g.not_pending;
      cached =
          All-middle (λ s. V.runs s pod ≡ true) newer older t
            (subst (All (λ s. V.runs s pod ≡ true)) at (here, g.seen));
      seen = g.seen;
    })
    IsGuarded-Step w v pod k here uses (wrote p pending e) g = rw e (record {
      holds = record {
        profile = g.holds.profile;
        at =
            L.stored-patch_ne w.current p.original p.modified k (g.not_pending p pending)
            ∙ g.holds.at;
        held = g.holds.held;
      };
      not_pending = λ q none_left. absurd (cc);
      cached = g.cached;
      seen = (here, g.seen);
    })
    IsGuarded-Step w v pod k here uses (looked j idle e) g =
        elim (reconcile-writes F (deferred C) w j) [
          | inl kept ↦ rw (e, kept) g
          | inr r ↦ rw e (IsGuarded-looked w _ pod j k uses r g)
        ]

    IsGuarded-run :
        (pod : Pod) (k : ObjectKey) {w v : World C}
        → Uses pod k
        → RunWith pod w v
        → IsGuarded pod w k
        → IsGuarded pod v k
    IsGuarded-run pod k uses (stop _) g = g
    IsGuarded-run pod k uses (go {w} {v} here step rest) g =
        IsGuarded-run pod k uses rest (IsGuarded-Step w v pod k here uses step g)

    -- If the other actors leave held profiles held, then a stored profile that carries the finalizer,
    -- and of which no patch is under way, stays so for as long as a pod uses it, also if their steps
    -- come between the reconciler's list of the pods and its patch, and although the reconciler reads
    -- from caches. These may be behind, and the one of the profiles may have anything; the one of the
    -- pods has the pod at first, and moves to past states of the run.
    pub IsHeld-run :
        (pod : Pod) (k : ObjectKey) {w v : World C}
        → Uses pod k
        → RunWith pod w v
        → IsGuarded pod w k
        → IsHeld v.current k
    IsHeld-run pod k uses run g = (IsGuarded-run pod k uses run g).holds
