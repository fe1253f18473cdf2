-- ===== src/Admission/Valid.antt =====
-- Every profile that is stored, now or before, has passed the validator.
use podlock.Prelude.{
  ◌≡◌, ◌≢◌, ◌⊎◌, inl, inr, refl, sym, ◌∙◌, ap, subst, Option, none, some, text_eq, list_eq, arith,
}
use podlock.Finalizers.{Finalizers}
use podlock.Sets.{StringSets}
use podlock.Sets
use podlock.Io.{ok}
use podlock.Api.{LandlockProfile}
use podlock.Webhook.Defaulter.{default}
use podlock.Webhook.Valid.{IsValidSpec}
use podlock.Webhook.Validator.{validate_create}
use podlock.Webhook.Accepts.{validate-accepts_iff}
use podlock.Controller.Client.{ObjectKey, key_of, key_eq, Client, Contents, IsLawful}
use podlock.Controller.Branches.{reconcile-writes}
use podlock.Controller.Protection.{
  Patch, World, Step, looked, wrote, other, saw_profiles, saw_pods, deferred,
}
use podlock.Nri.Plugin.Lifecycle.{Cache, AreAdmitted}
use podlock.Admission.{Act, creates, updates, deletes, leaves, kept, marked, Run, stop, go}

kept-cases : (p : LandlockProfile) → (kept p ≡ none) ⊎ (kept p ≡ some p)
kept-cases p = ground arith

module _ (F : Finalizers) (S : StringSets) (SL : podlock.Sets.IsLawful S) (C : Client)
    (V : Contents C) (L : IsLawful C V) where
  abbrev AreValid : C.State → Type 0
  AreValid s = (k : ObjectKey) (p : LandlockProfile) → V.stored s k ≡ some p → IsValidSpec p.spec

  -- The stored profiles are valid, and the patch that is under way changes no specification.
  record IsSound (w : World C) : Type 0 where
    valid : AreValid w.current
    pending : (q : Patch) → w.pending ≡ some q → q.original.spec ≡ q.modified.spec

  stored-AreValid :
      (s t : C.State) (j : ObjectKey) (p : LandlockProfile)
      → AreValid s
      → V.stored t j ≡ kept p
      → ((i : ObjectKey) → i ≢ j → V.stored t i ≡ V.stored s i)
      → IsValidSpec p.spec
      → AreValid t
  stored-AreValid s t j p before at elsewhere valid k q h = elim (key_eq.dec k j) [
    | no apart ↦ before k q (sym (elsewhere k apart) ∙ h)
    | yes same ↦ elim (kept-cases p) [
      | inl gone ↦
          let none_left : some q ≡ none = sym h ∙ ap (V.stored t) same ∙ at ∙ gone in absurd (cc)
      | inr there ↦
          let found : some q ≡ some p = sym h ∙ ap (V.stored t) same ∙ at ∙ there in
          let same_profile : p ≡ q = cc in subst (λ x. IsValidSpec x.spec) same_profile valid
    ]
  ]

  Act-AreValid : (s t : C.State) → Act F S C V s t → AreValid s → AreValid t
  Act-AreValid s t (creates p live absent admitted at elsewhere) before =
      stored-AreValid s t (key_of p) (default F p) before at elsewhere
        ((validate-accepts_iff S SL p (default F p)).0.0 admitted)
  Act-AreValid s t (updates old p there same_time admitted at elsewhere) before =
      stored-AreValid s t (key_of p) (default F p) before at elsewhere
        ((validate-accepts_iff S SL old (default F p)).1.0 admitted)
  Act-AreValid s t (deletes time j p there at elsewhere) before =
      stored-AreValid s t j (marked time p) before at elsewhere (before j p there)
  Act-AreValid s t (leaves same) before = λ k q h. before k q (sym (same k) ∙ h)

  patch-AreValid :
      (s : C.State) (original modified : LandlockProfile)
      → original.spec ≡ modified.spec
      → AreValid s
      → AreValid (C.patch s original modified).1
  patch-AreValid s original modified same_spec before k q h =
      elim (key_eq.dec (key_of modified) k) [
        | no apart ↦ before k q (sym (L.stored-patch_ne s original modified k apart) ∙ h)
        | yes same ↦
            let t = (C.patch s original modified).1 in
            let here : V.stored t (key_of modified) ≡ some q = ap (V.stored t) same ∙ h in
            elim (L.stored-patch_any s original modified) [
              | inl unchanged ↦ before (key_of modified) q (sym unchanged ∙ here)
              | inr (inl gone) ↦ absurd (cc)
              | inr (inr (b, p, at, after, _, spec)) ↦
                  let same_profile : p ≡ q = cc in
                  subst (λ x. IsValidSpec x.spec) same_profile
                    (subst IsValidSpec (sym (spec same_spec)) (before (key_of modified) b at))
            ]
      ]

  abbrev SameSpec : Option Patch → Type 0
  SameSpec none = Unit
  SameSpec (some q) = q.original.spec ≡ q.modified.spec

  Step-IsSound : (w v : World C) → Step F C V (Act F S C V) w v → IsSound w → IsSound v
  Step-IsSound w v (other t act e) sound =
      rw e (record { valid = Act-AreValid w.current t act sound.valid; pending = sound.pending })
  Step-IsSound w v (saw_profiles t e) sound =
      rw e (record { valid = sound.valid; pending = sound.pending })
  Step-IsSound w v (saw_pods newer older t at e) sound =
      rw e (record { valid = sound.valid; pending = sound.pending })
  Step-IsSound w v (wrote p under_way e) sound = rw e (record {
    valid = patch-AreValid w.current p.original p.modified (sound.pending p under_way) sound.valid;
    pending = λ q none_left. absurd (cc);
  })
  Step-IsSound w v (looked j idle e) sound = elim (reconcile-writes F (deferred C) w j) [
    | inl same ↦ rw (e, same) sound
    | inr r ↦
        rw (e, r.written) (record { valid = sound.valid; pending = λ q e. subst SameSpec e refl })
  ]

  Run-IsSound : {w v : World C} → Run F S C V w v → IsSound w → IsSound v
  Run-IsSound (stop _) sound = sound
  Run-IsSound (go {w} {v} step rest) sound = Run-IsSound rest (Step-IsSound w v step sound)

  -- What the cache returns was stored at some moment of the run that ends in `v`.
  abbrev pub IsServed : Cache → World C → World C → Type 0
  IsServed get w v =
      (k : ObjectKey) (p : LandlockProfile)
      → get k ≡ ok p
      → (u : World C) × Run F S C V w u × Run F S C V u v × (V.stored u.current k ≡ some p)

  -- If nothing is stored and no patch is under way at first, then, after any steps of the users,
  -- whose profiles go through the webhook, and of the reconciler, whose caches may be behind, each
  -- stored profile is one that the webhook admits, and a cache of the plugin returns such profiles
  -- only, also if it is behind: if each profile in it was stored at some moment.
  pub Run-AreAdmitted :
      (w v : World C)
      → ((k : ObjectKey) → V.stored w.current k ≡ none)
      → w.pending ≡ none
      → Run F S C V w v
      → (get : Cache) → IsServed get w v
      → ((k : ObjectKey) (p : LandlockProfile)
          → V.stored v.current k ≡ some p
          → validate_create S p ≡ none)
        × AreAdmitted S get
  Run-AreAdmitted w v empty idle run get served =
      let sound : IsSound w = record {
        valid = λ k p h. absurd (cc (sym (empty k) ∙ h));
        pending = λ q e. absurd (cc (sym idle ∙ e));
      } in
      (
        λ k p h. (validate-accepts_iff S SL p p).0.1 ((Run-IsSound run sound).valid k p h),
        λ k p h.
            let (u, before, _, there) = served k p h in
            (validate-accepts_iff S SL p p).0.1 ((Run-IsSound before sound).valid k p there),
      )
