-- ===== src/Controller/Requests.antt =====
-- The requests that an event of a pod puts into the queue (findProfilesForPod).
use podlock.Prelude.{
  ◌≡◌, ◌↔◌, refl, sym, ap, ◌∙◌, true, Option, none, some, Text, text_eq, contains, arith,
}
use podlock.Map.{lookup}
use podlock.Controller.Client.{ObjectKey, Pod, Uses, pod_profile_label, key_eq}
use podlock.Controller.Reconcile.{find_profiles_for_pod}

requests_iff :
    (pod : Pod) (k : ObjectKey) (label : Option Text)
    → lookup pod_profile_label pod.labels ≡ label
    → (contains (find_profiles_for_pod pod) k ≡ true) ↔ Uses pod k
unfolding find_profiles_for_pod
requests_iff pod k none e =
    rw (e, contains) ((λ h. absurd (cc)), (λ u. absurd (cc (sym e ∙ u.labelled))))
requests_iff pod k (some name) e =
    let asked : ObjectKey = record { namespace = pod.namespace; name = name } in
    rw (e, contains)
      (
        (λ h.
            let same : k ≡ asked = ground arith in
            record {
              same_namespace = ap (λ (j : ObjectKey). j.namespace) (sym same);
              labelled = e ∙ ap (λ (j : ObjectKey). some j.name) (sym same);
            }),
        (λ u.
            let named : some name ≡ some k.name = sym e ∙ u.labelled in
            let same_name : k.name ≡ name = cc in
            let same : k ≡ asked = cc (u.same_namespace) in ground arith),
      )

-- An event of a pod asks for a run of the reconciler for the profile that the pod uses, and for no
-- other one.
pub find_profiles_for_pod-Uses :
    (pod : Pod) (k : ObjectKey) → (contains (find_profiles_for_pod pod) k ≡ true) ↔ Uses pod k
find_profiles_for_pod-Uses pod k = requests_iff pod k (lookup pod_profile_label pod.labels) refl
