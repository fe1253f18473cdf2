-- ===== src/Controller/Memory.antt =====
-- A cluster in memory that meets the assumptions on the client.
use podlock.Prelude.{
  ◌≡◌, ◌≢◌, ◌∙◌, ◌⊎◌, inl, inr, refl, Bool, true, false, ◌&&◌, Option, none, some, List, [], ◌∷◌,
  Text, ◌==◌, text_eq, Eq, arith, ℕ_discrete, if◌then◌else◌, contains, list_eq,
}
use podlock.Map.{lookup}
use podlock.Api.{LandlockProfile, is_being_deleted}
use podlock.Controller.Client.{
  ObjectKey, Pod, key_of, Uses, found, not_found, listed, pod_profile_label, Client, Contents,
  IsLawful, key_eq,
}

pod_dec : Discrete Pod
unfolding ℕ_discrete
pod_dec = hlevel ℕ_discrete

instance unfoldable pub pod_eq : Eq Pod
unfolding pod_dec
pod_eq = record { dec = pod_dec }

pub record Cluster : Type 0 where
  pub profiles : List LandlockProfile
  pub pods : List Pod

unfoldable pub find : List LandlockProfile → ObjectKey → Option LandlockProfile
find [] k = none
find (p ∷ ps) k = if key_of p == k then some p else find ps k

abbrev pub has_value : Text → Option Text → Bool
has_value value none = false
has_value value (some v) = v == value

-- The pods of a namespace with a value of a label.
unfoldable pub select : List Pod → Text → Text → Text → List Pod
select [] namespace label value = []
select (pod ∷ pods) namespace label value =
    let rest = select pods namespace label value in
    if pod.namespace == namespace && has_value value (lookup label pod.labels)
    then pod ∷ rest
    else rest

-- The API server drops an object that is being deleted with its last finalizer.
abbrev pub store : LandlockProfile → List LandlockProfile → List LandlockProfile
store p ps = if is_being_deleted p && p.finalizers == [] then ps else p ∷ ps

unfoldable pub erase : ObjectKey → List LandlockProfile → List LandlockProfile
erase k [] = []
erase k (p ∷ ps) = let rest = erase k ps in if key_of p == k then rest else p ∷ rest

-- The object with the new finalizers, if the patch has any.
abbrev pub merged : LandlockProfile → LandlockProfile → LandlockProfile → LandlockProfile
merged original modified p = record p {
  metadata = record (p.metadata) {
    finalizers =
        if original.finalizers == modified.finalizers then p.finalizers else modified.finalizers;
  };
}

abbrev pub patch_found :
    LandlockProfile
    → LandlockProfile
    → List LandlockProfile
    → Option LandlockProfile
    → List LandlockProfile
patch_found original modified ps none = ps
patch_found original modified ps (some p) =
    store (merged original modified p) (erase (key_of modified) ps)

abbrev pub memory : Client
memory = record {
  State = Cluster;
  get = λ s k. elim (find s.profiles k) [ none ↦ not_found | some p ↦ found p ];
  list_pods = λ s namespace label value. listed (select s.pods namespace label value);
  patch = λ s original modified. (
    none,
    record s {
      profiles = patch_found original modified s.profiles (find s.profiles (key_of modified));
    },
  );
}

abbrev pub contents : Contents memory
contents = record { stored = λ s k. find s.profiles k; runs = λ s pod. contains s.pods pod }

find-key :
    (ps : List LandlockProfile) (k : ObjectKey) (p : LandlockProfile)
    → find ps k ≡ some p
    → key_of p ≡ k
unfolding find
find-key [] k p h = absurd (cc)
find-key (q ∷ ps) k p h = ground (arith, find-key ps k p)

find-erase : (ps : List LandlockProfile) (k : ObjectKey) → find (erase k ps) k ≡ none
unfolding find erase
find-erase [] k = refl
find-erase (p ∷ ps) k = ground (arith, find-erase ps k)

find-erase_ne :
    (ps : List LandlockProfile) (j k : ObjectKey) → j ≢ k → find (erase j ps) k ≡ find ps k
unfolding find erase
find-erase_ne [] j k h = refl
find-erase_ne (p ∷ ps) j k h = ground (arith, find-erase_ne ps j k)

find-store :
    (p : LandlockProfile) (ps : List LandlockProfile) (k : ObjectKey)
    → (find (store p ps) k ≡ find ps k) ⊎ ((key_of p ≡ k) × (find (store p ps) k ≡ some p))
unfolding find
find-store p ps k = ground arith

patch_found-ne :
    (original modified : LandlockProfile) (ps : List LandlockProfile) (k : ObjectKey)
    (o : Option LandlockProfile)
    → find ps (key_of modified) ≡ o
    → key_of modified ≢ k
    → find (patch_found original modified ps o) k ≡ find ps k
patch_found-ne original modified ps k none e h = refl
patch_found-ne original modified ps k (some p) e h =
    let named = find-key ps (key_of modified) p e in
    ground (
      arith,
      find-store (merged original modified p) (erase (key_of modified) ps) k,
      find-erase_ne ps (key_of modified) k,
    )

-- The object is gone, or merged.
patch_found_lem :
    (original modified : LandlockProfile) (ps : List LandlockProfile) (o : Option LandlockProfile)
    → find ps (key_of modified) ≡ o
    → let after = find (patch_found original modified ps o) (key_of modified) in
      (after ≡ none)
      ⊎ ((b : LandlockProfile) × (o ≡ some b) × (after ≡ some (merged original modified b)))
patch_found_lem original modified ps none e = inl e
patch_found_lem original modified ps (some p) e =
    let k = key_of modified in
    let gone : find (erase k ps) k ≡ none = find-erase ps k in
    elim (find-store (merged original modified p) (erase k ps) k) [
      | inl dropped ↦ inl (dropped ∙ gone)
      | inr (_, there) ↦ inr (p, refl, there)
    ]

select_complete :
    (pods : List Pod) (k : ObjectKey) (pod : Pod)
    → contains pods pod ≡ true
    → Uses pod k
    → select pods k.namespace pod_profile_label k.name ≢ []
unfolding select
select_complete [] k pod h u = absurd (cc)
select_complete (q ∷ pods) k pod h u = ground (arith, select_complete pods k pod)

memory-get_found :
    (s : Cluster) (k : ObjectKey) (p : LandlockProfile)
    → memory.get s k ≡ found p
    → (contents.stored s k ≡ some p) × (key_of p ≡ k)
memory-get_found s k p h =
    let stored : find s.profiles k ≡ some p = ground arith in
    (stored, find-key s.profiles k p stored)

memory-get_not_found :
    (s : Cluster) (k : ObjectKey) → memory.get s k ≡ not_found → contents.stored s k ≡ none
memory-get_not_found s k h = ground arith

memory-stored_patch :
    (s : Cluster) (original modified : LandlockProfile)
    → let after = contents.stored (memory.patch s original modified).1 (key_of modified) in
      (after ≡ none)
      ⊎ ((q : LandlockProfile) × (after ≡ some q)
          × (original.finalizers ≢ modified.finalizers → q.finalizers ≡ modified.finalizers))
memory-stored_patch s original modified =
    elim (patch_found_lem original modified s.profiles _ refl) [
      | inl gone ↦ inl gone
      | inr (b, _, there) ↦ inr (merged original modified b, there, λ differ. ground arith)
    ]

memory-stored_patch_any :
    (s : Cluster) (original modified : LandlockProfile)
    → let before = contents.stored s (key_of modified) in
      let after = contents.stored (memory.patch s original modified).1 (key_of modified) in
      (after ≡ before)
      ⊎ (after ≡ none)
      ⊎ ((b q : LandlockProfile) × (before ≡ some b)
          × (after ≡ some q)
          × (original.deletion_timestamp ≡ modified.deletion_timestamp
              → q.deletion_timestamp ≡ b.deletion_timestamp)
          × (original.spec ≡ modified.spec → q.spec ≡ b.spec))
memory-stored_patch_any s original modified =
    elim (patch_found_lem original modified s.profiles _ refl) [
      | inl gone ↦ inr (inl gone)
      | inr (b, at, there) ↦
          inr (inr (b, merged original modified b, at, there, λ e. refl, λ e. refl))
    ]

pub memory-IsLawful : IsLawful memory contents
memory-IsLawful = record {
  get-found = memory-get_found;
  get-not_found = memory-get_not_found;
  list-complete =
      λ s k pod pods e here uses. λ none_left. select_complete s.pods k pod here uses (cc);
  stored-patch_ne = λ s original modified k. patch_found-ne original modified s.profiles k _ refl;
  stored-patch = λ s original modified h. memory-stored_patch s original modified;
  stored-patch_any = memory-stored_patch_any;
}
