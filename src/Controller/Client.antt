-- ===== src/Controller/Client.antt =====
-- The part of the Kubernetes client that the reconciler calls, as an interface, and what its
-- documentation says of it. `State` is the whole cluster.
use podlock.Prelude.{
  Eq, ℕ_discrete, ◌≡◌, ◌≢◌, ◌⊎◌, Bool, true, Option, none, some, List, [], Text, codes, text_eq,
}
use podlock.Map.{Map, lookup}
use podlock.Api.{LandlockProfile}

-- client.ObjectKey
pub record ObjectKey : Type 0 where
  pub namespace : Text
  pub name : Text

key_dec : Discrete ObjectKey
unfolding ℕ_discrete
key_dec = hlevel ℕ_discrete

instance unfoldable pub key_eq : Eq ObjectKey
unfolding key_dec
key_eq = record { dec = key_dec }

-- The metadata of a pod that the program reads.
pub record Pod : Type 0 where
  pub namespace : Text
  pub name : Text
  pub labels : Map Text

-- The result of a Get, where errors.IsNotFound tells the errors apart.
pub data GetResult : Type 0 where
  found : LandlockProfile → GetResult
  not_found : GetResult
  get_failed : Text → GetResult

pub data ListResult : Type 0 where
  listed : List Pod → ListResult
  list_failed : Text → ListResult

-- constants.PodProfileLabel (pkg/constants/labels.go)
abbrev pub pod_profile_label : Text
pod_profile_label = codes "podlock.kubewarden.io/profile"

pub record Client : Type 1 where
  pub State : Type 0
  pub get : State → ObjectKey → GetResult
  -- List with client.InNamespace and client.MatchingLabels of one label
  pub list_pods : State → Text → Text → Text → ListResult
  -- Patch with client.MergeFrom, which sends what differs between the original object and the modified
  -- one; `some` is an error.
  pub patch : State → LandlockProfile → LandlockProfile → Option Text × State

abbrev pub key_of : LandlockProfile → ObjectKey
key_of p = record { namespace = p.namespace; name = p.name }

-- The pod carries the label that names the profile, in the profile's namespace.
pub record Uses (pod : Pod) (k : ObjectKey) : Type 0 where
  pub same_namespace : pod.namespace ≡ k.namespace
  pub labelled : lookup pod_profile_label pod.labels ≡ some k.name

-- What is stored in a cluster: the profile at a key, if any, and whether a pod is there.
pub record Contents (C : Client) : Type 0 where
  pub stored : C.State → ObjectKey → Option LandlockProfile
  pub runs : C.State → Pod → Bool

pub record IsLawful (C : Client) (V : Contents C) : Type 0 where
  pub get-found :
      (s : C.State) (k : ObjectKey) (p : LandlockProfile)
      → C.get s k ≡ found p
      → (V.stored s k ≡ some p) × (key_of p ≡ k)
  pub get-not_found : (s : C.State) (k : ObjectKey) → C.get s k ≡ not_found → V.stored s k ≡ none
  -- A list that succeeds shows the pods that match.
  pub list-complete :
      (s : C.State) (k : ObjectKey) (pod : Pod) (pods : List Pod)
      → C.list_pods s k.namespace pod_profile_label k.name ≡ listed pods
      → V.runs s pod ≡ true
      → Uses pod k
      → pods ≢ []
  -- A patch changes the object that it names and nothing else.
  pub stored-patch_ne :
      (s : C.State) (original modified : LandlockProfile) (k : ObjectKey)
      → key_of modified ≢ k
      → V.stored (C.patch s original modified).1 k ≡ V.stored s k
  -- The object that a patch was accepted for has the new finalizers, or it is gone.
  pub stored-patch :
      (s : C.State) (original modified : LandlockProfile)
      → (C.patch s original modified).0 ≡ none
      → let after = V.stored (C.patch s original modified).1 (key_of modified) in
        (after ≡ none)
        ⊎ ((q : LandlockProfile) × (after ≡ some q)
            × (original.finalizers ≢ modified.finalizers → q.finalizers ≡ modified.finalizers))
  -- Accepted or not, a patch leaves the object, or it is gone, or merged with what was there: the
  -- time of its deletion and its specification stay if the patch does not change them.
  pub stored-patch_any :
      (s : C.State) (original modified : LandlockProfile)
      → let before = V.stored s (key_of modified) in
        let after = V.stored (C.patch s original modified).1 (key_of modified) in
        (after ≡ before)
        ⊎ (after ≡ none)
        ⊎ ((b q : LandlockProfile) × (before ≡ some b)
            × (after ≡ some q)
            × (original.deletion_timestamp ≡ modified.deletion_timestamp
                → q.deletion_timestamp ≡ b.deletion_timestamp)
            × (original.spec ≡ modified.spec → q.spec ≡ b.spec))
