-- ===== src/Api/Scheme.antt =====
-- The types of the API group and their registration: api/v1alpha1/groupversion_info.go and the init
-- function of landlockprofile_types.go.
use podlock.Prelude.{◌≡◌, Bool, true, List, [], ◌∷◌, Text, codes, All}
use podlock.Io.{ok, Io}

-- schema.GroupVersion
pub record GroupVersion : Type 0 where
  pub group : Text
  pub version : Text

pub data ObjectType : Type 0 where
  landlock_profile_type : ObjectType
  landlock_profile_list_type : ObjectType

-- runtime.Scheme of Kubernetes and scheme.Builder of controller-runtime.
pub record Schemes : Type 1 where
  pub Scheme : Type 0
  pub Builder : Type 0
  pub new_scheme : Scheme
  -- &scheme.Builder{GroupVersion: …}
  pub new_builder : GroupVersion → Builder
  pub register : Builder → List ObjectType → Builder
  pub add_to_scheme : Builder → Io Scheme (Unit {0})
  -- AddToScheme of client-go, and of the core API
  pub add_client_go_to_scheme : Io Scheme (Unit {0})
  pub add_core_to_scheme : Io Scheme (Unit {0})

unfoldable pub group_version : GroupVersion
group_version = record { group = codes "podlock.kubewarden.io"; version = codes "v1alpha1" }

module _ (X : Schemes) where
  -- SchemeBuilder, as it is at first
  unfoldable pub new_scheme_builder : X.Builder
  new_scheme_builder = X.new_builder group_version

  -- SchemeBuilder, with what init registers
  unfoldable pub scheme_builder : X.Builder
  scheme_builder =
      X.register new_scheme_builder (landlock_profile_type ∷ landlock_profile_list_type ∷ [])

  -- AddToScheme
  unfoldable pub add_to_scheme : Io X.Scheme (Unit {0})
  add_to_scheme = X.add_to_scheme scheme_builder

-- Which types and whether the type of the pods a scheme knows.
pub record Knowledge (X : Schemes) : Type 0 where
  pub knows : X.Scheme → GroupVersion → ObjectType → Bool
  pub knows_pods : X.Scheme → Bool

-- A builder adds the types that are registered with it under its group and version, and no call
-- takes away what is known.
pub record IsLawful (X : Schemes) (K : Knowledge X) : Type 0 where
  pub knows-add :
      (gv : GroupVersion) (ts : List ObjectType) (s : X.Scheme)
      → (X.add_to_scheme (X.register (X.new_builder gv) ts) s).0 ≡ ok tt
      → All (λ t. K.knows (X.add_to_scheme (X.register (X.new_builder gv) ts) s).1 gv t ≡ true) ts
  pub knows_pods-add :
      (b : X.Builder) (s : X.Scheme)
      → K.knows_pods s ≡ true
      → K.knows_pods (X.add_to_scheme b s).1 ≡ true
  pub knows_pods-client_go :
      (s : X.Scheme)
      → (X.add_client_go_to_scheme s).0 ≡ ok tt
      → K.knows_pods (X.add_client_go_to_scheme s).1 ≡ true

-- The scheme has all types that the programs read and watch.
pub record KnowsAll (X : Schemes) (K : Knowledge X) (s : X.Scheme) : Type 0 where
  pub profiles : K.knows s group_version landlock_profile_type ≡ true
  pub lists : K.knows s group_version landlock_profile_list_type ≡ true
  pub pods : K.knows_pods s ≡ true

module _ (X : Schemes) (K : Knowledge X) (L : IsLawful X K) where
  -- A scheme to which the API was added without an error knows its types, and the pods as before.
  pub add_to_scheme-KnowsAll :
      (s : X.Scheme)
      → (add_to_scheme X s).0 ≡ ok tt
      → K.knows_pods s ≡ true
      → KnowsAll X K (add_to_scheme X s).1
  unfolding add_to_scheme scheme_builder new_scheme_builder
  add_to_scheme-KnowsAll s h pods =
      let known = L.knows-add group_version _ s h in
      record { profiles = known.0; lists = known.1.0; pods = L.knows_pods-add _ s pods }
