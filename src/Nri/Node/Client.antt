-- ===== src/Nri/Node/Client.antt =====
-- The calls of the Kubernetes client on nodes, as an interface, and what their documentation says.
-- A node that is read may be old, since reads go to a cache.
use podlock.Prelude.{◌≡◌, Option, some, Text}
use podlock.Map.{Map}
use podlock.Io.{IoError, Result, ok, err, Io}

-- The part of a node that matters: its resource version and its labels, nil if `none`.
pub record Node : Type 0 where
  pub version : Text
  pub labels : Option (Map Text)

pub record NodeClient : Type 1 where
  pub State : Type 0
  pub get : Text → State → Result Node
  pub update : Text → Node → Io State (Unit {0})
  -- errors.IsConflict
  pub is_conflict : IoError → Type 0
  -- The node that the API server stores, not the cache.
  pub stored : State → Text → Option Node

pub record IsLawful (C : NodeClient) : Type 0 where
  -- A resource version stands for one content.
  pub get-version :
      (name : Text) (s : C.State) (node current : Node)
      → C.get name s ≡ ok node
      → C.stored s name ≡ some current
      → current.version ≡ node.version
      → current ≡ node
  -- An update that is accepted was made to the current version, and its labels are stored.
  pub update-current :
      (name : Text) (node : Node) (s : C.State)
      → (C.update name node s).0 ≡ ok tt
      → (current : Node) × (C.stored s name ≡ some current) × (current.version ≡ node.version)
  pub update-stored :
      (name : Text) (node : Node) (s : C.State)
      → (C.update name node s).0 ≡ ok tt
      → (after : Node) × (C.stored (C.update name node s).1 name ≡ some after)
        × (after.labels ≡ node.labels)

-- The runs of RetryOnConflict: after a conflict the function is run again, and meanwhile other
-- clients may have changed the cluster in any way.
pub data Retries (C : NodeClient) (m : Io C.State (Unit {0}))
    : C.State → Result (Unit {0}) → C.State → Type 0 where
  last : (s : C.State) → Retries C m s (m s).0 (m s).1
  again :
      (s u : C.State) (e : IoError) (r : Result (Unit {0})) (t : C.State)
      → (m s).0 ≡ err e
      → C.is_conflict e
      → Retries C m u r t
      → Retries C m s r t
