-- ===== src/Nri/Node.antt =====
-- node.go and landlock.go, and startInitMode of cmd/nri/init_mode.go.
pub mod Client
pub mod Labelled
pub mod Memory
use podlock.Prelude.{
  ℕ, true, false, Option, none, some, List, [], ◌∷◌, ◌++◌, Text, codes, ◌==◌, text_eq,
  if◌then◌else◌,
}
use podlock.Map.{Map, insert}
use podlock.Io.{IoError, Result, ok, err, Io, pure, raise, wrap, wrap_result, ◌>>=◌}
use podlock.Decimal.{itoa}
use podlock.Nri.Node.Client.{Node, NodeClient}

abbrev pub landlock_version_node_label_key : Text
landlock_version_node_label_key = codes "podlock.kubewarden.io/landlock-version"

-- DetectLandlockVersion, of the result of LandlockGetABIVersion
unfoldable pub detect_landlock_version : Result ℕ → ℕ
detect_landlock_version (ok version) = version
detect_landlock_version (err e) = 0

-- A nil map becomes an empty one.
abbrev pub labels_of : Option (Map Text) → Map Text
labels_of none = []
labels_of (some labels) = labels

abbrev pub with_version : ℕ → Node → Node
with_version version node = record node {
  labels = some (insert landlock_version_node_label_key (itoa version) (labels_of node.labels));
}

module _ (C : NodeClient) where
  -- The function that RetryOnConflict calls.
  unfoldable pub label_node : Text → ℕ → Io C.State (Unit {0})
  label_node name version = wrap (codes "failed to get node") (λ s. (C.get name s, s)) >>= λ node.
      C.update name (with_version version node)

  -- LabelNodeWithLandlockVersion, where `retry` is RetryOnConflict with its default
  unfoldable pub label_node_with_landlock_version :
      (Io C.State (Unit {0}) → Io C.State (Unit {0})) → Text → ℕ → Io C.State (Unit {0})
  label_node_with_landlock_version retry name version =
      wrap (codes "failed to label node with Landlock version") (retry (label_node name version))

  -- startInitMode, where an error stands for an exit with status 1
  unfoldable pub start_init_mode :
      (Io C.State (Unit {0}) → Io C.State (Unit {0})) → Text → Result ℕ → Io C.State (Unit {0})
  start_init_mode retry node_name abi_version =
      if node_name == []
      then raise (record {
        message = codes "NODE_NAME environment variable is not set";
        not_exist = false;
      })
      else label_node_with_landlock_version retry node_name (detect_landlock_version abi_version)
