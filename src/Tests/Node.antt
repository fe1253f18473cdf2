-- ===== src/Tests/Node.antt =====
-- The labelling of nodes.
use podlock.Prelude.{◌≡◌, refl, none, some, [], ◌∷◌, Text, codes, text_eq, ◌==◌, if◌then◌else◌}
use podlock.Io.{Result, ok, err, Io}
use podlock.Nri.Node.{label_node, label_node_with_landlock_version}
use podlock.Decimal.{itoa}
use podlock.Nri.Node.Client.{Retries, last}
use podlock.Nri.Node.Memory.{Nodes, memory, memory-IsLawful}
use podlock.Nri.Node.Labelled.{IsLabelled, label_node_with_landlock_version-IsLabelled}

abbrev worker : Text
worker = codes "worker"

abbrev nodes : Nodes
nodes = λ q.
    if q == worker
    then some (record { version = codes "7"; labels = some ((codes "zone", codes "a") ∷ []) })
    else none

-- A retry that stops after the first try.
abbrev once : Io Nodes (Unit {0}) → Io Nodes (Unit {0})
once m = m

once_runs : (m : Io Nodes (Unit {0})) (s : Nodes) → Retries memory m s (once m s).0 (once m s).1
once_runs m s = last s

label_ok : (label_node_with_landlock_version memory once worker 6 nodes).0 ≡ ok tt
unfolding label_node_with_landlock_version label_node text_eq podlock.Io.◌>>=◌
label_ok = refl

itoa_twelve : itoa 12 ≡ codes "12"
unfolding itoa
itoa_twelve = refl

label_node_with_landlock_version-IsLabelled_example :
    IsLabelled memory memory-IsLawful worker 6
      (label_node_with_landlock_version memory once worker 6 nodes).1
label_node_with_landlock_version-IsLabelled_example =
    label_node_with_landlock_version-IsLabelled memory memory-IsLawful once once_runs worker 6 nodes
      label_ok
