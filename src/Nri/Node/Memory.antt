-- ===== src/Nri/Node/Memory.antt =====
-- Nodes in memory that meet the assumptions on the client.
use podlock.Prelude.{
  ◌≡◌, refl, ◌∙◌, ap, false, Option, none, some, ◌∷◌, Text, codes, ◌==◌, text_eq, arith,
  if◌then◌else◌,
}
use podlock.Io.{IoError, Result, ok, err}
use podlock.Nri.Memory.{missing}
use podlock.Nri.Node.Client.{Node, NodeClient, IsLawful}

abbrev pub Nodes : Type 0
Nodes = Text → Option Node

abbrev conflict : IoError
conflict = record { message = codes "conflict"; not_exist = false }

-- The node gets a new version.
abbrev put_node : Text → Node → Nodes → Nodes
put_node name node nodes q =
    if q == name then some (record node { version = b'+' ∷ node.version }) else nodes q

abbrev read_node : Option Node → Result Node
read_node none = err missing
read_node (some node) = ok node

abbrev updated : Option Node → Text → Node → Nodes → Result (Unit {0}) × Nodes
updated none name node s = (err missing, s)
updated (some current) name node s =
    if current.version == node.version then (ok tt, put_node name node s) else (err conflict, s)

abbrev pub memory : NodeClient
memory = record {
  State = Nodes;
  get = λ name s. read_node (s name);
  update = λ name node s. updated (s name) name node s;
  is_conflict = λ e. e.message ≡ codes "conflict";
  stored = λ s name. s name;
}

read_node-ok : (o : Option Node) (node : Node) → read_node o ≡ ok node → o ≡ some node
read_node-ok none node h = absurd (cc)
read_node-ok (some n) node h = cc

updated-ok :
    (o : Option Node) (name : Text) (node : Node) (s : Nodes)
    → (updated o name node s).0 ≡ ok tt
    → (current : Node) × (o ≡ some current)
      × (current.version ≡ node.version)
      × ((updated o name node s).1 ≡ put_node name node s)
updated-ok none name node s h = absurd (cc)
updated-ok (some c) name node s h = elim (text_eq.dec c.version node.version) [
  | yes same ↦ (c, refl, same, ground arith)
  | no other ↦ absurd (ground arith)
]

put_node-here :
    (name : Text) (node : Node) (s : Nodes)
    → put_node name node s name ≡ some (record node { version = b'+' ∷ node.version })
put_node-here name node s = ground arith

pub memory-IsLawful : IsLawful memory
memory-IsLawful = record {
  get-version = λ name s node current got was same. let here = read_node-ok (s name) node got in cc;
  update-current = λ name node s h. let u = updated-ok (s name) name node s h in (u.0, u.1, u.2);
  update-stored = λ name node s h.
      let u = updated-ok (s name) name node s h in
      (
        record node { version = b'+' ∷ node.version },
        ap (λ (t : Nodes). t name) u.3 ∙ put_node-here name node s,
        refl,
      );
}
