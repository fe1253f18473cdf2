-- ===== src/Nri/Node/Labelled.antt =====
-- The label is set, and no other label is lost, although the node that is read may be old.
use podlock.Prelude.{◌≡◌, ◌∙◌, ap, ℕ, some, Text, codes}
use podlock.Map.{insert}
use podlock.Io.{Result, ok, Io, wrap, wrap_result-ok, bind-Ran}
use podlock.Nri.Node.{
  landlock_version_node_label_key, labels_of, with_version, label_node,
  label_node_with_landlock_version,
}
use podlock.Decimal.{itoa}
use podlock.Nri.Node.Client.{Node, NodeClient, IsLawful, Retries, last, again}

module _ (C : NodeClient) (L : IsLawful C) where
  -- The node has all labels that it had just before, and the one for the version; nothing else was
  -- done since.
  pub record IsLabelled (name : Text) (version : ℕ) (t : C.State) : Type 0 where
    pub state : C.State
    pub before : Node
    pub was : C.stored state name ≡ some before
    pub only : t ≡ (C.update name (with_version version before) state).1
    pub after : Node
    pub is : C.stored t name ≡ some after
    pub labels :
        after.labels
        ≡ some (insert landlock_version_node_label_key (itoa version) (labels_of before.labels))

  label_node-IsLabelled :
      (name : Text) (version : ℕ) (s : C.State)
      → (label_node C name version s).0 ≡ ok tt
      → IsLabelled name version (label_node C name version s).1
  unfolding label_node
  label_node-IsLabelled name version s h =
      let ran =
        bind-Ran (wrap (codes "failed to get node") (λ s. (C.get name s, s)))
          (λ node. C.update name (with_version version node)) s tt h in
      let node = ran.value in
      let got = wrap_result-ok (codes "failed to get node") (C.get name s) node ran.first in
      let updated = with_version version node in
      let (current, was, same_version) = L.update-current name updated s ran.second in
      let (after, is, labels) = L.update-stored name updated s ran.second in
      record {
        state = s;
        before = node;
        was = was ∙ ap some (L.get-version name s node current got was same_version);
        only = ran.last;
        after = after;
        is = ap (λ (t : C.State). C.stored t name) ran.last ∙ is;
        labels = labels;
      }

  Retries-IsLabelled :
      (name : Text) (version : ℕ) (s : C.State) (r : Result (Unit {0})) (t : C.State)
      → Retries C (label_node C name version) s r t
      → r ≡ ok tt
      → IsLabelled name version t
  Retries-IsLabelled name version _ _ _ (last s) h = label_node-IsLabelled name version s h
  Retries-IsLabelled name version _ _ _ (again s u e r t failed conflict rest) h =
      Retries-IsLabelled name version u r t rest h

  -- If RetryOnConflict runs the function again only after a conflict, and the labelling succeeds,
  -- in whichever of the tries, the last step was one update of the node, which has then the labels
  -- that it had right before and, under the key of the Landlock version, the version: a label that
  -- another client has set meanwhile is not lost.
  pub label_node_with_landlock_version-IsLabelled :
      (retry : Io C.State (Unit {0}) → Io C.State (Unit {0}))
      → ((m : Io C.State (Unit {0})) (s : C.State) → Retries C m s (retry m s).0 (retry m s).1)
      → (name : Text) (version : ℕ) (s : C.State)
      → (label_node_with_landlock_version C retry name version s).0 ≡ ok tt
      → IsLabelled name version (label_node_with_landlock_version C retry name version s).1
  unfolding label_node_with_landlock_version
  label_node_with_landlock_version-IsLabelled retry runs name version s h =
      Retries-IsLabelled name version s _ _ (runs (label_node C name version) s)
        (wrap_result-ok (codes "failed to label node with Landlock version") _ tt h)
