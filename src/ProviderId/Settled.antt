-- ===== src/ProviderId/Settled.antt =====
-- provider-id-setter/main.go: the node behind a patch, and the next run.
use kubernetes_switchcloud.Base.{
  not, ◌&&◌, ◌||◌, List, [], ◌∷◌, none, some, Bytes, is_empty, bytes_eq, bytes_eq_refl, bytes_key,
  lookup, insert, lookup-insert, if◌then◌else◌, ◌≡◌, refl, Bool-cases, inl, inr, subst,
}
use kubernetes_switchcloud.ProviderId.{
  NovaMetadata, Node, NodePatch, instance_type_label, or_empty, provider_id_of, instance_type_of,
  is_labelled, patch_for,
}

-- A merge patch of the labels and the provider ID.
abbrev pub merge_labels : List (Bytes × Bytes) → List (Bytes × Bytes) → List (Bytes × Bytes)
merge_labels [] labels = labels
merge_labels ((k, v) ∷ patch) labels = merge_labels patch (insert k v labels)

abbrev pub apply_patch : NodePatch → Node → Node
apply_patch p node = record {
  labels = merge_labels p.labels node.labels;
  provider_id = p.provider_id;
}

-- What a patch leads to.
abbrev pub IsSettled : NovaMetadata → Node → NodePatch → Type 0
IsSettled meta node p =
    ((apply_patch p node).provider_id ≡ provider_id_of meta)
    × (lookup instance_type_label (apply_patch p node).labels ≡ (
        if is_labelled node || is_empty (instance_type_of meta)
        then lookup instance_type_label node.labels
        else some (instance_type_of meta)))
    × (patch_for meta (apply_patch p node) ≡ (
        if is_labelled node || not (is_empty (instance_type_of meta))
        then none
        else some (record { labels = []; provider_id = provider_id_of meta })))

-- The patch with the labels.
abbrev the_patch : NovaMetadata → List (Bytes × Bytes) → NodePatch
the_patch meta labels = record { labels = labels; provider_id = provider_id_of meta }

the_patch-IsSettled :
    (meta : NovaMetadata) (node : Node)
    → IsSettled meta node (
        the_patch meta (
          if not (is_empty (instance_type_of meta)) && not (is_labelled node)
          then (instance_type_label, instance_type_of meta) ∷ []
          else []))
unfolding patch_for is_labelled
the_patch-IsSettled meta node =
    let same = bytes_eq_refl (provider_id_of meta) in
    let new =
      lookup-insert instance_type_label instance_type_label (instance_type_of meta) node.labels in
    let key = bytes_eq_refl instance_type_label in
    elim (Bool-cases (is_empty (or_empty (lookup instance_type_label node.labels)))) [
      | inl l ↦ elim (Bool-cases (is_empty (instance_type_of meta))) [
        | inl e ↦ rw (l, e, same) (refl, refl, rw l refl)
        | inr e ↦ rw (l, e, same, new, key) (refl, refl, rw e refl)
      ]
      | inr l ↦ elim (Bool-cases (is_empty (instance_type_of meta))) [
        | inl e ↦ rw (l, e, same) (refl, refl, rw l refl)
        | inr e ↦ rw (l, e, same) (refl, refl, rw l refl)
      ]
    ]

-- A node that has been given the patch of a run has the provider ID of its server, and has a label
-- for the instance type where it had one or the metadata name one; a label that it had is kept. The
-- next run with the same metadata finds nothing to do if the node has the label, and otherwise sends
-- the provider ID alone again.
pub patch_for-apply_patch :
    (meta : NovaMetadata) (node : Node) (p : NodePatch)
    → patch_for meta node ≡ some p
    → IsSettled meta node p
unfolding patch_for
patch_for-apply_patch meta node p h =
    elim (Bool-cases (bytes_eq node.provider_id (provider_id_of meta) && is_labelled node)) [
      | inl e ↦ absurd (cc (rw (e, patch_for) at h))
      | inr e ↦
          let labels : List (Bytes × Bytes) =
            if not (is_empty (instance_type_of meta)) && not (is_labelled node)
            then (instance_type_label, instance_type_of meta) ∷ []
            else [] in
          let same : the_patch meta labels ≡ p = cc (rw (e, patch_for) at h) in
          subst (IsSettled meta node) same (the_patch-IsSettled meta node)
    ]
