-- ===== src/NodePatch.antt =====
-- node/node.go: the three-way patch of the status of the node. JSON and the patch of the library are
-- parameters.
use native_kubelet.Base.{
  ℕ, Str, codes, str_eq, Dict, lookup, insert, Bool, true, false, ◌||◌, if◌then◌else◌, Option, none,
  some, ◌⊎◌, inl, inr, List, [], ◌∷◌, ◌++◌,
}
use native_kubelet.Errdefs.{Error, wrapped}
use native_kubelet.Kube.{ObjectMeta, Node, NodeStatus, Taint}
pub mod RoundTrip

-- virtualKubeletLastNodeAppliedNodeStatus
abbrev pub last_applied_node_status : Str
last_applied_node_status = codes "virtual-kubelet.io/last-applied-node-status"

-- virtualKubeletLastNodeAppliedObjectMeta
abbrev pub last_applied_object_meta : Str
last_applied_object_meta = codes "virtual-kubelet.io/last-applied-object-meta"

abbrev pub Fallible {ℓ} : Type ℓ → Type ℓ
Fallible A = Error ⊎ A

infixl 5 ◌>>=◌
abbrev pub ◌>>=◌ {ℓ κ} : {A : Type ℓ} {B : Type κ} → Fallible A → (A → Fallible B) → Fallible B
inl e >>= f = inl e
inr a >>= f = f a

-- pkgerrors.Wrap of the error, if there is one
abbrev pub wrap {ℓ} : {A : Type ℓ} → Str → List Str → Fallible A → Fallible A
wrap format args (inl e) = inl (wrapped format args e)
wrap format args (inr a) = inr a

pub record Json : Type 0 where
  pub encode_meta : ObjectMeta → Fallible Str
  pub encode_status : NodeStatus → Fallible Str
  pub encode_node : Node → Fallible Str
  pub decode_meta : Str → Fallible ObjectMeta
  pub decode_status : Str → Fallible NodeStatus
  -- NewPatchMetaFromStruct, and whether it fails
  pub schema_error : Option Error
  pub create_three_way_merge_patch : Str → Str → Str → Fallible Str

-- corev1.Node{}
abbrev pub empty_meta : ObjectMeta
empty_meta = record {
  namespace = [];
  name = [];
  uid = [];
  resource_version = [];
  labels = [];
  annotations = [];
  creation_timestamp = 0;
  deletion_timestamp = none;
  deletion_grace_period_seconds = none;
}

abbrev pub empty_node : Node
empty_node = record {
  metadata = empty_meta;
  taints = [];
  status = record { conditions = []; rest = [] };
}

unfoldable pub is_embedded : Str → Bool
unfolding str_eq
is_embedded key = str_eq key last_applied_node_status || str_eq key last_applied_object_meta

-- The loop over the annotations, and the copy.
unfoldable pub copy_annotations : Dict Str → Dict Str → Dict Str
unfolding is_embedded insert
copy_annotations [] copied = copied
copy_annotations ((key, v) ∷ m) copied =
    copy_annotations m (if is_embedded key then copied else insert key v copied)

abbrev pub labels_of : Option ObjectMeta → Dict Str
labels_of none = []
labels_of (some m) = m.labels

abbrev pub annotations_of : Option ObjectMeta → Dict Str
annotations_of none = []
annotations_of (some m) = m.annotations

unfoldable pub simplest_object_metadata : ObjectMeta → Option ObjectMeta → ObjectMeta
unfolding copy_annotations
simplest_object_metadata base other = record empty_meta {
  namespace = base.namespace;
  name = base.name;
  uid = base.uid;
  labels = labels_of other;
  annotations = copy_annotations (annotations_of other) [];
}

module _ (json : Json) where
  abbrev pub decode_old : Option Str → Option Str → Fallible Node
  decode_old (some old_status) (some old_meta) =
      wrap (codes "Cannot unmarshal old node object metadata (key: %q): %q")
        (last_applied_object_meta ∷ old_meta ∷ []) (json.decode_meta old_meta)
      >>= (λ meta.
          wrap (codes "Cannot unmarshal old node status (key: %q): %q")
            (last_applied_node_status ∷ old_status ∷ []) (json.decode_status old_status)
          >>= (λ status. inr (record empty_node { metadata = meta; status = status })))
  decode_old _ _ = inr empty_node

  -- What was applied last, from the annotations of the node of the API server.
  unfoldable pub old_node : Node → Fallible Node
  unfolding lookup
  old_node api_server_node =
      decode_old (lookup last_applied_node_status api_server_node.metadata.annotations)
        (lookup last_applied_object_meta api_server_node.metadata.annotations)

  abbrev pub annotated : ObjectMeta → NodeStatus → Str → Str → Node
  annotated meta status meta_bytes status_bytes = record empty_node {
    metadata = record meta {
      annotations =
          insert last_applied_node_status status_bytes
            (insert last_applied_object_meta meta_bytes meta.annotations);
    };
    status = status;
  }

  -- What the provider wants, with the two annotations.
  unfoldable pub new_node : Node → Node → Fallible Node
  unfolding simplest_object_metadata insert
  new_node node_from_provider api_server_node =
      let meta =
        simplest_object_metadata api_server_node.metadata (some node_from_provider.metadata) in
      wrap (codes "Cannot marshal object meta from provider") [] (json.encode_meta meta)
      >>= (λ meta_bytes.
          wrap (codes "Cannot marshal node status from provider") []
            (json.encode_status node_from_provider.status)
          >>= (λ status_bytes.
              inr (annotated meta node_from_provider.status meta_bytes status_bytes)))

  abbrev pub patch_schema : Option Error → Fallible (Unit {0})
  patch_schema none = inr tt
  patch_schema (some e) = inl e

  unfoldable pub prepare_threeway_patch_bytes_for_node_status : Node → Node → Fallible Str
  unfolding old_node new_node
  prepare_threeway_patch_bytes_for_node_status node_from_provider api_server_node =
      old_node api_server_node >>= (λ old. new_node node_from_provider api_server_node >>= (λ new.
        wrap (codes "Cannot marshal old node bytes") [] (json.encode_node old) >>= (λ old_bytes.
          wrap (codes "Cannot marshal new node bytes") [] (json.encode_node new) >>= (λ new_bytes.
            wrap (codes "Cannot marshal api server node") [] (json.encode_node api_server_node)
            >>= (λ api_bytes.
                wrap (codes "Cannot get patch schema from node") [] (patch_schema json.schema_error)
                >>= (λ _. json.create_three_way_merge_patch old_bytes new_bytes api_bytes))))))

-- taintsStringer.String
unfoldable pub taint_string : Taint → Str
taint_string taint = taint.key ++ codes "=" ++ taint.value ++ codes ":" ++ taint.effect

abbrev pub add_taint : Str → Str → Str
add_taint [] t = t
add_taint (c ∷ s) t = (c ∷ s) ++ codes ", " ++ t

unfoldable pub taints_string : Str → List Taint → Str
unfolding taint_string
taints_string s [] = s
taints_string s (taint ∷ taints) = taints_string (add_taint s (taint_string taint)) taints
