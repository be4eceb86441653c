-- ===== src/NodePatch/RoundTrip.antt =====
-- What one patch writes into the annotations is what the next patch takes as the old node.
use native_kubelet.Base.{
  Str, str_eq, str_eq_iff, Dict, lookup, insert, lookup-insert, lookup-insert_self, Bool,
  Bool-cases, true, false, if◌then◌else◌, Option, none, some, ◌⊎◌, inl, inr, List, [], ◌∷◌, ◌≡◌,
  refl, sym, ap, ◌∙◌, arith,
}
use mathlib.Core.Sum.{inr-injective}
use native_kubelet.Kube.{ObjectMeta, Node, NodeStatus}
use native_kubelet.NodePatch.{
  last_applied_node_status, last_applied_object_meta, Fallible, ◌>>=◌, wrap, Json, empty_node,
  is_embedded, copy_annotations, simplest_object_metadata, decode_old, old_node, annotated,
  new_node,
}

-- A chain that succeeds succeeds in its first part.
wrap-inr :
    {A B : Type 0} (format : Str) (args : List Str) (r : Fallible A) (k : A → Fallible B) (b : B)
    → (wrap format args r >>= k) ≡ inr b
    → (a : A) × (r ≡ inr a) × (k a ≡ inr b)
wrap-inr format args (inl e) k b p = absurd (ground arith)
wrap-inr format args (inr a) k b p = (a, refl, p)

if-lookup :
    (j key : Str) (v : Str) (copied : Dict Str)
    → is_embedded j ≡ true
    → (b : Bool) → b ≡ is_embedded key
    → lookup j (if b then copied else insert key v copied) ≡ lookup j copied
if-lookup j key v copied h true p = refl
if-lookup j key v copied h false p =
    lookup-insert key j v copied ∙ other (Bool-cases (str_eq key j))
  where
    other :
        (str_eq key j ≡ true) ⊎ (str_eq key j ≡ false)
        → (if str_eq key j then some v else lookup j copied) ≡ lookup j copied
    other (inl e) = absurd (ground (arith, p ∙ ap is_embedded ((str_eq_iff key j).0 e) ∙ h))
    other (inr e) = rw e refl

copy_annotations-embedded :
    (j : Str) (m copied : Dict Str)
    → is_embedded j ≡ true
    → lookup j (copy_annotations m copied) ≡ lookup j copied
unfolding copy_annotations
copy_annotations-embedded j [] copied h = refl
copy_annotations-embedded j ((key, v) ∷ m) copied h =
    copy_annotations-embedded j m (if is_embedded key then copied else insert key v copied) h
    ∙ if-lookup j key v copied h (is_embedded key) refl

-- The two annotations themselves are never copied into what they hold.
simplest_object_metadata-embedded :
    (j : Str) (base : ObjectMeta) (other : Option ObjectMeta)
    → is_embedded j ≡ true
    → lookup j (simplest_object_metadata base other).annotations ≡ none
unfolding simplest_object_metadata lookup
simplest_object_metadata-embedded j base none h = copy_annotations-embedded j [] [] h
simplest_object_metadata-embedded j base (some m) h = copy_annotations-embedded j m.annotations [] h

annotated-lookup :
    (json : Json) (meta : ObjectMeta) (status : NodeStatus) (m s : Str)
    → let n = annotated json meta status m s in
      (lookup last_applied_object_meta n.metadata.annotations ≡ some m)
      × (lookup last_applied_node_status n.metadata.annotations ≡ some s)
unfolding lookup
annotated-lookup json meta status m s = (
  lookup-insert last_applied_node_status last_applied_object_meta s _
      ∙ lookup-insert_self last_applied_object_meta m meta.annotations,
  lookup-insert_self last_applied_node_status s _,
)

module _ (json : Json)
    (decode_meta-encode : (m : ObjectMeta) (s : Str)
      → json.encode_meta m ≡ inr s
      → json.decode_meta s ≡ inr m)
    (decode_status-encode : (t : NodeStatus) (s : Str)
      → json.encode_status t ≡ inr s
      → json.decode_status s ≡ inr t) where
  decode_old-encoded :
      (meta : ObjectMeta) (status : NodeStatus) (m s : Str)
      → json.encode_meta meta ≡ inr m
      → json.encode_status status ≡ inr s
      → decode_old json (some s) (some m)
        ≡ inr (record empty_node { metadata = meta; status = status })
  decode_old-encoded meta status m s p q =
      rw (decode_meta-encode meta m p) (rw (decode_status-encode status s q) refl)

  -- When decoding undoes encoding: after a patch towards `new`, any later node of the API server that
  -- has kept the two annotations of `new` gives, as the old node of the next patch, exactly the
  -- metadata and the status that `new` was made of; and that metadata has neither annotation in it, so
  -- that the annotations do not nest.
  pub old_node-new_node :
      (provider api new later : Node)
      → new_node json provider api ≡ inr new
      → lookup last_applied_object_meta later.metadata.annotations
        ≡ lookup last_applied_object_meta new.metadata.annotations
      → lookup last_applied_node_status later.metadata.annotations
        ≡ lookup last_applied_node_status new.metadata.annotations
      → let meta = simplest_object_metadata api.metadata (some provider.metadata) in
        (old_node json later
          ≡ inr (record empty_node { metadata = meta; status = provider.status }))
        × (lookup last_applied_object_meta meta.annotations ≡ none)
        × (lookup last_applied_node_status meta.annotations ≡ none)
  unfolding new_node old_node is_embedded
  old_node-new_node provider api new later e p q =
      let meta = simplest_object_metadata api.metadata (some provider.metadata) in
      let (m, em, e2) = wrap-inr _ [] (json.encode_meta meta) _ new e in
      let (s, es, e3) = wrap-inr _ [] (json.encode_status provider.status) _ new e2 in
      let h = annotated-lookup json meta provider.status m s in
      let is_new = inr-injective (annotated json meta provider.status m s) new e3 in
      (
        ap (λ t. decode_old json t (lookup last_applied_object_meta later.metadata.annotations))
              (q
                ∙ ap (λ n. lookup last_applied_node_status n.metadata.annotations) (sym is_new)
                ∙ h.1)
            ∙ ap (λ t. decode_old json (some s) t)
                (p
                  ∙ ap (λ n. lookup last_applied_object_meta n.metadata.annotations) (sym is_new)
                  ∙ h.0)
            ∙ decode_old-encoded meta provider.status m s em es,
        simplest_object_metadata-embedded last_applied_object_meta api.metadata
            (some provider.metadata) refl,
        simplest_object_metadata-embedded last_applied_node_status api.metadata
            (some provider.metadata) refl,
      )
