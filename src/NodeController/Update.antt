-- ===== src/NodeController/Update.antt =====
-- One update of the status of the node.
use native_kubelet.Base.{Str, ◌≡◌, refl, Option, none, some, ◌⊎◌, inl, inr, List}
use native_kubelet.Result.{Result, ok, err, panic}
use native_kubelet.Errdefs.{Error}
use native_kubelet.Kube.{Node}
use native_kubelet.NodePatch.{wrap, prepare_threeway_patch_bytes_for_node_status}
use native_kubelet.NodeController.{
  NodeApi, Attempt, after_patch, after_prepare, after_get, attempt, after_retry, update_node_status,
}

module _ {W : Type 0} where
  -- The runs of a function that is run again after an error, and whose last run is what counts.
  pub data Runs (f : Attempt W → Attempt W × Option Error)
      : Attempt W → Attempt W × Option Error → Type 0 where
    last : (s : Attempt W) → Runs f s (f s)
    again :
        (s t : Attempt W) (e : Error) (r : Attempt W × Option Error)
        → f s ≡ (t, some e)
        → Runs f t r
        → Runs f s r

module _ {W : Type 0} (api : NodeApi W) where
  -- The node is what the API server answered to a patch that was made for the provider's node and the
  -- node that the server had just returned.
  abbrev pub IsPatched : Node → Node → Type 0
  IsPatched provider node =
      (v : W) × (w : W) × (server : Node) × (bytes : Str) × ((api.get v provider.metadata.name).1
        ≡ inr server)
      × (prepare_threeway_patch_bytes_for_node_status api.json provider server ≡ inr bytes)
      × ((api.patch w provider.metadata.name bytes).1 ≡ inr node)

  abbrev pub Patched : Node → Attempt W × Option Error → Type 0
  Patched provider ((w, updated), some e) = Unit
  Patched provider ((w, some node), none) = IsPatched provider node
  Patched provider ((w, none), none) = ⊥

  after_patch-Patched :
      (provider : Node) (r : W × (Error ⊎ Node))
      → ((node : Node) → r.1 ≡ inr node → IsPatched provider node)
      → Patched provider (after_patch api r)
  after_patch-Patched provider (w, inl e) h = tt
  after_patch-Patched provider (w, inr node) h = h node refl

  after_prepare-Patched :
      (provider : Node) (w : W) (updated : Option Node) (format : Str) (args : List Str)
      (r : Error ⊎ Str)
      → ((bytes : Str) (node : Node)
          → r ≡ inr bytes
          → (api.patch w provider.metadata.name bytes).1 ≡ inr node
          → IsPatched provider node)
      → Patched provider (after_prepare api provider.metadata.name w updated (wrap format args r))
  after_prepare-Patched provider w updated format args (inl e) h = tt
  after_prepare-Patched provider w updated format args (inr bytes) h =
      after_patch-Patched provider (api.patch w provider.metadata.name bytes)
        (λ node p. h bytes node refl p)

  after_get-Patched :
      (provider : Node) (updated : Option Node) (v : W) (r : W × (Error ⊎ Node))
      → (api.get v provider.metadata.name).1 ≡ r.1
      → Patched provider (after_get api provider updated r)
  after_get-Patched provider updated v (w, inl e) p = tt
  after_get-Patched provider updated v (w, inr server) p =
      after_prepare-Patched provider w updated _ _
        (prepare_threeway_patch_bytes_for_node_status api.json provider server)
        (λ bytes node q r. (v, w, server, bytes, p, q, r))

  attempt-Patched : (provider : Node) (s : Attempt W) → Patched provider (attempt api provider s)
  unfolding attempt
  attempt-Patched provider (w, updated) =
      after_get-Patched provider updated w (api.get w provider.metadata.name) refl

  pub Runs-Patched :
      (provider : Node) (s : Attempt W) (r : Attempt W × Option Error)
      → Runs (attempt api provider) s r
      → Patched provider r
  Runs-Patched provider s _ (last _) = attempt-Patched provider s
  Runs-Patched provider s r (again _ t e _ p h) = Runs-Patched provider t r h

  -- What an update returns: a patched node or an error, never a panic.
  abbrev pub Updates : Node → Result Node → Type 0
  Updates provider (ok node) = IsPatched provider node
  Updates provider (err e) = Unit
  Updates provider panic = ⊥

  pub after_retry-Updates :
      (provider : Node) (r : Attempt W × Option Error)
      → Patched provider r
      → Updates provider (after_retry api r).1
  after_retry-Updates provider ((w, updated), some e) h = tt
  after_retry-Updates provider ((w, some node), none) h = h
  after_retry-Updates provider ((w, none), none) h = h

-- retry.RetryOnConflict runs the function, perhaps several times, and the last run counts.
module _ {W : Type 0} (api : NodeApi W)
    (retries : (f : Attempt W → Attempt W × Option Error) (s : Attempt W)
      → Runs f s (api.retry_on_conflict f s)) where
  pub update_node_status-Updates :
      (provider : Node) (w : W) → Updates api provider (update_node_status api provider w).1
  unfolding update_node_status
  update_node_status-Updates provider w =
      after_retry-Updates api provider (api.retry_on_conflict (attempt api provider) (w, none))
        (Runs-Patched api provider (w, none) _ (retries (attempt api provider) (w, none)))
