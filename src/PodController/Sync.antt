-- ===== src/PodController/Sync.antt =====
-- syncPodInProvider, syncPodFromKubernetesHandler, deletePodsFromKubernetesHandler and
-- deleteDanglingPods.
use native_kubelet.Base.{
  ℕ, zero, suc, Str, codes, Bool, true, false, not, ◌&&◌, ◌||◌, if◌then◌else◌, is_some, Option,
  none, some, List, [], ◌∷◌, ◌++◌,
}
use native_kubelet.Result.{Result, ok, err, panic}
use native_kubelet.Errdefs.{Error, wrapped, is_not_found_error}
use native_kubelet.Kube.{Pod}
use native_kubelet.PodController.Compare.{
  is_running, should_skip_pod_status_update, pods_effectively_equal,
}
use native_kubelet.PodController.State.{
  KnownPod, Services, State, delete_pods_from_kubernetes, enqueue_without_rate_limit, enqueue_after,
  load, write, queue_op,
}
use native_kubelet.PodController.Provide.{create_or_update_pod, delete_in_provider}

abbrev pub failed_to_delete : Str
failed_to_delete = codes "failed to delete pod %q in the provider"

abbrev pub failed_to_sync : Str
failed_to_sync = codes "failed to sync pod %q in the provider"

abbrev pub insert_at : ℕ → Pod → List Pod → List Pod
insert_at zero pod pods = pod ∷ pods
insert_at (suc i) pod [] = pod ∷ []
insert_at (suc i) pod (p ∷ pods) = p ∷ insert_at i pod pods

-- The pods in the order of a schedule: for each of them, from the first on, at which place among the
-- arranged later ones it stands.
unfoldable pub arrange : List ℕ → List Pod → List Pod
arrange [] pods = pods
arrange (i ∷ is) [] = []
arrange (i ∷ is) (pod ∷ pods) = insert_at i pod (arrange is pods)

module _ {W : Type 0} (sv : Services W) where
  open sv use {
    delete_pod, get_pod, get_pods, delete_pod_key, lister_get, delete_from_kubernetes,
    api_is_not_found, split_meta_namespace_key, cmp, meta_namespace_key,
  }

  abbrev pub known_name : Result Str → Str
  known_name (ok k) = k
  known_name (err e) = codes "(unknown)"
  known_name panic = codes "(unknown)"

  unfoldable pub loggable_pod_name : Pod → Str
  loggable_pod_name pod = known_name (meta_namespace_key pod)

  unfoldable pub loggable_pod_name_from_coordinates : Str → Str → Str
  loggable_pod_name_from_coordinates namespace name = namespace ++ codes "/" ++ name

  -- *pod.DeletionGracePeriodSeconds: a panic when it is nil.
  unfoldable pub enqueue_deletion : Str → Option ℕ → State W → Result (Unit {0}) × State W
  unfolding queue_op
  enqueue_deletion key none s = (panic, s)
  enqueue_deletion key (some seconds) s =
      (ok tt, queue_op (enqueue_after delete_pods_from_kubernetes key seconds) s)

  -- The pod was deleted in the provider, or the provider does not know it.
  unfoldable pub after_delete_in_provider :
      Pod → Str → Option Error × State W → Result (Unit {0}) × State W
  unfolding enqueue_deletion is_not_found_error
  after_delete_in_provider pod key (some e, s) =
      if is_not_found_error e
      then enqueue_deletion key pod.metadata.deletion_grace_period_seconds s
      else (err (wrapped failed_to_delete (loggable_pod_name pod ∷ []) e), s)
  after_delete_in_provider pod key (none, s) =
      enqueue_deletion key pod.metadata.deletion_grace_period_seconds s

  abbrev pub wrap_sync : Pod → Result (Unit {0}) × State W → Result (Unit {0}) × State W
  wrap_sync pod (err e, s) = (err (wrapped failed_to_sync (loggable_pod_name pod ∷ []) e), s)
  wrap_sync pod (ok u, s) = (ok u, s)
  wrap_sync pod (panic, s) = (panic, s)

  -- From the test of the deletion mark to the end of syncPodInProvider.
  unfoldable pub reconcile : Pod → Str → State W → Result (Unit {0}) × State W
  unfolding after_delete_in_provider delete_in_provider should_skip_pod_status_update
      create_or_update_pod
  reconcile pod key s =
      if is_some pod.metadata.deletion_timestamp
      then after_delete_in_provider pod key (delete_in_provider sv pod s)
      else if should_skip_pod_status_update pod
      then (ok tt, s)
      else wrap_sync pod (create_or_update_pod sv pod s)

  abbrev pub use_pod : Pod → KnownPod → KnownPod
  use_pod pod k = record k { last_pod_used = some pod }

  -- The write of the deferred function, through the pointer that was loaded before.
  unfoldable pub remember : Pod → ℕ → State W → State W
  unfolding write
  remember pod p s = elim (native_kubelet.Base.get_elem? s.heap p) [
    | none ↦ s
    | some k ↦ write p (use_pod pod k) s
  ]

  -- It runs when retErr is nil, in a panic too.
  unfoldable pub deferred : Pod → ℕ → Result (Unit {0}) × State W → Result (Unit {0}) × State W
  unfolding remember
  deferred pod p (ok u, s) = (ok u, remember pod p s)
  deferred pod p (err e, s) = (err e, s)
  deferred pod p (panic, s) = (panic, remember pod p s)

  abbrev pub is_used : Option Pod → Pod → Bool
  is_used none pod = false
  is_used (some used) pod = pods_effectively_equal cmp used pod

  unfoldable pub with_known_pod :
      Pod → Str → Option (ℕ × Option KnownPod) → State W → Result (Unit {0}) × State W
  unfolding deferred reconcile pods_effectively_equal
  with_known_pod pod key none s = (ok tt, s)
  with_known_pod pod key (some (p, none)) s = (panic, s)
  with_known_pod pod key (some (p, some k)) s =
      if is_used k.last_pod_used pod then (ok tt, s) else deferred pod p (reconcile pod key s)

  unfoldable pub sync_pod_in_provider : Pod → Str → State W → Result (Unit {0}) × State W
  unfolding with_known_pod load is_running queue_op
  sync_pod_in_provider pod key s =
      if is_some pod.metadata.deletion_timestamp && not (is_running pod.status)
      then (ok tt, queue_op (enqueue_without_rate_limit delete_pods_from_kubernetes key) s)
      else with_known_pod pod key (load key s) s

  -- What DeletePod of the provider answered for a pod that Kubernetes does not have.
  unfoldable pub after_orphan_delete :
      Str → W × Option Error → State W → Result (Unit {0}) × State W
  unfolding is_not_found_error
  after_orphan_delete name (w, none) s = (ok tt, record s { world = w })
  after_orphan_delete name (w, some e) s = (
    if is_not_found_error e then ok tt else err (wrapped failed_to_delete (name ∷ []) e),
    record s { world = w },
  )

  -- The provider's answer for a pod that Kubernetes does not have.
  unfoldable pub orphan :
      Str → Str → Str → Option Pod × Option Error → State W → Result (Unit {0}) × State W
  unfolding after_orphan_delete is_not_found_error
  orphan key namespace name (pod, some e) s =
      if not (is_not_found_error e) && not (api_is_not_found e)
      then (err (wrapped (codes "failed to fetch pod with key %q from provider") (key ∷ []) e), s)
      else (ok tt, s)
  orphan key namespace name (none, none) s = (ok tt, s)
  orphan key namespace name (some pod, none) s =
      after_orphan_delete (loggable_pod_name_from_coordinates namespace name)
        (delete_pod s.world pod) s

  unfoldable pub listed : Str → Str → Str → Result Pod → State W → Result (Unit {0}) × State W
  unfolding sync_pod_in_provider orphan
  listed key namespace name (ok pod) s = sync_pod_in_provider pod key s
  listed key namespace name (err e) s =
      if not (api_is_not_found e)
      then (err (wrapped (codes "failed to fetch pod with key %q from lister") (key ∷ []) e), s)
      else orphan key namespace name (get_pod s.world namespace name) s
  listed key namespace name panic s = (panic, s)

  abbrev pub with_key :
      Result (Str × Str)
      → (Str → Str → State W → Result (Unit {0}) × State W)
      → State W
      → Result (Unit {0}) × State W
  with_key (ok (namespace, name)) f s = f namespace name s
  with_key (err e) f s = (ok tt, s)
  with_key panic f s = (panic, s)

  -- An invalid key is dropped with no error.
  unfoldable pub sync_pod_from_kubernetes_handler : Str → State W → Result (Unit {0}) × State W
  unfolding listed
  sync_pod_from_kubernetes_handler key s =
      with_key (split_meta_namespace_key key)
        (λ namespace name s. listed key namespace name (lister_get s.world namespace name) s) s

  abbrev pub force_result : W × Option Error → State W → Result (Unit {0}) × State W
  force_result (w, none) s = (ok tt, record s { world = w })
  force_result (w, some e) s = (if api_is_not_found e then ok tt else err e, record s { world = w })

  -- Delete with a grace period of 0, if the lister still has the pod.
  unfoldable pub force_delete : Str → Str → Result Pod → State W → Result (Unit {0}) × State W
  force_delete namespace name (ok pod) s =
      force_result (delete_from_kubernetes s.world namespace name (some 0)) s
  force_delete namespace name (err e) s = (if api_is_not_found e then ok tt else err e, s)
  force_delete namespace name panic s = (panic, s)

  -- The deferred clean-up of the sync wrapper's deletion cache.
  unfoldable pub clean_up : Str → Result (Unit {0}) × State W → Result (Unit {0}) × State W
  clean_up key (ok u, s) = (ok u, record s { world = delete_pod_key s.world key })
  clean_up key (err e, s) = (err e, s)
  clean_up key (panic, s) = (panic, record s { world = delete_pod_key s.world key })

  unfoldable pub delete_pods_from_kubernetes_handler : Str → State W → Result (Unit {0}) × State W
  unfolding force_delete clean_up
  delete_pods_from_kubernetes_handler key s =
      with_key (split_meta_namespace_key key)
        (λ namespace name s.
          clean_up key (force_delete namespace name (lister_get s.world namespace name) s))
        s

  -- The pods to delete, or `none` when the lister fails in another way than not finding one.
  unfoldable pub dangling : W → List Pod → Option (List Pod)
  dangling w [] = some []
  dangling w (pp ∷ pps) =
      let rest = dangling w pps in
      elim (lister_get w pp.metadata.namespace pp.metadata.name) [
        | ok pod ↦ rest
        | err e ↦
            if api_is_not_found e then native_kubelet.Base.map_option (λ l. pp ∷ l) rest else none
        | panic ↦ none
      ]

  -- The calls of DeletePod, one after another; their errors are only logged.
  unfoldable pub delete_calls : List Pod → W → W
  delete_calls [] w = w
  delete_calls (pod ∷ pods) w = delete_calls pods (delete_pod w pod).0

  -- Each pod is deleted in a goroutine of its own, and the schedule says in which order they call.
  unfoldable pub delete_all : List ℕ → List Pod → W → W
  unfolding arrange delete_calls
  delete_all schedule ptd w = delete_calls (arrange schedule ptd) w

  abbrev pub delete_listed : List ℕ → Option (List Pod) → State W → State W
  delete_listed schedule none s = s
  delete_listed schedule (some ptd) s = record s { world = delete_all schedule ptd s.world }

  abbrev pub delete_known : List ℕ → Result (List Pod) → State W → State W
  delete_known schedule (ok pps) s = delete_listed schedule (dangling s.world pps) s
  delete_known schedule (err e) s = s
  delete_known schedule panic s = s

  -- The calls of the goroutines are taken as atomic, in any order; Wait waits for all of them.
  unfoldable pub delete_dangling_pods : List ℕ → State W → State W
  unfolding dangling delete_all
  delete_dangling_pods schedule s = delete_known schedule (get_pods s.world) s
