-- ===== src/PodController/Status.antt =====
-- updatePodStatus, syncPodStatusFromProviderHandler and enqueuePodStatusUpdate.
use native_kubelet.Base.{
  ℕ, zero, suc, ltb, Str, str_eq, codes, Bool, true, false, not, ◌&&◌, if◌then◌else◌, is_some,
  Option, none, some, [],
}
use native_kubelet.Result.{Result, ok, err, panic}
use native_kubelet.Errdefs.{Error, wrapped}
use native_kubelet.Kube.{Pod}
use native_kubelet.PodController.Compare.{should_skip_pod_status_update}
use native_kubelet.PodController.State.{
  KnownPod, Services, State, sync_pod_status_from_provider, enqueue, load, write, queue_op,
}

module _ {W : Type 0} (sv : Services W) where
  open sv use {
    lister_get, update_status, delete_from_kubernetes, now, api_is_not_found, meta_namespace_key,
    split_meta_namespace_key, cmp,
  }

  -- podFromProvider with the UID of the API server
  unfoldable pub with_uid : Pod → Pod → Pod
  with_uid from_kubernetes from_provider =
      if not (str_eq from_provider.metadata.uid from_kubernetes.metadata.uid)
      then record from_provider {
        metadata = record (from_provider.metadata) { uid = from_kubernetes.metadata.uid };
      }
      else from_provider

  abbrev pub grace_period : ℕ → Option ℕ → Option ℕ → Option ℕ
  grace_period current none grace = grace
  grace_period current (some deleted) grace = if ltb deleted current then some 0 else grace

  unfoldable pub api_result : Str → W × Option Error → State W → Result (Unit {0}) × State W
  api_result format (w, none) s = (ok tt, record s { world = w })
  api_result format (w, some e) s = (
    if not (api_is_not_found e) then err (wrapped format [] e) else ok tt,
    record s { world = w },
  )

  -- Delete the pod in Kubernetes when the provider has deleted it and the statuses agree.
  unfoldable pub delete_evicted : Pod → Pod → State W → Result (Unit {0}) × State W
  unfolding api_result
  delete_evicted from_kubernetes from_provider s =
      if is_some from_provider.metadata.deletion_timestamp
        && not (is_some from_kubernetes.metadata.deletion_timestamp)
      then (if cmp.equal_status from_kubernetes.status from_provider.status
          then api_result (codes "error while delete pod in kubernetes")
              (delete_from_kubernetes s.world from_kubernetes.metadata.namespace
                from_kubernetes.metadata.name
                (grace_period (now s.world) from_provider.metadata.deletion_timestamp
                  from_provider.metadata.deletion_grace_period_seconds))
              s
          else (ok tt, s))
      else (ok tt, s)

  abbrev pub blind_version : Pod → Pod
  blind_version pod = record pod {
    metadata = record (pod.metadata) { resource_version = codes "0" };
  }

  unfoldable pub send_status : Pod → Result (Unit {0}) × State W → Result (Unit {0}) × State W
  unfolding api_result
  send_status pod (ok u, s) =
      api_result (codes "error while updating pod status in kubernetes")
        (update_status s.world (blind_version pod)) s
  send_status pod (err e, s) = (err e, s)
  send_status pod (panic, s) = (panic, s)

  abbrev pub skipped : Bool → KnownPod → KnownPod
  skipped b k = record k { last_pod_status_update_skipped = b }

  unfoldable pub compare_status : Pod → ℕ → KnownPod → Pod → State W → Result (Unit {0}) × State W
  unfolding write delete_evicted send_status
  compare_status from_kubernetes p k from_provider s =
      if cmp.equal_status from_kubernetes.status from_provider.status
        && not (is_some from_provider.metadata.deletion_timestamp)
      then (ok tt, write p (skipped true k) s)
      else send_status from_provider
          (delete_evicted from_kubernetes from_provider (write p (skipped false k) s))

  -- A nil status from the provider is dereferenced for its UID.
  unfoldable pub with_received :
      Pod → ℕ → KnownPod → Option Pod → State W → Result (Unit {0}) × State W
  unfolding with_uid compare_status
  with_received from_kubernetes p k none s = (panic, s)
  with_received from_kubernetes p k (some received) s =
      compare_status from_kubernetes p k (with_uid from_kubernetes received) s

  unfoldable pub update_known :
      Pod → Option (ℕ × Option KnownPod) → State W → Result (Unit {0}) × State W
  unfolding with_received
  update_known from_kubernetes none s = (ok tt, s)
  update_known from_kubernetes (some (p, none)) s = (panic, s)
  update_known from_kubernetes (some (p, some k)) s =
      with_received from_kubernetes p k k.last_pod_status_received_from_provider s

  unfoldable pub update_pod_status : Pod → Str → State W → Result (Unit {0}) × State W
  unfolding update_known load should_skip_pod_status_update
  update_pod_status from_kubernetes key s =
      if should_skip_pod_status_update from_kubernetes
      then (ok tt, s)
      else update_known from_kubernetes (load key s) s

  abbrev pub status_listed : Str → Result Pod → State W → Result (Unit {0}) × State W
  status_listed key (ok pod) s = update_pod_status pod key s
  status_listed key (err e) s =
      (if api_is_not_found e then ok tt else err (wrapped (codes "error looking up pod") [] e), s)
  status_listed key panic s = (panic, s)

  abbrev pub status_split : Str → Result (Str × Str) → State W → Result (Unit {0}) × State W
  status_split key (ok (namespace, name)) s =
      status_listed key (lister_get s.world namespace name) s
  status_split key (err e) s = (err (wrapped (codes "error splitting cache key") [] e), s)
  status_split key panic s = (panic, s)

  unfoldable pub sync_pod_status_from_provider_handler : Str → State W → Result (Unit {0}) × State W
  unfolding update_pod_status
  sync_pod_status_from_provider_handler key s = status_split key (split_meta_namespace_key key) s

  -- One poll: the entry of the key, an error that ends the polling, or `waiting`.
  pub data Polled : Type 0 where
    found : ℕ → Option KnownPod → Polled
    waiting failed_poll : Polled

  abbrev pub poll_lister : Result Pod → Polled
  poll_lister (ok pod) = waiting
  poll_lister (err e) = failed_poll
  poll_lister panic = failed_poll

  unfoldable pub poll : Pod → Str → State W → Polled
  unfolding load
  poll pod key s = elim (load key s) [
    | some (p, k) ↦ found p k
    | none ↦ poll_lister (lister_get s.world pod.metadata.namespace pod.metadata.name)
  ]

  -- wait.PollImmediateUntil: at most `polls` polls before the context ends. `others` is what the
  -- rest of the program does to the state while the poll waits.
  unfoldable pub poll_until : ℕ → (State W → State W) → Pod → Str → State W → Polled × State W
  unfolding poll
  poll_until zero others pod key s = (failed_poll, s)
  poll_until (suc polls) others pod key s = elim (poll pod key s) [
    | found p k ↦ (found p k, s)
    | failed_poll ↦ (failed_poll, s)
    | waiting ↦ poll_until polls others pod key (others s)
  ]

  abbrev pub same_pod : Option Pod → Pod → Bool
  same_pod none pod = false
  same_pod (some received) pod = cmp.equal_pods (λ p. false) received pod

  abbrev pub receive : Pod → KnownPod → KnownPod
  receive pod k = record k { last_pod_status_received_from_provider = some pod }

  unfoldable pub after_poll : Pod → Str → Polled × State W → State W
  unfolding write queue_op
  after_poll pod key (found p (some k), s) =
      if same_pod k.last_pod_status_received_from_provider pod
      then s
      else queue_op (enqueue sync_pod_status_from_provider key) (write p (receive pod k) s)
  after_poll pod key (found p none, s) = s
  after_poll pod key (waiting, s) = s
  after_poll pod key (failed_poll, s) = s

  abbrev pub enqueue_key : ℕ → (State W → State W) → Pod → Result Str → State W → State W
  enqueue_key polls others pod (ok key) s = after_poll pod key (poll_until polls others pod key s)
  enqueue_key polls others pod (err e) s = s
  enqueue_key polls others pod panic s = s

  unfoldable pub enqueue_pod_status_update : ℕ → (State W → State W) → Pod → State W → State W
  unfolding poll_until after_poll
  enqueue_pod_status_update polls others pod s =
      enqueue_key polls others pod (meta_namespace_key pod) s
