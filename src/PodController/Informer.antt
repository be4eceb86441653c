-- ===== src/PodController/Informer.antt =====
-- The handlers of the informer's events that Run sets up. The filter that may stand
-- before them, podEventFilterFunc, is left out.
use native_kubelet.Base.{ℕ, Str, false, not, if◌then◌else◌, Option, none, some, delete}
use native_kubelet.Result.{Result, ok, err, panic}
use native_kubelet.Kube.{Pod}
use native_kubelet.PodController.Compare.{pod_should_enqueue}
use native_kubelet.PodController.State.{
  KnownPod, Services, State, sync_pods_from_kubernetes, delete_pods_from_kubernetes,
  sync_pod_status_from_provider, enqueue, forget, store_new, load, write, queue_op,
}
use native_kubelet.PodController.Status.{skipped}

module _ {W : Type 0} (sv : Services W) where
  open sv use {meta_namespace_key, deletion_handling_meta_namespace_key, cmp}

  abbrev pub by_key :
      Result Str
      → (Str → State W → Result (Unit {0}) × State W)
      → State W
      → Result (Unit {0}) × State W
  by_key (ok key) f s = f key s
  by_key (err e) f s = (ok tt, s)
  by_key panic f s = (panic, s)

  unfoldable pub add_func : Pod → State W → Result (Unit {0}) × State W
  unfolding store_new queue_op
  add_func pod s =
      by_key (meta_namespace_key pod)
        (λ key s. (ok tt, queue_op (enqueue sync_pods_from_kubernetes key) (store_new key s))) s

  -- The status was skipped before, and what the API server has now differs from it: send it again.
  -- A nil status from the provider would be dereferenced.
  unfoldable pub resend :
      Str → Pod → ℕ → KnownPod → Option Pod → State W → Result (Unit {0}) × State W
  unfolding write queue_op
  resend key new_pod p k none s = (panic, s)
  resend key new_pod p k (some received) s =
      if not (cmp.equal_status new_pod.status received.status)
      then (
        ok tt,
        write p (skipped sv false k) (queue_op (enqueue sync_pod_status_from_provider key) s),
      )
      else (ok tt, s)

  unfoldable pub enqueue_changed :
      Str → Pod → Pod → Result (Unit {0}) × State W → Result (Unit {0}) × State W
  unfolding queue_op pod_should_enqueue
  enqueue_changed key old_pod new_pod (ok u, s) = (
    ok u,
    if pod_should_enqueue cmp old_pod new_pod
        then queue_op (enqueue sync_pods_from_kubernetes key) s
        else s,
  )
  enqueue_changed key old_pod new_pod (err e, s) = (err e, s)
  enqueue_changed key old_pod new_pod (panic, s) = (panic, s)

  -- A pod that is not known is a panic of the code.
  unfoldable pub update_loaded :
      Str → Pod → Pod → Option (ℕ × Option KnownPod) → State W → Result (Unit {0}) × State W
  unfolding resend enqueue_changed
  update_loaded key old_pod new_pod none s = (panic, s)
  update_loaded key old_pod new_pod (some (p, none)) s = (panic, s)
  update_loaded key old_pod new_pod (some (p, some k)) s = enqueue_changed key old_pod new_pod (
      if k.last_pod_status_update_skipped
      then resend key new_pod p k k.last_pod_status_received_from_provider s
      else (ok tt, s))

  unfoldable pub update_func : Pod → Pod → State W → Result (Unit {0}) × State W
  unfolding update_loaded load
  update_func old_pod new_pod s =
      by_key (meta_namespace_key new_pod)
        (λ key s. update_loaded key old_pod new_pod (load key s) s) s

  unfoldable pub delete_func : Pod → State W → Result (Unit {0}) × State W
  unfolding queue_op delete
  delete_func pod s =
      by_key (deletion_handling_meta_namespace_key pod)
        (λ key s. (
          ok tt,
          queue_op (forget delete_pods_from_kubernetes key) (
              queue_op (enqueue sync_pods_from_kubernetes key)
                (record s { known_pods = delete key s.known_pods })),
        ))
        s
