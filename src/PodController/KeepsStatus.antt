-- ===== src/PodController/KeepsStatus.antt =====
-- The handlers of the statuses keep the known pods sound.
use native_kubelet.Base.{ℕ, Str, true, false, Option, none, some, ◌≡◌, refl, arith}
use native_kubelet.Result.{Result, ok, err, panic}
use native_kubelet.Errdefs.{Error}
use native_kubelet.Kube.{Pod}
use native_kubelet.PodController.State.{
  KnownPod, Services, State, enqueue, sync_pod_status_from_provider,
}
use native_kubelet.PodController.Status.{
  delete_evicted, send_status, compare_status, with_received, with_uid, update_known,
  update_pod_status, sync_pod_status_from_provider_handler, api_result, status_listed, status_split,
  skipped, receive, same_pod, after_poll, Polled, found, waiting, failed_poll,
}
use native_kubelet.PodController.Invariant.{
  SkipsAfterStatus, IsSound, write-IsSound, queue_op-IsSound, world-IsSound, if-IsSound,
  if_state-IsSound,
}

module _ {W : Type 0} (sv : Services W) where
  api-IsSound :
      (f : Str) (r : W × Option Error) (s : State W) → IsSound s → IsSound (api_result sv f r s).1
  unfolding api_result
  api-IsSound f (w, none) s h = world-IsSound w h
  api-IsSound f (w, some e) s h = world-IsSound w h

  evicted-IsSound : (k p : Pod) (s : State W) → IsSound s → IsSound (delete_evicted sv k p s).1
  unfolding delete_evicted
  evicted-IsSound k p s h = search (if-IsSound, api-IsSound)

  send-IsSound :
      (p : Pod) (r : Result (Unit {0}) × State W) → IsSound r.1 → IsSound (send_status sv p r).1
  unfolding send_status
  send-IsSound p (ok u, s) h = search api-IsSound
  send-IsSound p (err e, s) h = h
  send-IsSound p (panic, s) h = h

  -- The received status is there when the entry is marked as skipped.
  compare-IsSound :
      (k8s : Pod) (p : ℕ) (k : KnownPod) (q received : Pod) (s : State W)
      → k.last_pod_status_received_from_provider ≡ some received
      → IsSound s
      → IsSound (compare_status sv k8s p k q s).1
  unfolding compare_status
  compare-IsSound k8s p k q received s e h =
      let a : SkipsAfterStatus (skipped sv true k) = λ _. ground arith in
      let b : SkipsAfterStatus (skipped sv false k) = λ _. ground arith in
      let x = write-IsSound p (skipped sv true k) a h in
      let y = write-IsSound p (skipped sv false k) b h in
      search (if-IsSound, send-IsSound, evicted-IsSound, x, y)

  received-IsSound :
      (k8s : Pod) (p : ℕ) (k : KnownPod) (r : Option Pod) (s : State W)
      → k.last_pod_status_received_from_provider ≡ r
      → IsSound s
      → IsSound (with_received sv k8s p k r s).1
  unfolding with_received
  received-IsSound k8s p k none s e h = h
  received-IsSound k8s p k (some q) s e h = compare-IsSound k8s p k (with_uid sv k8s q) q s e h

  status_known-IsSound :
      (k8s : Pod) (k : Option (ℕ × Option KnownPod)) (s : State W)
      → IsSound s
      → IsSound (update_known sv k8s k s).1
  unfolding update_known
  status_known-IsSound k8s none s h = h
  status_known-IsSound k8s (some (p, none)) s h = h
  status_known-IsSound k8s (some (p, some k)) s h = received-IsSound k8s p k _ s refl h

  pub update_status-IsSound :
      (pod : Pod) (key : Str) (s : State W) → IsSound s → IsSound (update_pod_status sv pod key s).1
  unfolding update_pod_status
  update_status-IsSound pod key s h = search (if-IsSound, status_known-IsSound)

  pub status_handler-IsSound :
      (key : Str) (s : State W)
      → IsSound s
      → IsSound (sync_pod_status_from_provider_handler sv key s).1
  unfolding sync_pod_status_from_provider_handler
  status_handler-IsSound key s h = split (sv.split_meta_namespace_key key)
    where
      go : (r : Result Pod) → IsSound (status_listed sv key r s).1
      go (ok pod) = update_status-IsSound pod key s h
      go (err e) = h
      go panic = h

      split : (r : Result (Str × Str)) → IsSound (status_split sv key r s).1
      split (ok (ns, name)) = go (sv.lister_get s.world ns name)
      split (err e) = h
      split panic = h

  pub after_poll-IsSound :
      (pod : Pod) (key : Str) (r : Polled sv × State W)
      → IsSound r.1
      → IsSound (after_poll sv pod key r)
  unfolding after_poll
  after_poll-IsSound pod key (found p (some k), s) h =
      let w = write-IsSound p (receive sv pod k) (λ _. refl) h in
      if_state-IsSound (same_pod sv k.last_pod_status_received_from_provider pod) s _ h
        (queue_op-IsSound (enqueue sync_pod_status_from_provider key) w)
  after_poll-IsSound pod key (found p none, s) h = h
  after_poll-IsSound pod key (waiting, s) h = h
  after_poll-IsSound pod key (failed_poll, s) h = h
