-- ===== src/SyncWrapper/Cache.antt =====
-- DeletePod of the wrapper: the deletion cache and the notification.
use native_kubelet.Base.{
  ℕ, Str, lookup, str_eq, lookup-insert, lookup-insert_self, lookup-delete, lookup-delete_self,
  insert, Bool-cases, true, false, if◌then◌else◌, none, some, List, [], ◌∷◌, ◌++◌, ◌≡◌, refl, inl,
  inr, arith,
}
use native_kubelet.Result.{ok, err}
use native_kubelet.Errdefs.{Error}
use native_kubelet.Kube.{Pod, ContainerStatus, succeeded}
use native_kubelet.PodController.Compare.{
  should_skip_pod_status_update, is_running, running_statuses,
}
use native_kubelet.SyncWrapper.{
  Handler, SyncProviderWrapper, terminate, terminate_all, terminated_pod, notify, delete_pod_key,
  delete_pod,
}

none_runs :
    (now : ℕ) (css : List ContainerStatus) → running_statuses (terminate_all now css) ≡ false
unfolding terminate_all terminate running_statuses
none_runs now [] = refl
none_runs now (cs ∷ css) = ground (arith, none_runs now css)

module _ {W : Type 0} (h : Handler W) where
  -- DeletePod for a pod with a key, when the provider accepts and `notify` is set: the pod is put
  -- in the deletion cache. An unfinished pod is notified of once, as one in the phase Succeeded,
  -- none of whose containers counts as running, with the same metadata and spec; for a finished pod
  -- nothing is notified.
  pub delete_pod_accepted :
      (pod : Pod) (key : Str) (w : W) (p : SyncProviderWrapper W)
      → h.meta_namespace_key pod ≡ ok key
      → h.delete_pod p.world pod ≡ (w, none)
      → p.has_notify ≡ true
      → let (r, q) = delete_pod h pod p in
        let t = terminated_pod (h.now w) pod in
        (r ≡ ok tt)
        × (q.world ≡ w)
        × (lookup key q.deleted_pods ≡ some pod)
        × (q.notified
            ≡ (if should_skip_pod_status_update pod then p.notified else p.notified ++ t ∷ []))
        × (t.status.phase ≡ succeeded)
        × (is_running t.status ≡ false)
        × (t.metadata ≡ pod.metadata)
        × (t.spec ≡ pod.spec)
  unfolding delete_pod notify is_running terminated_pod
  delete_pod_accepted pod key w p k d n = elim (Bool-cases (should_skip_pod_status_update pod)) [
    | inl e ↦
        rw (k, d, e)
          (
            refl,
            refl,
            lookup-insert_self key pod p.deleted_pods,
            refl,
            refl,
            none_runs (h.now w) pod.status.container_statuses,
            refl,
            refl,
          )
    | inr e ↦
        rw (k, d, e, n)
          (
            refl,
            refl,
            lookup-insert_self key pod p.deleted_pods,
            refl,
            refl,
            none_runs (h.now w) pod.status.container_statuses,
            refl,
            refl,
          )
  ]

  -- DeletePod for a pod with a key, when the provider refuses: the error is returned, nothing is
  -- notified, and the deletion cache has no entry for the key and is as before for every other key.
  pub delete_pod_refused :
      (pod : Pod) (key : Str) (e : Error) (w : W) (p : SyncProviderWrapper W)
      → h.meta_namespace_key pod ≡ ok key
      → h.delete_pod p.world pod ≡ (w, some e)
      → let (r, q) = delete_pod h pod p in
        (r ≡ err e)
        × (q.notified ≡ p.notified)
        × (lookup key q.deleted_pods ≡ none)
        × ((other : Str)
            → str_eq key other ≡ false
            → lookup other q.deleted_pods ≡ lookup other p.deleted_pods)
  unfolding delete_pod delete_pod_key
  delete_pod_refused pod key e w p k d =
      rw (k, d)
        (
          refl,
          refl,
          lookup-delete_self key (insert key pod p.deleted_pods),
          λ other n. ground (
            arith,
            n,
            lookup-delete key other (insert key pod p.deleted_pods),
            lookup-insert key other pod p.deleted_pods,
          ),
        )
