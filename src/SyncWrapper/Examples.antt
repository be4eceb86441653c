-- ===== src/SyncWrapper/Examples.antt =====
-- A provider without statuses, and the theorems of the modules beside at it.
use native_kubelet.Base.{
  codes, lookup, true, false, if◌then◌else◌, none, some, List, [], ◌∷◌, ◌++◌, ◌≡◌, refl,
}
use native_kubelet.Result.{ok}
use native_kubelet.Errdefs.{not_found}
use native_kubelet.Kube.{Pod, succeeded}
use native_kubelet.Samples.{pod}
use native_kubelet.PodController.Compare.{should_skip_pod_status_update, is_running}
use native_kubelet.SyncWrapper.{
  Handler, SyncProviderWrapper, terminated_pod, delete_pod, sync_pod_statuses,
}
use native_kubelet.SyncWrapper.Cache.{delete_pod_accepted}
use native_kubelet.SyncWrapper.Causes.{Notifies, IsDue, sync_pod_statuses-Notifies}

-- The provider deletes a pod as long as it has one.
abbrev handler : Handler (List Pod)
handler = record {
  delete_pod = λ w p. elim w [ [] ↦ ([], some (not_found (codes "pod"))) | q ∷ w' ↦ (w', none) ];
  get_pod_status = λ w namespace name. (none, none);
  list = λ w. ok (pod ∷ []);
  meta_namespace_key = λ p. ok p.metadata.name;
  now = λ w. 1000;
}

abbrev wrapper : List Pod → SyncProviderWrapper (List Pod)
wrapper w = record { world = w; has_notify = true; notified = []; deleted_pods = [] }

delete_pod_accepted_example :
    let (r, q) = delete_pod handler pod (wrapper (pod ∷ [])) in
    let t = terminated_pod 1000 pod in
    (r ≡ ok tt)
    × (q.world ≡ [])
    × (lookup (codes "web-0") q.deleted_pods ≡ some pod)
    × (q.notified ≡ (if should_skip_pod_status_update pod then [] else [] ++ t ∷ []))
    × (t.status.phase ≡ succeeded)
    × (is_running t.status ≡ false)
    × (t.metadata ≡ pod.metadata)
    × (t.spec ≡ pod.spec)
delete_pod_accepted_example =
    delete_pod_accepted handler pod (codes "web-0") [] (wrapper (pod ∷ [])) refl refl refl

sync_pod_statuses-Notifies_example :
    Notifies handler
      (IsDue handler (pod ∷ []) [] [])
      (wrapper [])
      (sync_pod_statuses handler (wrapper [])).1
sync_pod_statuses-Notifies_example = sync_pod_statuses-Notifies handler (pod ∷ []) (wrapper []) refl
