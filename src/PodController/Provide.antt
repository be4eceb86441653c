-- ===== src/PodController/Provide.antt =====
-- handleProviderError, createOrUpdatePod and deletePod.
use native_kubelet.Base.{Str, codes, not, if◌then◌else◌, Option, none, some, List, [], ◌∷◌, ◌++◌}
use native_kubelet.Result.{Result, ok, err, panic}
use native_kubelet.Errdefs.{Error}
use native_kubelet.Kube.{
  Pod, PodPhase, pending, failed, RestartPolicy, never, Event, warning, normal,
}
use native_kubelet.Podutils.Populate.{populate_environment_variables}
use native_kubelet.PodController.Compare.{pods_equal}
use native_kubelet.PodController.State.{Services, State, store_new, record_event}

abbrev pub pod_status_reason_provider_failed : Str
pod_status_reason_provider_failed = codes "ProviderFailed"

abbrev pub pod_event_create_failed : Str
pod_event_create_failed = codes "ProviderCreateFailed"

abbrev pub pod_event_create_success : Str
pod_event_create_success = codes "ProviderCreateSuccess"

abbrev pub pod_event_delete_failed : Str
pod_event_delete_failed = codes "ProviderDeleteFailed"

abbrev pub pod_event_delete_success : Str
pod_event_delete_success = codes "ProviderDeleteSuccess"

abbrev pub pod_event_update_failed : Str
pod_event_update_failed = codes "ProviderUpdateFailed"

abbrev pub pod_event_update_success : Str
pod_event_update_success = codes "ProviderUpdateSuccess"

abbrev pub failed_phase : RestartPolicy → PodPhase
failed_phase never = failed
failed_phase _ = pending

module _ {W : Type 0} (sv : Services W) where
  open sv use {
    create_pod, update_pod, delete_pod, get_pod, update_status, error_text, meta_namespace_key, cmp,
    cluster,
  }

  -- The pod whose status is sent to the API server after the provider failed.
  unfoldable pub failed_pod : Error → Pod → Pod
  failed_pod orig_err pod = record pod {
    metadata = record (pod.metadata) { resource_version = [] };
    status = record (pod.status) {
      phase = failed_phase pod.spec.restart_policy;
      reason = pod_status_reason_provider_failed;
      message = error_text orig_err;
    };
  }

  -- An error of UpdateStatus is only logged.
  unfoldable pub handle_provider_error : Error → Pod → State W → State W
  unfolding failed_pod
  handle_provider_error orig_err pod s = record s {
    world = (update_status s.world (failed_pod orig_err pod)).0;
  }

  unfoldable pub store_by_key : Result Str → State W → State W
  unfolding store_new
  store_by_key (ok key) s = store_new key s
  store_by_key (err e) s = s
  store_by_key panic s = s

  unfoldable pub after_update : Pod → W × Option Error → State W → Result (Unit {0}) × State W
  unfolding handle_provider_error store_by_key record_event
  after_update pod (w, some orig_err) s = (
    err orig_err,
    record_event warning pod_event_update_failed (error_text orig_err ∷ [])
        (handle_provider_error orig_err pod (record s { world = w })),
  )
  after_update pod (w, none) s = (
    ok tt,
    store_by_key (meta_namespace_key pod)
        (record_event normal pod_event_update_success [] (record s { world = w })),
  )

  unfoldable pub after_create : Pod → W × Option Error → State W → Result (Unit {0}) × State W
  unfolding handle_provider_error record_event
  after_create pod (w, some orig_err) s = (
    err orig_err,
    record_event warning pod_event_create_failed (error_text orig_err ∷ [])
        (handle_provider_error orig_err pod (record s { world = w })),
  )
  after_create pod (w, none) s =
      (ok tt, record_event normal pod_event_create_success [] (record s { world = w }))

  -- With the pod that the provider knows, if any; its error is ignored.
  unfoldable pub provide : Pod → Option Pod → State W → Result (Unit {0}) × State W
  unfolding after_update after_create pods_equal
  provide pod none s = after_create pod (create_pod s.world pod) s
  provide pod (some pod_from_provider) s =
      if not (pods_equal cmp pod_from_provider pod)
      then after_update pod (update_pod s.world pod) s
      else (ok tt, s)

  unfoldable pub populated : Result Pod × List Event → State W → Result (Unit {0}) × State W
  unfolding provide
  populated (ok pod, es) s =
      provide pod (get_pod s.world pod.metadata.namespace pod.metadata.name).0
        (record s { events = s.events ++ es })
  populated (err e, es) s = (err e, record s { events = s.events ++ es })
  populated (panic, es) s = (panic, record s { events = s.events ++ es })

  unfoldable pub create_or_update_pod : Pod → State W → Result (Unit {0}) × State W
  unfolding populated populate_environment_variables
  create_or_update_pod pod s = populated (populate_environment_variables cluster pod) s

  unfoldable pub after_delete : W × Option Error → State W → Option Error × State W
  unfolding record_event
  after_delete (w, some e) s = (
    some e,
    record_event warning pod_event_delete_failed (error_text e ∷ []) (record s { world = w }),
  )
  after_delete (w, none) s =
      (none, record_event normal pod_event_delete_success [] (record s { world = w }))

  -- deletePod
  unfoldable pub delete_in_provider : Pod → State W → Option Error × State W
  unfolding after_delete
  delete_in_provider pod s = after_delete (delete_pod s.world pod) s
