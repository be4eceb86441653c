-- ===== src/SyncWrapper.antt =====
-- node/sync.go: the wrapper that polls a provider for the statuses of its pods. The provider, the
-- lister, the key function and the clock are parameters; a time is a number of seconds.
use native_kubelet.Base.{
  ℕ, ◌+◌, leb, ℤ, pos, negsuc, Str, codes, Dict, lookup, insert, delete, Bool, true, false, not,
  ◌&&◌, if◌then◌else◌, is_some, Option, none, some, List, [], ◌∷◌, ◌++◌,
}
use native_kubelet.Result.{Result, ok, err, panic}
use native_kubelet.Errdefs.{Error, is_not_found_error}
use native_kubelet.Kube.{
  Pod, PodStatus, ContainerStatus, ContainerState, Terminated, PodPhase, succeeded, failed, running,
  unset, pending, unknown,
}
use native_kubelet.PodController.Compare.{should_skip_pod_status_update}
pub mod Cache
pub mod Causes
mod Examples

pub record Handler (W : Type 0) : Type 0 where
  pub delete_pod : W → Pod → W × Option Error
  pub get_pod_status : W → Str → Str → Option PodStatus × Option Error
  pub list : W → Result (List Pod)
  pub meta_namespace_key : Pod → Result Str
  pub now : W → ℕ

-- The wrapper: whether `notify` is set, the pods that it was called with, and the deletion cache.
pub record SyncProviderWrapper (W : Type 0) : Type 0 where
  pub world : W
  pub has_notify : Bool
  pub notified : List Pod
  pub deleted_pods : Dict Pod

abbrev pub started_at : Option ℕ → ℕ
started_at none = 0
started_at (some t) = t

unfoldable pub terminate : ℕ → ContainerStatus → ContainerStatus
terminate now cs = record cs {
  state = record (cs.state) {
    terminated = some (record {
      exit_code = pos 0;
      reason = codes "Terminated";
      message = codes "Container was terminated. The exit code may not reflect the real exit code";
      started_at = started_at cs.state.running;
      finished_at = now;
      container_id = [];
    });
  };
}

unfoldable pub terminate_all : ℕ → List ContainerStatus → List ContainerStatus
unfolding terminate
terminate_all now [] = []
terminate_all now (cs ∷ css) = terminate now cs ∷ terminate_all now css

-- The pod that DeletePod notifies of.
unfoldable pub terminated_pod : ℕ → Pod → Pod
unfolding terminate_all
terminated_pod now pod = record pod {
  status = record (pod.status) {
    phase = succeeded;
    reason = codes "Terminated";
    container_statuses = terminate_all now pod.status.container_statuses;
  };
}

-- A container that ran has the exit code -137 of one that was not found.
abbrev pub lose_running : ℕ → ContainerStatus → Option ℕ → ContainerStatus
lose_running now c none = c
lose_running now c (some started) = record c {
  state = record (c.state) {
    running = none;
    terminated = some (record {
      exit_code = negsuc 136;
      reason = codes "NotFound";
      message = codes "Container was not found and was likely deleted";
      started_at = started;
      finished_at = now;
      container_id = c.container_id;
    });
  };
}

unfoldable pub lose_all : ℕ → List ContainerStatus → List ContainerStatus
lose_all now [] = []
lose_all now (c ∷ cs) = lose_running now c c.state.running ∷ lose_all now cs

-- The pod that updatePodStatus notifies of when the provider has no status for it.
unfoldable pub lost_pod : ℕ → Pod → Pod
unfolding lose_all
lost_pod now pod = record pod {
  status = record (pod.status) {
    phase = failed;
    reason = codes "NotFound";
    message = codes "The pod status was not found and may have been deleted from the provider";
    container_statuses = lose_all now pod.status.container_statuses;
  };
}

unfoldable pub is_running_phase : PodPhase → Bool
is_running_phase running = true
is_running_phase _ = false

-- What an error result says: nil is no error.
abbrev pub of_error : Option Error → Result (Unit {0})
of_error none = ok tt
of_error (some e) = err e

module _ {W : Type 0} where
  unfoldable pub notify_pods : SyncProviderWrapper W → SyncProviderWrapper W
  notify_pods p = record p { has_notify = true }

  unfoldable pub delete_pod_key : Str → SyncProviderWrapper W → SyncProviderWrapper W
  unfolding delete
  delete_pod_key key p = record p { deleted_pods = delete key p.deleted_pods }

  -- The call of a nil `notify` panics.
  unfoldable pub notify : Pod → SyncProviderWrapper W → Result (Unit {0}) × SyncProviderWrapper W
  notify pod p =
      if p.has_notify then (ok tt, record p { notified = p.notified ++ pod ∷ [] }) else (panic, p)

module _ {W : Type 0} (h : Handler W) where
  abbrev pub after_deletion :
      Pod
      → Str
      → W × Option Error
      → SyncProviderWrapper W
      → Result (Unit {0}) × SyncProviderWrapper W
  after_deletion pod key (w, some e) p = (err e, delete_pod_key key (record p { world = w }))
  after_deletion pod key (w, none) p =
      if should_skip_pod_status_update pod
      then (ok tt, record p { world = w })
      else notify (terminated_pod (h.now w) pod) (record p { world = w })

  abbrev pub delete_with_key :
      Pod → Result Str → SyncProviderWrapper W → Result (Unit {0}) × SyncProviderWrapper W
  delete_with_key pod (ok key) p =
      after_deletion pod key (h.delete_pod p.world pod)
        (record p { deleted_pods = insert key pod p.deleted_pods })
  delete_with_key pod (err e) p = (err e, p)
  delete_with_key pod panic p = (panic, p)

  unfoldable pub delete_pod :
      Pod → SyncProviderWrapper W → Result (Unit {0}) × SyncProviderWrapper W
  unfolding notify delete_pod_key terminated_pod should_skip_pod_status_update insert
  delete_pod pod p = delete_with_key pod (h.meta_namespace_key pod) p

  -- The provider has no status for the pod.
  unfoldable pub without_status :
      Pod
      → Option Error
      → Result Str
      → SyncProviderWrapper W
      → Result (Unit {0}) × SyncProviderWrapper W
  unfolding notify lost_pod is_running_phase lookup
  without_status pod status_err (ok key) p =
      if is_some (lookup key p.deleted_pods)
      then (ok tt, p)
      else if not (is_running_phase pod.status.phase)
          && leb (h.now p.world) (pod.metadata.creation_timestamp + 60)
      then (of_error status_err, p)
      else notify (lost_pod (h.now p.world) pod) p
  without_status pod status_err (err e) p = (err e, p)
  without_status pod status_err panic p = (panic, p)

  unfoldable pub with_answer :
      Pod
      → Option PodStatus × Option Error
      → SyncProviderWrapper W
      → Result (Unit {0}) × SyncProviderWrapper W
  unfolding without_status notify is_not_found_error
  with_answer pod (none, some e) p =
      if not (is_not_found_error e)
      then (err e, p)
      else without_status pod (some e) (h.meta_namespace_key pod) p
  with_answer pod (none, none) p = without_status pod none (h.meta_namespace_key pod) p
  with_answer pod (some status, some e) p =
      if not (is_not_found_error e) then (err e, p) else notify (record pod { status = status }) p
  with_answer pod (some status, none) p = notify (record pod { status = status }) p

  unfoldable pub update_pod_status :
      Pod → SyncProviderWrapper W → Result (Unit {0}) × SyncProviderWrapper W
  unfolding with_answer
  update_pod_status pod p =
      with_answer pod (h.get_pod_status p.world pod.metadata.namespace pod.metadata.name) p

  -- An error of one pod is logged, a panic ends the loop.
  abbrev pub go_on :
      (SyncProviderWrapper W → Result (Unit {0}) × SyncProviderWrapper W)
      → Result (Unit {0}) × SyncProviderWrapper W
      → Result (Unit {0}) × SyncProviderWrapper W
  go_on rest (ok u, p) = rest p
  go_on rest (err e, p) = rest p
  go_on rest (panic, p) = (panic, p)

  unfoldable pub sync_loop :
      List Pod → SyncProviderWrapper W → Result (Unit {0}) × SyncProviderWrapper W
  unfolding update_pod_status should_skip_pod_status_update
  sync_loop [] p = (ok tt, p)
  sync_loop (pod ∷ pods) p =
      let rest = sync_loop pods in
      if should_skip_pod_status_update pod then rest p else go_on rest (update_pod_status pod p)

  abbrev pub sync_listed :
      Result (List Pod) → SyncProviderWrapper W → Result (Unit {0}) × SyncProviderWrapper W
  sync_listed (ok pods) p = sync_loop pods p
  sync_listed (err e) p = (ok tt, p)
  sync_listed panic p = (panic, p)

  unfoldable pub sync_pod_statuses :
      SyncProviderWrapper W → Result (Unit {0}) × SyncProviderWrapper W
  unfolding sync_loop
  sync_pod_statuses p = sync_listed (h.list p.world) p
