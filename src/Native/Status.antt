-- ===== src/Native/Status.antt =====
-- native/pod.go: the handlers of PodEventHandler, which write the status of a pod. An index that is
-- out of range is a panic. Times are parameters of the events, and a pid is its decimal text.
use native_kubelet.Base.{
  ℕ, ◌+◌, ◌==◌, ltb, ℤ, pos, negsuc, zero, suc, Str, length, get_elem?, set, Bool, true, false,
  if◌then◌else◌, Option, none, some, List, [], ◌∷◌, ◌++◌,
}
use native_kubelet.Result.{Result, ok, err, panic}
use native_kubelet.Errdefs.{Error}
use native_kubelet.Kube.{
  Container, Pod, ContainerStatus, ContainerState, Terminated, running, succeeded, failed,
  pod_initialized, pod_ready,
}

abbrev pub empty_state : ContainerState
empty_state = record { waiting = none; running = none; terminated = none }

-- The status of a container before its first run.
unfoldable pub initial_status : Container → ContainerStatus
initial_status c = record {
  name = c.name;
  state = empty_state;
  last_termination_state = empty_state;
  ready = false;
  restart_count = negsuc 0;
  image = c.image;
  image_id = c.image;
  container_id = [];
  started = some false;
}

unfoldable pub initial_statuses : List Container → List ContainerStatus
unfolding initial_status
initial_statuses [] = []
initial_statuses (c ∷ cs) = initial_status c ∷ initial_statuses cs

unfoldable pub on_pod_start : Str → Str → ℕ → Pod → Pod
unfolding initial_statuses
on_pod_start qos_guaranteed host_ip t pod = record pod {
  status = record {
    phase = running;
    reason = [];
    message = [];
    host_ip = host_ip;
    pod_ip = host_ip;
    pod_ips = host_ip ∷ [];
    start_time = some t;
    conditions = [];
    init_container_statuses = initial_statuses pod.spec.init_containers;
    container_statuses = initial_statuses pod.spec.containers;
    qos_class = qos_guaranteed;
  };
}

-- `n + 1` of an int32
unfoldable pub increment : ℤ → ℤ
increment (pos n) = if n == 2147483647 then negsuc 2147483647 else pos (n + 1)
increment (negsuc zero) = pos 0
increment (negsuc (suc n)) = negsuc n

abbrev pub running_since : ℕ → ContainerState
running_since t = record { waiting = none; running = some t; terminated = none }

unfoldable pub run_status : ℕ → Str → ContainerStatus → ContainerStatus
unfolding increment
run_status t pid cs = record cs {
  restart_count = increment cs.restart_count;
  state = running_since t;
  last_termination_state = running_since t;
  ready = true;
  container_id = pid;
  started = some true;
}

-- `statuses[write] = f(statuses[read])`
unfoldable pub update_at :
    ℕ
    → ℕ
    → (ContainerStatus → ContainerStatus)
    → List ContainerStatus
    → Result (List ContainerStatus)
update_at read write f statuses = elim (get_elem? statuses read) [
  | none ↦ panic
  | some cs ↦ if ltb write (length statuses) then ok (set statuses write (f cs)) else panic
]

abbrev pub with_init_statuses : Pod → Result (List ContainerStatus) → Result Pod
with_init_statuses pod (ok css) =
    ok (record pod { status = record (pod.status) { init_container_statuses = css } })
with_init_statuses pod (err e) = err e
with_init_statuses pod panic = panic

abbrev pub with_statuses : Pod → Result (List ContainerStatus) → Result Pod
with_statuses pod (ok css) =
    ok (record pod { status = record (pod.status) { container_statuses = css } })
with_statuses pod (err e) = err e
with_statuses pod panic = panic

-- The last container of the chain makes the pod ready.
abbrev pub add_ready : ℕ → Result Pod → Result Pod
add_ready index (ok pod) = ok (
    if index + 1 == length pod.spec.containers + length pod.spec.init_containers
    then record pod {
      status = record (pod.status) { conditions = pod.status.conditions ++ pod_ready ∷ [] };
    }
    else pod)
add_ready index (err e) = err e
add_ready index panic = panic

-- In the branch of the containers the index read is that of the event less `initLen`: 0 when the two
-- are equal, and negative, which is out of range, when the event is of an init container.
unfoldable pub on_container_run : ℕ → Str → ℕ → Pod → Result Pod
unfolding update_at run_status
on_container_run index pid t pod =
    let init_len = length pod.spec.init_containers in
    add_ready index (
      if ltb init_len index
      then with_init_statuses pod
          (update_at index index (run_status t pid) pod.status.init_container_statuses)
      else if ltb index init_len
      then panic
      else with_statuses pod (update_at 0 index (run_status t pid) pod.status.container_statuses))

abbrev pub started_at : Option ℕ → ℕ
started_at none = 0
started_at (some t) = t

-- The exit code of the process state, -1 without one; it fits an int32.
abbrev pub exit_code : Option ℤ → ℤ
exit_code none = negsuc 0
exit_code (some code) = code

abbrev pub termination : Option ℤ → Str → Str → ℕ → ContainerStatus → Terminated
termination state msg pid t cs = record {
  exit_code = exit_code state;
  reason = [];
  message = msg;
  started_at = started_at cs.state.running;
  finished_at = t;
  container_id = pid;
}

-- The same record goes into both states.
unfoldable pub finish_status : Option ℤ → Str → Str → ℕ → ContainerStatus → ContainerStatus
finish_status state msg pid t cs = record cs {
  state = record (cs.state) { terminated = some (termination state msg pid t cs) };
  last_termination_state = record (cs.last_termination_state) {
    terminated = some (termination state msg pid t cs);
  };
}

unfoldable pub is_zero : ℤ → Bool
is_zero (pos n) = n == 0
is_zero (negsuc n) = false

unfoldable pub ended_well : Option Terminated → Bool
unfolding is_zero
ended_well none = true
ended_well (some c) = is_zero c.exit_code

-- No status has an exit code other than 0; one that is not terminated is passed over.
unfoldable pub all_ended_well : List ContainerStatus → Bool
unfolding ended_well
all_ended_well [] = true
all_ended_well (s ∷ ss) =
    let rest = all_ended_well ss in
    if ended_well s.last_termination_state.terminated then rest else false

unfoldable pub set_phase : ℤ → Pod → Pod
unfolding all_ended_well is_zero
set_phase code pod =
    if is_zero code
    then if all_ended_well pod.status.init_container_statuses
      then if all_ended_well pod.status.container_statuses
        then record pod { status = record (pod.status) { phase = succeeded } }
        else pod
      else pod
    else pod

unfoldable pub then_set_phase : ℤ → Result Pod → Result Pod
unfolding set_phase
then_set_phase code (ok pod) = ok (set_phase code pod)
then_set_phase code (err e) = err e
then_set_phase code panic = panic

abbrev pub initialized : Pod → Pod
initialized pod = record pod { status = record (pod.status) { conditions = pod_initialized ∷ [] } }

unfoldable pub on_finish : ℕ → Option ℤ → Str → Str → ℕ → Pod → Result Pod
unfolding update_at finish_status then_set_phase
on_finish index state msg pid t pod =
    let init_len = length pod.spec.init_containers in
    then_set_phase (exit_code state) (
      if ltb init_len index
      then with_init_statuses pod
          (update_at index index (finish_status state msg pid t) pod.status.init_container_statuses)
      else if ltb index init_len
      then panic
      else with_statuses (initialized pod)
          (update_at 0 0 (finish_status state msg pid t) pod.status.container_statuses))

unfoldable pub on_download_resource : Option Error → Pod → Pod
on_download_resource none pod = pod
on_download_resource (some e) pod = record pod { status = record (pod.status) { phase = failed } }

-- The events, in the order of the cases of `start`.
pub data ProcessEvent : Type 0 where
  pod_process_start : ℕ → ProcessEvent
  container_process_run : (index : ℕ) → (pid : Str) → (t : ℕ) → ProcessEvent
  container_process_finish :
      (index : ℕ) → (state : Option ℤ) → (msg pid : Str) → (t : ℕ) → ProcessEvent
  download_resource : Option Error → ProcessEvent

unfoldable pub handle : Str → Str → ProcessEvent → Pod → Result Pod
unfolding on_pod_start on_container_run on_finish on_download_resource
handle qos host_ip (pod_process_start t) pod = ok (on_pod_start qos host_ip t pod)
handle qos host_ip (container_process_run index pid t) pod = on_container_run index pid t pod
handle qos host_ip (container_process_finish index state msg pid t) pod =
    on_finish index state msg pid t pod
handle qos host_ip (download_resource e) pod = ok (on_download_resource e pod)
