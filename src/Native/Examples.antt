-- ===== src/Native/Examples.antt =====
-- A pod with one container, and the theorems of the modules beside at it.
use native_kubelet.Base.{
  ℕ, ◌+◌, suc, ◌↔◌, ◌==◌, ltb, pos, codes, length, true, false, not, ◌&&◌, if◌then◌else◌, none,
  some, [], ◌∷◌, ◌≡◌, refl, arith,
}
use native_kubelet.Result.{ok, Holds}
use native_kubelet.Kube.{Pod, ContainerStatus, running, succeeded}
use native_kubelet.Samples.{pod, web}
use native_kubelet.Podutils.Total.{panics}
use native_kubelet.Native.Status.{on_pod_start, on_container_run, container_process_run, handle}
use native_kubelet.Native.Sized.{IsSized, on_pod_start-IsSized, on_container_run-panics}
use native_kubelet.Native.Keeps.{IsSizedLike, handle-IsSizedLike}
use native_kubelet.Native.Process.{
  PodProcess, new_process, Paths, convert_pod2process, World, found, key_not_found, run, finished,
  restarts,
}
use native_kubelet.Native.Chain.{IsChainOf, convert_pod2process-IsChainOf}
use native_kubelet.Native.Trace.{Trace}
use native_kubelet.Native.Loop.{IsSteady, run_finishes, ran_indices, range}
use native_kubelet.Native.Restart.{ShouldRestart, restarts_iff}
use native_kubelet.Native.Attempts.{Attempt, attempts, with_one, any_zero, attempts_counted}

abbrev started : Pod
started = on_pod_start (codes "Guaranteed") (codes "10.0.0.7") 5 pod

started-IsSized : IsSized started
started-IsSized = on_pod_start-IsSized (codes "Guaranteed") (codes "10.0.0.7") 5 pod

on_container_run-panics_example :
    panics (on_container_run 1 (codes "42") 6 started)
    ≡ not (1 == length started.spec.init_containers && ltb 1 (length started.spec.containers))
on_container_run-panics_example = on_container_run-panics 1 (codes "42") 6 started started-IsSized

handle-IsSizedLike_example : Holds (IsSizedLike started) (
    handle (codes "Guaranteed") (codes "10.0.0.7") (container_process_run 0 (codes "42") 6) started)
handle-IsSizedLike_example =
    handle-IsSizedLike (codes "Guaranteed") (codes "10.0.0.7")
      (container_process_run 0 (codes "42") 6) started started-IsSized

abbrev crash : Attempt
crash = record { code = pos 1; msg = []; pid = codes "42"; start = 6; finish = 7 }

abbrev success : Attempt
success = record { code = pos 0; msg = []; pid = codes "43"; start = 8; finish = 9 }

attempts_counted_example :
    (cs : ContainerStatus) × (q : Pod) × (attempts
        (crash ∷ success ∷ [])
        (on_pod_start (codes "Guaranteed") (codes "10.0.0.7") 5 (with_one web pod))
      ≡ ok q)
    × (q.status.container_statuses ≡ cs ∷ [])
    × (cs.restart_count ≡ pos (length (success ∷ [])))
    × (q.status.phase ≡ (if any_zero (crash ∷ success ∷ []) then succeeded else running))
attempts_counted_example =
    attempts_counted (codes "Guaranteed") (codes "10.0.0.7") 5 web pod crash (success ∷ [])
      (omega arith)

abbrev paths : Paths
paths = record { filenamify = λ s. ok s; join = λ ss. codes "/" }

convert_pod2process-IsChainOf_example :
    Holds (IsChainOf pod) (convert_pod2process paths (codes "/work") pod)
convert_pod2process-IsChainOf_example = convert_pod2process-IsChainOf paths (codes "/work") pod

abbrev chain_process : PodProcess
chain_process = record {
  workdir = codes "/work";
  pod_name = codes "web-0";
  namespace = codes "default";
  process_chain = new_process pod web [] true ∷ new_process pod web [] false ∷ [];
  pod = pod;
  index = 0;
}

-- A world in which everything succeeds, and one whose database is empty.
abbrev steady : World ℕ
steady = record {
  is_done = λ w. false;
  db_get = λ w key. found chain_process;
  run_container = λ w cp i. (suc w, none);
}

abbrev deleted : World ℕ
deleted = record {
  is_done = λ w. false;
  db_get = λ w key. key_not_found;
  run_container = λ w cp i. (suc w, none);
}

steady-IsSteady : IsSteady steady chain_process
steady-IsSteady = record {
  going = λ w. refl;
  known = λ w. chain_process;
  has = λ w. refl;
  unmarked = λ w. refl;
  succeeds = λ w cp i. refl;
}

run_finishes_example :
    let r = run steady 3 chain_process 0 in
    (r.0 ≡ finished)
    × (count : ℕ) × (ran_indices r.1 ≡ range 0 count)
    × (0 + count ≡ 2)
    × Trace steady chain_process 0 0 r.1
run_finishes_example = run_finishes steady chain_process 0 steady-IsSteady (omega arith)

restarts_iff_example :
    (restarts chain_process
        (new_process pod web [] false)
        (record { error = none; success = some true })
        (found chain_process)
        (ok pod)
      ≡ true)
    ↔ ShouldRestart chain_process
        (new_process pod web [] false)
        (record { error = none; success = some true })
        (found chain_process)
        (ok pod)
restarts_iff_example =
    restarts_iff chain_process (new_process pod web [] false)
      (record { error = none; success = some true }) (found chain_process) (ok pod)
