-- ===== src/Native/Process.antt =====
-- native/process_manager.go: a pod as a chain of processes, the loop that runs the chain, and the
-- decision to restart a container. The database of processes, the run of one container, the API
-- server's cache and the functions on paths are parameters.
use native_kubelet.Base.{
  ℕ, ◌+◌, ◌==◌, zero, suc, Str, str_eq, codes, get_elem?, Bool, true, false, not, ◌&&◌,
  if◌then◌else◌, is_some, Option, none, some, List, [], ◌∷◌, ◌++◌,
}
use native_kubelet.Result.{Result, ok, err, panic, ◌>>=◌}
use native_kubelet.Errdefs.{Error}
use native_kubelet.Kube.{Container, Pod, RestartPolicy, always, on_failure, never}

pub record ContainerProcess : Type 0 where
  pub workdir : Str
  pub pod_name : Str
  pub namespace : Str
  pub container : Container
  pub is_sync : Bool
  pub restart_policy : RestartPolicy
  pub pid : ℕ
  pub image_pulled : Bool
  pub image_unzipped : Bool
  pub config_map_download : Bool
  pub secret_download : Bool

pub record PodProcess : Type 0 where
  pub workdir : Str
  pub pod_name : Str
  pub namespace : Str
  pub process_chain : List ContainerProcess
  pub pod : Pod
  pub index : ℕ

unfoldable pub new_process : Pod → Container → Str → Bool → ContainerProcess
new_process pod c workdir sync = record {
  workdir = workdir;
  pod_name = pod.metadata.name;
  namespace = pod.metadata.namespace;
  container = c;
  is_sync = sync;
  restart_policy = pod.spec.restart_policy;
  pid = 0;
  image_pulled = false;
  image_unzipped = false;
  config_map_download = false;
  secret_download = false;
}

-- filenamify.Filenamify with the replacement "-", and filepath.Join.
pub record Paths : Type 0 where
  pub filenamify : Str → Result Str
  pub join : List Str → Str

module _ (paths : Paths) where
  open paths use {filenamify, join}

  unfoldable pub get_process_work_dir : Str → Pod → Result Str
  get_process_work_dir workdir pod = do
    ns ← filenamify pod.metadata.namespace
    name ← filenamify pod.metadata.name
    ok (join (workdir ∷ ns ∷ name ∷ []))

  unfoldable pub get_container_process_work_dir : Str → Pod → Container → Result Str
  unfolding get_process_work_dir
  get_container_process_work_dir workdir pod c = do
    dir ← get_process_work_dir workdir pod
    s ← filenamify c.name
    ok (join (dir ∷ s ∷ []))

  -- One of the two loops that fill the chain.
  unfoldable pub convert_containers :
      Str → Pod → Bool → List Container → Result (List ContainerProcess)
  unfolding get_container_process_work_dir new_process
  convert_containers workdir pod sync [] = ok []
  convert_containers workdir pod sync (c ∷ cs) = do
    dir ← get_container_process_work_dir workdir pod c
    rest ← convert_containers workdir pod sync cs
    ok (new_process pod c dir sync ∷ rest)

  unfoldable pub convert_pod2process : Str → Pod → Result PodProcess
  unfolding convert_containers get_process_work_dir
  convert_pod2process workdir pod = do
    dir ← get_process_work_dir workdir pod
    init_chain ← convert_containers workdir pod true pod.spec.init_containers
    chain ← convert_containers workdir pod false pod.spec.containers
    ok (record {
      workdir = dir;
      pod_name = pod.metadata.name;
      namespace = pod.metadata.namespace;
      process_chain = init_chain ++ chain;
      pod = pod;
      index = 0;
    })

-- What the database answers for a key: a process, ErrKeyNotFound, or another error, of the decoding
-- too.
pub data Found : Type 0 where
  found : PodProcess → Found
  key_not_found : Found
  failed : Error → Found

-- A missing key is no error: the pod is then nil.
unfoldable pub get_pod : Found → Result (Option Pod)
get_pod (found p) = ok (some p.pod)
get_pod key_not_found = ok none
get_pod (failed e) = err e

unfoldable pub get_pod_key : Str → Str → Str
get_pod_key ns pod_name = codes "pod://" ++ ns ++ codes ":" ++ pod_name

-- The world of the loop: its context, the database, and ContainerProcess.run.
pub record World (W : Type 0) : Type 0 where
  pub is_done : W → Bool
  pub db_get : W → Str → Found
  pub run_container : W → ContainerProcess → ℕ → W × Option Error

-- What the loop did: it sent PodProcessStart, or a container ran or failed to.
pub data Did : Type 0 where
  sent_start : Did
  ran run_failed : ℕ → Did

-- How the loop ended: the chain ran to its end, it stopped, it panicked, or the fuel ran out.
pub data End : Type 0 where
  finished stopped panicked out_of_fuel : End

abbrev pub also : Did → End × List Did → End × List Did
also d (e, ds) = (e, d ∷ ds)

abbrev pub also_if : Bool → Did → End × List Did → End × List Did
also_if b d r = if b then also d r else r

module _ {W : Type 0} (world : World W) where
  open world use {is_done, db_get, run_container}

  -- After a failure the loop sleeps and tries the same container again.
  abbrev pub after_run : ℕ → (W → ℕ → End × List Did) → W × Option Error → End × List Did
  after_run index again (w, some e) = also (run_failed index) (again w index)
  after_run index again (w, none) = also (ran index) (again w (index + 1))

  -- The nil pod of a missing key is dereferenced.
  abbrev pub with_pod :
      W → ℕ → ContainerProcess → (W → ℕ → End × List Did) → Result (Option Pod) → End × List Did
  with_pod w index cp again (err e) = (stopped, [])
  with_pod w index cp again panic = (panicked, [])
  with_pod w index cp again (ok none) = (panicked, [])
  with_pod w index cp again (ok (some pod)) =
      if is_some pod.metadata.deletion_timestamp
      then (stopped, [])
      else also_if (index == 0) sent_start (after_run index again (run_container w cp index))

  abbrev pub at_index :
      W → ℕ → Option ContainerProcess → (W → ℕ → End × List Did) → Str → End × List Did
  at_index w index none again key = (finished, [])
  at_index w index (some cp) again key = with_pod w index cp again (get_pod (db_get w key))

  -- The code counts `p.Index` up together with `index`, from the same number, for stop to read while the
  -- loop runs; the model has the one number.
  unfoldable pub run_loop : ℕ → PodProcess → W → ℕ → End × List Did
  unfolding get_pod get_pod_key
  run_loop zero p w index = (out_of_fuel, [])
  run_loop (suc fuel) p w index =
      let again = run_loop fuel p in
      if is_done w
      then (stopped, [])
      else at_index w index (get_elem? p.process_chain index) again
          (get_pod_key p.namespace p.pod_name)

  -- PodProcess.run
  unfoldable pub run : ℕ → PodProcess → W → End × List Did
  unfolding run_loop
  run fuel p w = run_loop fuel p w p.index

-- The end of a container: its error, and whether its process state says success, if there is one.
pub record Finish : Type 0 where
  pub error : Option Error
  pub success : Option Bool

abbrev pub is_success : Option Bool → Bool
is_success none = false
is_success (some b) = b

-- The `switch` over the restart policy of the pod.
unfoldable pub policy_restarts : RestartPolicy → Finish → Bool
policy_restarts always f = true
policy_restarts on_failure f = not (not (is_some f.error) && is_success f.success)
policy_restarts never f = false

abbrev pub listed_restarts : RestartPolicy → Finish → Pod → Result Pod → Bool
listed_restarts policy f pod (ok listed) =
    if str_eq pod.metadata.uid listed.metadata.uid then policy_restarts policy f else false
listed_restarts policy f pod (err e) = false
listed_restarts policy f pod panic = false

abbrev pub known_restarts : RestartPolicy → Finish → Result (Option Pod) → Result Pod → Bool
known_restarts policy f (ok (some pod)) listed =
    if is_some pod.metadata.deletion_timestamp then false else listed_restarts policy f pod listed
known_restarts policy f (ok none) listed = false
known_restarts policy f (err e) listed = false
known_restarts policy f panic listed = false

-- Whether startContainerDaemon runs the container again: `listed` is the answer of the API server's
-- cache for the pod.
unfoldable pub restarts : PodProcess → ContainerProcess → Finish → Found → Result Pod → Bool
unfolding policy_restarts get_pod
restarts p cp f db listed =
    if cp.is_sync then false else known_restarts p.pod.spec.restart_policy f (get_pod db) listed
