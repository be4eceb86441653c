-- ===== src/Native/Manager.antt =====
-- native/process_manager.go: the manager of the processes over its database. The database, the JSON
-- encoding and the signals of the host are parameters. The state has the database, the host, and the
-- processes that were started, each by a goroutine of its own.
use native_kubelet.Base.{
  ℕ, suc, ltb, Str, str_eq, codes, Bool, ◌||◌, if◌then◌else◌, Option, none, some, ◌⊎◌, inl, inr,
  List, [], ◌∷◌, ◌++◌,
}
use native_kubelet.Result.{Result, ok, err, panic}
use native_kubelet.Errdefs.{Error}
use native_kubelet.Kube.{Pod}
use native_kubelet.Native.Process.{
  ContainerProcess, PodProcess, Paths, convert_pod2process, Found, found, key_not_found, failed,
  get_pod_key,
}

-- What the database answers, with its bytes.
pub data Stored (B : Type 0) : Type 0 where
  value : B → Stored B
  missing : Stored B
  broken : Error → Stored B

pub record Database (D B : Type 0) : Type 0 where
  pub get : D → Str → Stored B
  pub put : D → Str → B → D × Option Error
  pub delete : D → Str → D × Option Error
  -- The keys that Scan visits, with a prefix
  pub keys : D → Str → List Str
  -- ErrKeyNotFound
  pub err_key_not_found : Error
  pub encode : PodProcess → Error ⊎ B
  pub decode : B → Error ⊎ PodProcess

pub record Host (W : Type 0) : Type 0 where
  pub find_process : W → ℕ → Option Error
  -- SIGTERM
  pub terminate : W → ℕ → W × Option Error
  -- SIGKILL to the group of the process
  pub kill : W → ℕ → W × Option Error
  -- until the context ends, or so many nanoseconds have passed
  pub wait : W → ℕ → W
  pub error_text : Error → Str

pub record Manager (D W : Type 0) : Type 0 where
  pub db : D
  pub host : W
  pub started : List PodProcess

abbrev pub key_of : PodProcess → Str
key_of p = get_pod_key p.namespace p.pod_name

unfoldable pub is_over : Str → Bool
unfolding str_eq
is_over text =
    str_eq text (codes "os: process already released")
    || str_eq text (codes "os: process not initialized")
    || str_eq text (codes "os: process already finished")

-- getRuningContainerProcess: the processes up to the index.
unfoldable pub get_running_container_process : ℕ → ℕ → List ContainerProcess → List ContainerProcess
get_running_container_process i index [] = []
get_running_container_process i index (cp ∷ cps) =
    let rest = get_running_container_process (suc i) index cps in
    if ltb index i then rest else cp ∷ rest

-- getContainerProcess
unfoldable pub get_container_process : Str → List ContainerProcess → Option ContainerProcess
unfolding str_eq
get_container_process name [] = none
get_container_process name (c ∷ cs) =
    let rest = get_container_process name cs in
    if str_eq c.container.name name then some c else rest

module _ {W : Type 0} (host : Host W) where
  -- An error that says that the process has ended is none.
  abbrev pub unless_over : W × Option Error → W × Option Error
  unless_over (w, none) = (w, none)
  unless_over (w, some e) = if is_over (host.error_text e) then (w, none) else (w, some e)

  abbrev pub after_term : ℕ → ℕ → W × Option Error → W × Option Error
  after_term pid seconds (w, some e) = unless_over (w, some e)
  after_term pid seconds (w, none) = unless_over (host.kill (host.wait w seconds) pid)

  abbrev pub stop_found : ContainerProcess → ℕ → W → Option Error → W × Option Error
  stop_found cp seconds w (some e) = (w, some e)
  stop_found cp seconds w none = after_term cp.pid seconds (host.terminate w cp.pid)

  -- ContainerProcess.stop: the seconds are taken for nanoseconds.
  unfoldable pub stop : ContainerProcess → ℕ → W → W × Option Error
  unfolding is_over
  stop cp seconds w = stop_found cp seconds w (host.find_process w cp.pid)

  -- A nil grace period is dereferenced.
  abbrev pub stop_next :
      (W → W × Result (Unit {0})) → Option ℕ → ContainerProcess → W → W × Result (Unit {0})
  stop_next again none cp w = (w, panic)
  stop_next again (some seconds) cp w = go (stop cp seconds w)
    where
      go : W × Option Error → W × Result (Unit {0})
      go (v, some e) = (v, err e)
      go (v, none) = again v

  unfoldable pub stop_all : Option ℕ → List ContainerProcess → W → W × Result (Unit {0})
  unfolding stop
  stop_all seconds [] w = (w, ok tt)
  stop_all seconds (cp ∷ cps) w = stop_next (stop_all seconds cps) seconds cp w

  -- PodProcess.stop
  unfoldable pub stop_pod : PodProcess → W → W × Result (Unit {0})
  unfolding stop_all get_running_container_process
  stop_pod p w =
      stop_all p.pod.spec.termination_grace_period_seconds
        (get_running_container_process 0 p.index p.process_chain) w

module _ {D B : Type 0} (database : Database D B) where
  abbrev pub decoded : Error ⊎ PodProcess → Found
  decoded (inr p) = found p
  decoded (inl e) = failed e

  abbrev pub found_of : Stored B → Found
  found_of (value bytes) = decoded (database.decode bytes)
  found_of missing = key_not_found
  found_of (broken e) = failed e

  -- What getPod finds for a key.
  unfoldable pub lookup_process : D → Str → Found
  lookup_process d key = found_of (database.get d key)

  -- ProcessManager.Get: a missing key is an error here.
  abbrev pub get_found : Found → Result PodProcess
  get_found (found p) = ok p
  get_found key_not_found = err database.err_key_not_found
  get_found (failed e) = err e

  unfoldable pub get : D → Str → Result PodProcess
  unfolding lookup_process
  get d key = get_found (lookup_process d key)

  abbrev pub result_of : D × Option Error → D × Result (Unit {0})
  result_of (d, none) = (d, ok tt)
  result_of (d, some e) = (d, err e)

  abbrev pub put_bytes : D → Str → Error ⊎ B → D × Result (Unit {0})
  put_bytes d key (inr bytes) = result_of (database.put d key bytes)
  put_bytes d key (inl e) = (d, err e)

  unfoldable pub put : D → PodProcess → D × Result (Unit {0})
  unfolding get_pod_key
  put d p = put_bytes d (key_of p) (database.encode p)

  -- getPods
  abbrev pub and_pod : Result PodProcess → Result (List Pod) → Result (List Pod)
  and_pod (ok p) (ok pods) = ok (p.pod ∷ pods)
  and_pod (ok p) (err e) = err e
  and_pod (ok p) panic = panic
  and_pod (err e) rest = err e
  and_pod panic rest = panic

  unfoldable pub get_pods_of : D → List Str → Result (List Pod)
  unfolding get
  get_pods_of d [] = ok []
  get_pods_of d (key ∷ keys) = and_pod (get d key) (get_pods_of d keys)

  unfoldable pub get_pods : D → Result (List Pod)
  unfolding get_pods_of
  get_pods d = get_pods_of d (database.keys d (codes "pod://"))

module _ {D B W : Type 0} (database : Database D B) (host : Host W) where
  abbrev pub started_after :
      Manager D W → PodProcess → D × Result (Unit {0}) → Manager D W × Result (Unit {0})
  started_after m p (d, ok _) = (record m { db = d; started = m.started ++ p ∷ [] }, ok tt)
  started_after m p (d, err e) = (record m { db = d }, err e)
  started_after m p (d, panic) = (record m { db = d }, panic)

  abbrev pub run_converted : Manager D W → Result PodProcess → Manager D W × Result (Unit {0})
  run_converted m (ok p) = started_after m p (put database m.db p)
  run_converted m (err e) = (m, err e)
  run_converted m panic = (m, panic)

  unfoldable pub run_pod : Paths → Str → Pod → Manager D W → Manager D W × Result (Unit {0})
  unfolding put convert_pod2process
  run_pod paths workdir pod m = run_converted m (convert_pod2process paths workdir pod)

  abbrev pub updated_after : Manager D W → Pod → Result PodProcess → Manager D W × Result (Unit {0})
  updated_after m pod (err e) = (m, err e)
  updated_after m pod panic = (m, panic)
  updated_after m pod (ok p) =
      let (d, r) = put database m.db (record p { pod = pod }) in (record m { db = d }, r)

  unfoldable pub update_pod : Pod → Manager D W → Manager D W × Result (Unit {0})
  unfolding get put
  update_pod pod m =
      updated_after m pod (get database m.db (get_pod_key pod.metadata.namespace pod.metadata.name))

  abbrev pub deleted_after :
      Manager D W → PodProcess → W × Result (Unit {0}) → Manager D W × Result (Unit {0})
  deleted_after m p (w, err e) = (record m { host = w }, err e)
  deleted_after m p (w, panic) = (record m { host = w }, panic)
  deleted_after m p (w, ok _) =
      let (d, r) = result_of database (database.delete m.db (key_of p)) in
      (record m { db = d; host = w }, r)

  -- A missing key is no error.
  abbrev pub delete_found : Manager D W → Found → Manager D W × Result (Unit {0})
  delete_found m key_not_found = (m, ok tt)
  delete_found m (failed e) = (m, err e)
  delete_found m (found p) = deleted_after m p (stop_pod host p m.host)

  unfoldable pub delete_pod : Pod → Manager D W → Manager D W × Result (Unit {0})
  unfolding lookup_process stop_pod get_pod_key
  delete_pod pod m =
      delete_found m
        (lookup_process database m.db (get_pod_key pod.metadata.namespace pod.metadata.name))
