-- ===== src/Native/ManagerExamples.antt =====
-- A database in memory, an empty host and one volume, and the theorems of the modules beside at them.
use native_kubelet.Base.{
  ℕ, ◌+◌, ◌≤◌, codes, str_eq, Dict, lookup, insert, delete, lookup-insert, lookup-delete, Bool,
  true, false, if◌then◌else◌, Option, none, some, inl, inr, List, [], ◌∷◌, ◌++◌, ◌≡◌, refl, sym, ap,
  ◌∙◌, arith,
}
use native_kubelet.Result.{ok}
use native_kubelet.Errdefs.{Error, message, not_found_error, is_not_found_error}
use native_kubelet.Kube.{EnvVarSource}
use native_kubelet.Samples.{pod}
use native_kubelet.Native.Process.{PodProcess, Paths}
use native_kubelet.Native.Manager.{
  Stored, value, missing, Database, Host, Manager, lookup_process, run_pod,
}
use native_kubelet.Native.Views.{IsDatabase, IsKeyed, ran, operate, Refined}
use native_kubelet.Native.Refines.{operate-Refined}
use native_kubelet.Native.Env.{EnvSources, build_env_entry}
use native_kubelet.Native.Absent.{is_panic, build_env_entry-panics}
use native_kubelet.Native.Download.{Volume, Files, Download}
use native_kubelet.Native.Process.{new_process}
use native_kubelet.Samples.{web}
use native_kubelet.Native.Start.{Machine, Runner, start_func}
use native_kubelet.Native.Parts.{Prepares, IsHonest}
use native_kubelet.Native.Ends.{EndsOnce, start_func-EndsOnce}

abbrev stored : Option PodProcess → Stored PodProcess
stored none = missing
stored (some p) = value p

abbrev database : Database (Dict PodProcess) PodProcess
database = record {
  get = λ d k. stored (lookup k d);
  put = λ d k p. (insert k p d, none);
  delete = λ d k. (delete k d, none);
  keys = λ d p. [];
  err_key_not_found = message (codes "error: key not found") [];
  encode = λ p. inr p;
  decode = λ p. inr p;
}

stored-value :
    (b : Bool) (p : PodProcess) (o : Option PodProcess)
    → stored (if b then some p else o) ≡ (if b then value p else stored o)
stored-value true p o = refl
stored-value false p o = refl

stored-missing :
    (b : Bool) (o : Option PodProcess)
    → stored (if b then none else o) ≡ (if b then missing else stored o)
stored-missing true o = refl
stored-missing false o = refl

database-IsDatabase : IsDatabase database
database-IsDatabase = record {
  get_put = λ d e k j p h.
      ap (λ t. stored (lookup j t.0)) (sym h)
      ∙ ap stored (lookup-insert k j p d)
      ∙ stored-value (str_eq k j) p (lookup j d);
  get_delete = λ d e k j h.
      ap (λ t. stored (lookup j t.0)) (sym h)
      ∙ ap stored (lookup-delete k j d)
      ∙ stored-missing (str_eq k j) (lookup j d);
  decode_encode = λ p bytes h. sym h;
}

abbrev host : Host ℕ
host = record {
  find_process = λ w pid. none;
  terminate = λ w pid. (w, none);
  kill = λ w pid. (w, none);
  wait = λ w n. w;
  error_text = λ e. [];
}

abbrev paths : Paths
paths = record { filenamify = λ s. ok s; join = λ ss. codes "/" }

abbrev manager : Manager (Dict PodProcess) ℕ
manager = record { db = []; host = 0; started = [] }

empty-IsKeyed : IsKeyed database []
unfolding lookup_process lookup
empty-IsKeyed ns name p h e = absurd (ground arith)

operate-Refined_example :
    Refined database
      (ran pod)
      []
      (operate database host paths (codes "/work") (ran pod) manager).0.db
unfolding run_pod
operate-Refined_example =
    operate-Refined database database-IsDatabase host paths (codes "/work") (ran pod) manager refl
      empty-IsKeyed refl

abbrev no_object : Error
no_object = not_found_error (message (codes "configmap") [])

abbrev nothing : EnvSources
nothing = record {
  get_config_map = λ name ns. inl no_object;
  get_secret = λ name ns. inl no_object;
  is_not_found = is_not_found_error;
  extract_field_path = λ p path. inr [];
  node_ip = codes "10.0.0.7";
}

-- A key of a configmap that is not there, in a reference without `optional`
abbrev dangling : EnvVarSource
dangling = record {
  config_map_key_ref =
      some (record { name = codes "settings"; key = codes "MODE"; optional = none });
  secret_key_ref = none;
  field_ref = none;
  resource_field_ref = none;
}

build_env_entry-panics_example : is_panic (build_env_entry nothing pod dangling) ≡ true
unfolding is_not_found_error
build_env_entry-panics_example = build_env_entry-panics nothing pod dangling

abbrev files : Files ℕ
files = record {
  get_object = λ kind name ns. inr ((codes "a", codes "1") ∷ (codes "b", codes "2") ∷ []);
  is_not_found = is_not_found_error;
  write_file = λ w path bytes. (w, none);
  join = λ a b. a ++ codes "/" ++ b;
}

abbrev volumes : List Volume
volumes =
    record {
      name = codes "v";
      config_map = some (record { name = codes "settings"; items = []; optional = none });
      secret = none;
    }
    ∷ []

abbrev empty_disk : Download ℕ
empty_disk = record { disk = 0; written = [] }

-- A host on which everything succeeds; its world counts what was done to it.
abbrev machine : Machine ℕ
machine = record {
  pull_image = λ w. (w + 1, none);
  unzip_image = λ w. (w + 1, none);
  pid_exists = λ w pid. inr false;
  open_log = λ w. (w, none);
  start = λ w envs. (w, inr 42);
  wait_dead = λ w pid. (w, none);
  is_done = λ w. false;
  environ = [];
  to_title = λ s. s;
  files = files;
  sources = record nothing { get_config_map = λ name ns. inr ((codes "MODE", codes "fast") ∷ []) };
}

abbrev fresh : Runner ℕ
fresh = record { world = 0; process = new_process pod web [] false; written = []; events = [] }

machine-Prepares : Prepares machine (λ w. 1 ≤ w) (λ w. 2 ≤ w)
machine-Prepares = record {
  pulls = λ w e. omega arith;
  unzips = λ w h e. omega (arith, h);
  pull_keeps = λ w h. omega (arith, h);
  unzip_keeps = λ w h. omega (arith, h);
  write_keeps = λ w file bytes h. (omega (arith, h.0), omega (arith, h.1));
  open_keeps = λ w h. h;
  start_keeps = λ w envs h. h;
  wait_keeps = λ w pid h. h;
}

fresh-IsHonest : IsHonest (λ w. 1 ≤ w) (λ w. 2 ≤ w) fresh
unfolding new_process
fresh-IsHonest = record {
  pulled = λ e. absurd (ground (arith, e));
  unzipped = λ e. absurd (ground (arith, e));
}

start_func-EndsOnce_example :
    EndsOnce
      (λ w. 1 ≤ w)
      (λ w. 2 ≤ w)
      fresh
      (start_func machine [] volumes (codes "/c") pod false fresh)
start_func-EndsOnce_example =
    start_func-EndsOnce machine [] volumes (codes "/c") pod false (λ w. 1 ≤ w) (λ w. 2 ≤ w)
      machine-Prepares fresh fresh-IsHonest

starts : (start_func machine [] volumes (codes "/c") pod false fresh).1 ≡ ok true
unfolding start_func new_process
starts = refl
