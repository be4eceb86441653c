-- ===== src/Samples.antt =====
-- A cluster with one configmap and one service, and a pod of one container, for the examples.
use native_kubelet.Base.{
  Str, codes, str_eq, insert, if◌then◌else◌, Bool, true, false, none, some, List, [], ◌∷◌, ◌≡◌,
  refl,
}
use native_kubelet.Expansion.{mapping_func_for, expand}
use native_kubelet.Result.{ok, err}
use native_kubelet.Errdefs.{not_found, is_not_found_error}
use native_kubelet.Kube.{
  ConfigMapOrSecret, Service, EnvVar, Container, Pod, PodStatus, ObjectMeta, always, running,
}
use native_kubelet.Podutils.{Cluster}
use native_kubelet.Podutils.Populate.{populate_environment_variables}

abbrev pub settings : ConfigMapOrSecret
settings = record {
  namespace = codes "default";
  name = codes "settings";
  entries = (codes "MODE", codes "fast") ∷ (codes "bad name", codes "x") ∷ [];
}

abbrev pub api : Service
api = record {
  namespace = codes "default";
  name = codes "kubernetes";
  cluster_ip_set = true;
  rest = [];
}

abbrev pub host_vars : List Service → List (Str × Str)
host_vars [] = []
host_vars (s ∷ ss) = (codes "KUBERNETES_SERVICE_HOST", codes "10.0.0.1") ∷ host_vars ss

abbrev pub no_space : Str → Bool
no_space s = if str_eq s (codes "bad name") then false else true

abbrev pub cluster : Cluster
cluster = record {
  get_config_map = λ name namespace.
      if str_eq name (codes "settings") then ok settings else err (not_found (codes "configmap"));
  get_secret = λ name namespace. err (not_found (codes "secret"));
  list_services = ok (api ∷ []);
  is_not_found = is_not_found_error;
  is_env_var_name = no_space;
  from_services = host_vars;
  default_enable_service_links = true;
  convert_field_label = λ fs. ok fs.field_path;
  extract_field_path = λ pod path. ok pod.metadata.name;
  node_ip = codes "192.168.0.7";
  phase_text = λ p. codes "Running";
}

abbrev pub url : EnvVar
url = record {
  name = codes "URL";
  value = codes "http://$(KUBERNETES_SERVICE_HOST)/$(MODE)";
  value_from = none;
}

abbrev pub mode_key : EnvVar
mode_key = record {
  name = codes "M";
  value = [];
  value_from = some (record {
    config_map_key_ref =
        some (record { name = codes "settings"; key = codes "MODE"; optional = none });
    secret_key_ref = none;
    field_ref = none;
    resource_field_ref = none;
  });
}

abbrev pub web : Container
web = record {
  name = codes "web";
  image = codes "nginx";
  env = mode_key ∷ url ∷ [];
  env_from =
      record {
        prefix = [];
        config_map_ref = some (record { name = codes "settings"; optional = some false });
        secret_ref = none;
      }
      ∷ [];
  rest = [];
}

abbrev pub meta : ObjectMeta
meta = record {
  namespace = codes "default";
  name = codes "web-0";
  uid = codes "u1";
  resource_version = codes "7";
  labels = [];
  annotations = [];
  creation_timestamp = 100;
  deletion_timestamp = none;
  deletion_grace_period_seconds = none;
}

abbrev pub status : PodStatus
status = record {
  phase = running;
  reason = [];
  message = [];
  host_ip = [];
  pod_ip = [];
  pod_ips = [];
  start_time = none;
  conditions = [];
  init_container_statuses = [];
  container_statuses = [];
  qos_class = [];
}

abbrev pub pod : Pod
pod = record {
  metadata = meta;
  spec = record {
    init_containers = [];
    containers = web ∷ [];
    active_deadline_seconds = none;
    tolerations = [];
    restart_policy = always;
    node_name = codes "node-1";
    service_account_name = [];
    enable_service_links = none;
    termination_grace_period_seconds = some 30;
  };
  status = status;
}

abbrev pub plain_var : Str → Str → EnvVar
plain_var n v = record { name = n; value = v; value_from = none }

abbrev pub populated : Pod
populated = record pod {
  spec = record (pod.spec) {
    containers =
        record web {
          env_from = [];
          env =
              plain_var (codes "MODE") (codes "fast")
              ∷ plain_var (codes "M") (codes "fast")
              ∷ plain_var (codes "URL") (codes "http://10.0.0.1/fast")
              ∷ plain_var (codes "KUBERNETES_SERVICE_HOST") (codes "10.0.0.1")
              ∷ [];
        }
        ∷ [];
  };
}

pub pod_populates : (populate_environment_variables cluster pod).0 ≡ ok populated
unfolding populate_environment_variables mapping_func_for expand insert
pod_populates = refl
