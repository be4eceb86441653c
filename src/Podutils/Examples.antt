-- ===== src/Podutils/Examples.antt =====
-- The theorems of the modules beside at the sample cluster and pod.
use native_kubelet.Base.{
  Str, codes, str_eq, Dict, lookup, insert, true, false, some, List, [], ◌∷◌, ◌++◌, All, ◌≡◌, refl,
  arith,
}
use native_kubelet.Expansion.{mapping_func_for, expand}
use native_kubelet.Result.{ok}
use native_kubelet.Kube.{EnvVar}
use native_kubelet.Podutils.Sources.{get_service_env_var_map}
use native_kubelet.Podutils.Populate.{
  env_loop, make_environment_map, populate_environment_variables,
}
use native_kubelet.Podutils.Laws.{IsPlain, or_else, make_environment_map_precedence}
use native_kubelet.Podutils.Resolved.{IsResolved, populate-IsResolved}
use native_kubelet.Podutils.Total.{panics, IsCalm, populate_total}
use native_kubelet.Samples.{cluster, web, pod, pod_populates}

populate-IsResolved_example :
    All (IsResolved cluster pod) pod.spec.init_containers
    × All (IsResolved cluster pod) pod.spec.containers
populate-IsResolved_example = populate-IsResolved cluster pod pod_populates

cluster-IsCalm : IsCalm cluster
cluster-IsCalm = record {
  config_maps = λ name namespace. ground arith;
  secrets = λ name namespace. refl;
  services = refl;
  labels = λ fs. refl;
  paths = λ pod path. refl;
}

populate_total_example : panics (populate_environment_variables cluster pod).0 ≡ false
populate_total_example = populate_total cluster pod cluster-IsCalm

abbrev merged : Dict Str
merged =
    (codes "M", codes "fast")
    ∷ (codes "URL", codes "http://10.0.0.1/$(MODE)")
    ∷ (codes "KUBERNETES_SERVICE_HOST", codes "10.0.0.1")
    ∷ []

web_merges : (make_environment_map cluster pod web []).0 ≡ ok merged
unfolding make_environment_map mapping_func_for expand insert
web_merges = refl

make_environment_map_precedence_example :
    (svc_env : Dict Str) × ((get_service_env_var_map cluster (codes "default") true).0 ≡ ok svc_env)
    × ((before later : List EnvVar) (env : EnvVar)
        → web.env ≡ before ++ env ∷ later
        → IsPlain env
        → All (λ (e : EnvVar). str_eq e.name env.name ≡ false) later
        → (seen : Dict Str) × (s : Str) × ((env_loop cluster pod svc_env before []).0 ≡ ok seen)
          × (expand env.value (mapping_func_for (seen ∷ svc_env ∷ [])) ≡ some s)
          × (lookup env.name merged ≡ some s))
    × ((k : Str)
        → All (λ (e : EnvVar). str_eq e.name k ≡ false) web.env
        → lookup k merged ≡ or_else (lookup k []) (lookup k svc_env))
make_environment_map_precedence_example =
    make_environment_map_precedence cluster pod web [] web_merges
