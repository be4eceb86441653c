-- ===== src/Podutils/Populate.antt =====
-- makeEnvironmentMap, populateContainerEnvironment and PopulateEnvironmentVariables.
use native_kubelet.Base.{
  Str, Dict, lookup, insert, if◌then◌else◌, is_some, Bool, Option, none, some, List, [], ◌∷◌,
}
use native_kubelet.Expansion.{mapping_func_for}
use native_kubelet.Kube.{EnvVar, Container, Pod}
use native_kubelet.Podutils.Output.{Output, ◌>>=◌, pure, Cluster}
use native_kubelet.Podutils.Sources.{
  make_environment_map_based_on_env_from, get_service_env_var_map,
}
use native_kubelet.Podutils.Values.{get_environment_variable_value}

abbrev pub set_value : Str → Option Str → Dict Str → Dict Str
set_value name none res = res
set_value name (some val) res = insert name val res

-- Append the service variables that are not there yet.
unfoldable pub append_missing : Dict Str → Dict Str → Dict Str
append_missing [] res = res
append_missing ((k, v) ∷ svc_env) res =
    append_missing svc_env (if is_some (lookup k res) then res else insert k v res)

-- The entries of the map as variables with plain values.
unfoldable pub env_vars : Dict Str → List EnvVar
env_vars [] = []
env_vars ((key, val) ∷ m) = record { name = key; value = val; value_from = none } ∷ env_vars m

module _ (c : Cluster) (pod : Pod) where
  -- The mapping function reads the map as it is when it is called: earlier variables are seen.
  unfoldable pub env_loop : Dict Str → List EnvVar → Dict Str → Output (Dict Str)
  unfolding get_environment_variable_value
  env_loop svc_env [] res = pure res
  env_loop svc_env (env ∷ envs) res = do
    val ← get_environment_variable_value c pod env (mapping_func_for (res ∷ svc_env ∷ []))
    env_loop svc_env envs (set_value env.name val res)

  abbrev pub service_links : Option Bool → Bool
  service_links none = c.default_enable_service_links
  service_links (some b) = b

  unfoldable pub make_environment_map : Container → Dict Str → Output (Dict Str)
  unfolding env_loop append_missing get_service_env_var_map
  make_environment_map container res = do
    svc_env ←
        get_service_env_var_map c pod.metadata.namespace
          (service_links pod.spec.enable_service_links)
    res' ← env_loop svc_env container.env res
    pure (append_missing svc_env res')

  unfoldable pub populate_container_environment : Container → Output Container
  unfolding make_environment_map_based_on_env_from make_environment_map env_vars
  populate_container_environment container = do
    tmp_env ← make_environment_map_based_on_env_from c pod container
    tmp_env' ← make_environment_map container tmp_env
    pure (record container { env_from = []; env = env_vars tmp_env' })

  unfoldable pub populate_containers : List Container → Output (List Container)
  unfolding populate_container_environment
  populate_containers [] = pure []
  populate_containers (container ∷ containers) = do
    container' ← populate_container_environment container
    containers' ← populate_containers containers
    pure (container' ∷ containers')

-- The variables of a container see the metadata and the status of the pod, which do not change while
-- the containers are populated.
unfoldable pub populate_environment_variables : Cluster → Pod → Output Pod
unfolding populate_containers
populate_environment_variables c pod = do
  init_containers' ← populate_containers c pod pod.spec.init_containers
  containers' ← populate_containers c pod pod.spec.containers
  pure (record pod {
    spec = record (pod.spec) { init_containers = init_containers'; containers = containers' };
  })
