-- ===== src/Native/Env.antt =====
-- native/process_manager.go: the environment of the process of a container, and whether its image is
-- pulled again. What the resource manager answers and the paths of fields are parameters.
use native_kubelet.Base.{
  Str, codes, str_eq, Dict, lookup, Bool, true, false, not, ◌||◌, if◌then◌else◌, Option, none, some,
  ◌⊎◌, inl, inr, List, [], ◌∷◌, ◌++◌,
}
use native_kubelet.Result.{Result, ok, err, panic, ◌>>=◌}
use native_kubelet.Errdefs.{Error, message}
use native_kubelet.Kube.{Pod, EnvVar, EnvVarSource, KeySelector, FieldSelector}
use native_kubelet.Native.Process.{ContainerProcess}

pub record EnvSources : Type 0 where
  -- Data of the configmap with this name and namespace
  pub get_config_map : Str → Str → Error ⊎ Dict Str
  -- StringData of the secret
  pub get_secret : Str → Str → Error ⊎ Dict Str
  pub is_not_found : Error → Bool
  pub extract_field_path : Pod → Str → Error ⊎ Str
  pub node_ip : Str

unfoldable pub format_env : Str → Str → Str
format_env name value = name ++ codes "=" ++ value

-- `*Optional`, which may be nil
abbrev pub deref_optional : Option Bool → Error → Result Str
deref_optional none e = panic
deref_optional (some true) e = ok []
deref_optional (some false) e = err e

abbrev pub key_in : Option Str → Option Bool → Error → Result Str
key_in (some s) optional e = ok s
key_in none optional e = deref_optional optional e

unfoldable pub is_node_path : Str → Bool
unfolding str_eq
is_node_path path =
    str_eq path (codes "status.phase")
    || str_eq path (codes "status.hostIP")
    || str_eq path (codes "status.podIP")
    || str_eq path (codes "status.podIPs")
    || str_eq path (codes "spec.host")

abbrev pub of_field : Error ⊎ Str → Result Str
of_field (inl e) = err e
of_field (inr s) = ok s

module _ (s : EnvSources) where
  abbrev pub from_object : Str → KeySelector → Str → Error ⊎ Dict Str → Result Str
  from_object format ref ns (inl e) =
      if s.is_not_found e then deref_optional ref.optional e else err e
  from_object format ref ns (inr data') =
      key_in (lookup ref.key data') ref.optional (message format (ref.name ∷ ref.key ∷ ns ∷ []))

  abbrev pub from_field : Pod → FieldSelector → Result Str
  from_field pod f =
      if is_node_path f.field_path
      then ok s.node_ip
      else of_field (s.extract_field_path pod f.field_path)

  abbrev pub from_resource : Option Str → Result Str
  from_resource none = ok []
  from_resource (some r) = err (message (codes "unsupport ResourceFieldRef") [])

  abbrev pub from_secret : Pod → EnvVarSource → Option KeySelector → Result Str
  from_secret pod source none = from_resource source.resource_field_ref
  from_secret pod source (some ref) =
      from_object (codes "not found secret %s key %s at namespace %s") ref pod.metadata.namespace
        (s.get_secret ref.name pod.metadata.namespace)

  abbrev pub from_config_map : Pod → EnvVarSource → Option KeySelector → Result Str
  from_config_map pod source none = from_secret pod source source.secret_key_ref
  from_config_map pod source (some ref) =
      from_object (codes "not found configmap %s key %s at namespace %s") ref pod.metadata.namespace
        (s.get_config_map ref.name pod.metadata.namespace)

  abbrev pub from_source : Pod → EnvVarSource → Option FieldSelector → Result Str
  from_source pod source none = from_config_map pod source source.config_map_key_ref
  from_source pod source (some f) = from_field pod f

  unfoldable pub build_env_entry : Pod → EnvVarSource → Result Str
  unfolding lookup is_node_path
  build_env_entry pod source = from_source pod source source.field_ref

  abbrev pub env_value : Pod → EnvVar → Option EnvVarSource → Result Str
  env_value pod e none = ok e.value
  env_value pod e (some source) = build_env_entry pod source

  -- The loop over the variables, after the environment of the kubelet.
  unfoldable pub build_envs : Pod → List EnvVar → List Str → Result (List Str)
  unfolding build_env_entry format_env
  build_envs pod [] environ = ok environ
  build_envs pod (e ∷ es) environ =
      env_value pod e e.value_from
      >>= (λ v. build_envs pod es (environ ++ format_env e.name v ∷ []))

  unfoldable pub build_container_envs : Pod → ContainerProcess → List Str → Result (List Str)
  unfolding build_envs
  build_container_envs pod p environ = build_envs pod p.container.env environ

-- strings.HasSuffix
unfoldable pub has_suffix : Str → Str → Bool
unfolding str_eq
has_suffix [] suffix = str_eq [] suffix
has_suffix (c ∷ s) suffix = str_eq (c ∷ s) suffix || has_suffix s suffix

-- `to_title` is strings.ToTitle.
unfoldable pub image_latest : (Str → Str) → Str → Bool
unfolding has_suffix
image_latest to_title image = has_suffix (to_title image) (codes ":LATEST")

-- The pull policy of the container is Always, or not.
unfoldable pub need_pull_image : (Str → Str) → Bool → ContainerProcess → Bool
unfolding image_latest
need_pull_image to_title is_always p =
    not p.image_pulled || is_always || image_latest to_title p.container.image
