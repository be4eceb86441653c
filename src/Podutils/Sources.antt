-- ===== src/Podutils/Sources.antt =====
-- makeEnvironmentMapBasedOnEnvFrom and getServiceEnvVarMap. A lister answers with the object or
-- with an error; a panic of a lister is passed on.
use native_kubelet.Base.{
  Str, str_eq, codes, Dict, lookup, insert, ltb, if◌then◌else◌, Bool, true, false, ◌&&◌, Option,
  none, some, List, [], ◌∷◌, ◌++◌, is_some,
}
use native_kubelet.Result.{Result, ok, err, panic}
use native_kubelet.Errdefs.{message, formatted}
use native_kubelet.Kube.{
  ConfigMapOrSecret, Service, SourceRef, EnvFromSource, Container, Pod, warning,
}
use native_kubelet.Podutils.Output.{Output, ◌>>=◌, ◌>>◌, pure, record_event, Cluster}

-- The code treats the two kinds alike, in two copies.
pub data SourceKind : Type 0 where
  config_map secret : SourceKind

-- The reasons of events, and the formats of errors, that each kind has.
pub data Trouble : Type 0 where
  optional_not_found optional_key_not_found failed_to_read_optional : Trouble
  mandatory_not_found mandatory_key_not_found failed_to_read_mandatory : Trouble

unfoldable pub reason : SourceKind → Trouble → Str
reason config_map optional_not_found = codes "OptionalConfigMapNotFound"
reason config_map optional_key_not_found = codes "OptionalConfigMapKeyNotFound"
reason config_map failed_to_read_optional = codes "FailedToReadOptionalConfigMap"
reason config_map mandatory_not_found = codes "MandatoryConfigMapNotFound"
reason config_map mandatory_key_not_found = codes "MandatoryConfigMapKeyNotFound"
reason config_map failed_to_read_mandatory = codes "FailedToReadMandatoryConfigMap"
reason secret optional_not_found = codes "OptionalSecretNotFound"
reason secret optional_key_not_found = codes "OptionalSecretKeyNotFound"
reason secret failed_to_read_optional = codes "FailedToReadOptionalSecret"
reason secret mandatory_not_found = codes "MandatorySecretNotFound"
reason secret mandatory_key_not_found = codes "MandatorySecretKeyNotFound"
reason secret failed_to_read_mandatory = codes "FailedToReadMandatorySecret"

unfoldable pub not_found_format : SourceKind → Str
not_found_format config_map = codes "configmap %q not found"
not_found_format secret = codes "secret %q not found"

unfoldable pub fetch_format : SourceKind → Str
fetch_format config_map = codes "failed to fetch configmap %q: %v"
fetch_format secret = codes "failed to fetch secret %q: %v"

abbrev pub invalid_names_reason : Str
invalid_names_reason = codes "InvalidEnvironmentVariableNames"

-- `ref.Optional != nil && *ref.Optional`
abbrev pub is_optional : Option Bool → Bool
is_optional none = false
is_optional (some b) = b

-- sort.Strings
unfoldable pub str_le : Str → Str → Bool
str_le [] t = true
str_le (a ∷ s) [] = false
str_le (a ∷ s) (b ∷ t) =
    let rest = str_le s t in if ltb a b then true else if ltb b a then false else rest

unfoldable pub insert_sorted : Str → List Str → List Str
unfolding str_le
insert_sorted s [] = s ∷ []
insert_sorted s (t ∷ ts) =
    let rest = insert_sorted s ts in if str_le s t then s ∷ t ∷ ts else t ∷ rest

unfoldable pub sort_strings : List Str → List Str
unfolding insert_sorted
sort_strings [] = []
sort_strings (s ∷ ss) = insert_sorted s (sort_strings ss)

module _ (c : Cluster) where
  open c use {
    get_config_map, get_secret, list_services, is_not_found, is_env_var_name, from_services,
  }

  unfoldable pub get_source : SourceKind → Str → Str → Result ConfigMapOrSecret
  get_source config_map name namespace = get_config_map name namespace
  get_source secret name namespace = get_secret name namespace

  -- The loop over the keys of one object: the environment, and the invalid names in order.
  unfoldable pub copy_keys : Str → Dict Str → Dict Str → List Str → Dict Str × List Str
  copy_keys prefix [] res invalid_keys = (res, invalid_keys)
  copy_keys prefix ((key, val) ∷ entries) res invalid_keys =
      let name = prefix ++ key in
      let valid = is_env_var_name name in
      copy_keys prefix entries (if valid then insert name val res else res)
        (if valid then invalid_keys else invalid_keys ++ name ∷ [])

  -- The event for the invalid names, if there are any.
  unfoldable pub report_invalid : ConfigMapOrSecret → List Str → Output (Unit {0})
  unfolding sort_strings
  report_invalid m [] = pure tt
  report_invalid m (k ∷ ks) =
      record_event warning invalid_names_reason (sort_strings (k ∷ ks) ++ m.namespace ∷ m.name ∷ [])

  -- One reference to an object, with what the lister answered.
  unfoldable pub source_found :
      SourceKind → Str → SourceRef → Dict Str → Result ConfigMapOrSecret → Output (Dict Str)
  unfolding copy_keys report_invalid reason not_found_format fetch_format
  source_found kind prefix ef res (ok m) =
      let (res', invalid_keys) = copy_keys prefix m.entries res [] in
      do report_invalid m invalid_keys; pure res'
  source_found kind prefix ef res (err e) =
      if is_optional ef.optional
      then (do
        record_event warning
            (reason kind (if is_not_found e then optional_not_found else failed_to_read_optional))
            (ef.name ∷ [])
        pure res)
      else if is_not_found e
      then (do
        record_event warning (reason kind mandatory_not_found) (ef.name ∷ [])
        (err (message (not_found_format kind) (ef.name ∷ [])), []))
      else (do
        record_event warning (reason kind failed_to_read_mandatory) (ef.name ∷ [])
        (err (formatted (fetch_format kind) (ef.name ∷ []) e), []))
  source_found kind prefix ef res panic = (panic, [])

  unfoldable pub populate_from :
      SourceKind → Str → EnvFromSource → SourceRef → Dict Str → Output (Dict Str)
  unfolding source_found get_source
  populate_from kind namespace from ef res =
      source_found kind from.prefix ef res (get_source kind ef.name namespace)

  -- The cases of the `switch`, in its order.
  unfoldable pub env_from_case :
      Str → EnvFromSource → Option SourceRef → Option SourceRef → Dict Str → Output (Dict Str)
  unfolding populate_from
  env_from_case namespace from (some ef) secret_ref res =
      populate_from config_map namespace from ef res
  env_from_case namespace from none (some ef) res = populate_from secret namespace from ef res
  env_from_case namespace from none none res = pure res

  unfoldable pub env_from_loop : Str → List EnvFromSource → Dict Str → Output (Dict Str)
  unfolding env_from_case
  env_from_loop namespace [] res = pure res
  env_from_loop namespace (from ∷ env_from) res = do
    res' ← env_from_case namespace from from.config_map_ref from.secret_ref res
    env_from_loop namespace env_from res'

  unfoldable pub make_environment_map_based_on_env_from : Pod → Container → Output (Dict Str)
  unfolding env_from_loop
  make_environment_map_based_on_env_from pod container =
      env_from_loop pod.metadata.namespace container.env_from []

  -- The services of one round of the loop in getServiceEnvVarMap.
  unfoldable pub select_services : Str → Bool → List Service → Dict Service → Dict Service
  select_services ns enable_service_links [] service_map = service_map
  select_services ns enable_service_links (service ∷ services) service_map =
      select_services ns enable_service_links services (
        if service.cluster_ip_set
        then if str_eq service.namespace (codes "default")
            && str_eq service.name (codes "kubernetes")
          then if is_some (lookup service.name service_map)
            then service_map
            else insert service.name service service_map
          else if str_eq service.namespace ns && enable_service_links
          then insert service.name service service_map
          else service_map
        else service_map)

  unfoldable pub values : Dict Service → List Service
  values [] = []
  values ((k, service) ∷ m) = service ∷ values m

  unfoldable pub collect : List (Str × Str) → Dict Str → Dict Str
  collect [] m = m
  collect ((name, value) ∷ es) m = collect es (insert name value m)

  unfoldable pub get_service_env_var_map : Str → Bool → Output (Dict Str)
  unfolding select_services values collect
  get_service_env_var_map ns enable_service_links = do
    services ← (list_services, [])
    pure (collect (from_services (values (select_services ns enable_service_links services []))) [])
