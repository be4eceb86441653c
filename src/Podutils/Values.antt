-- ===== src/Podutils/Values.antt =====
-- getEnvironmentVariableValue and the functions that it calls: the value of one variable.
use native_kubelet.Base.{
  Str, str_eq, codes, lookup, if◌then◌else◌, Bool, ◌||◌, Option, none, some, [], ◌∷◌,
}
use native_kubelet.Expansion.{expand}
use native_kubelet.Result.{Result, ok, err, panic}
use native_kubelet.Errdefs.{message, formatted}
use native_kubelet.Kube.{
  ConfigMapOrSecret, KeySelector, FieldSelector, EnvVarSource, EnvVar, Pod, warning,
}
use native_kubelet.Podutils.Output.{Output, ◌>>=◌, ◌>>◌, pure, record_event, Cluster}
use native_kubelet.Podutils.Sources.{
  SourceKind, config_map, secret, optional_not_found, optional_key_not_found,
  failed_to_read_optional, mandatory_not_found, mandatory_key_not_found, failed_to_read_mandatory,
  reason, not_found_format, is_optional, get_source,
}

unfoldable pub read_format : SourceKind → Str
read_format config_map = codes "failed to read configmap %q: %v"
read_format secret = codes "failed to read secret %q: %v"

unfoldable pub missing_key_format : SourceKind → Str
missing_key_format config_map = codes "configmap %q doesn't contain the %q key required by pod %s"
missing_key_format secret = codes "secret %q doesn't contain the %q key required by pod %s"

module _ (c : Cluster) (pod : Pod) where
  open c use {is_not_found, convert_field_label, extract_field_path, node_ip, phase_text}

  -- The requested key of an object that was fetched.
  unfoldable pub key_found : SourceKind → EnvVar → KeySelector → Option Str → Output (Option Str)
  unfolding reason missing_key_format
  key_found kind env vf (some key_value) = pure (some key_value)
  key_found kind env vf none =
      if is_optional vf.optional
      then (do
        record_event warning (reason kind optional_key_not_found) (env.name ∷ vf.key ∷ vf.name ∷ [])
        pure none)
      else (do
        record_event warning (reason kind mandatory_key_not_found) (vf.key ∷ vf.name ∷ [])
        (err (message (missing_key_format kind) (vf.name ∷ vf.key ∷ pod.metadata.name ∷ [])), []))

  unfoldable pub key_source_found :
      SourceKind → EnvVar → KeySelector → Result ConfigMapOrSecret → Output (Option Str)
  unfolding key_found reason not_found_format read_format lookup
  key_source_found kind env vf (ok m) = key_found kind env vf (lookup vf.key m.entries)
  key_source_found kind env vf (err e) =
      if is_optional vf.optional
      then (do
        record_event warning
            (reason kind (if is_not_found e then optional_not_found else failed_to_read_optional))
            (env.name ∷ vf.name ∷ [])
        pure none)
      else if is_not_found e
      then (do
        record_event warning (reason kind mandatory_not_found) (vf.name ∷ [])
        (err (message (not_found_format kind) (vf.name ∷ [])), []))
      else (do
        record_event warning (reason kind failed_to_read_mandatory) (vf.name ∷ [])
        (err (formatted (read_format kind) (vf.name ∷ []) e), []))
  key_source_found kind env vf panic = (panic, [])

  -- getEnvironmentVariableValueWithValueFromConfigMapKeyRef, …FromSecretKeyRef
  unfoldable pub value_from_key_ref : SourceKind → EnvVar → KeySelector → Output (Option Str)
  unfolding key_source_found get_source
  value_from_key_ref kind env vf =
      key_source_found kind env vf (get_source c kind vf.name pod.metadata.namespace)

  abbrev is_host_field : Str → Bool
  is_host_field path =
      str_eq path (codes "status.hostIP")
      || (str_eq path (codes "status.podIP") || str_eq path (codes "status.podIPs"))

  -- The `switch` over the internal field path.
  unfoldable pub runtime_value_at : Str → Output Str
  runtime_value_at path =
      if str_eq path (codes "spec.nodeName")
      then pure pod.spec.node_name
      else if str_eq path (codes "spec.serviceAccountName")
      then pure pod.spec.service_account_name
      else if is_host_field path
      then pure node_ip
      else if str_eq path (codes "status.phase")
      then pure (phase_text pod.status.phase)
      else (extract_field_path pod path, [])

  unfoldable pub pod_field_selector_runtime_value : FieldSelector → Output Str
  unfolding runtime_value_at
  pod_field_selector_runtime_value fs = do
    path ← (convert_field_label fs, [])
    runtime_value_at path

  unfoldable pub value_from_field_ref : FieldSelector → Output (Option Str)
  unfolding pod_field_selector_runtime_value
  value_from_field_ref vf = do
    runtime_val ← pod_field_selector_runtime_value vf
    pure (some runtime_val)

  -- The tests of …WithValueFrom in their order: a ResourceFieldRef and an empty source give nil.
  unfoldable pub value_from_case :
      EnvVar → Option KeySelector → Option KeySelector → Option FieldSelector → Output (Option Str)
  unfolding value_from_key_ref value_from_field_ref
  value_from_case env (some vf) secret_ref field_ref = value_from_key_ref config_map env vf
  value_from_case env none (some vf) field_ref = value_from_key_ref secret env vf
  value_from_case env none none (some vf) = value_from_field_ref vf
  value_from_case env none none none = pure none

  -- A value that is given directly is expanded; `none` of `expand` is its panic.
  unfoldable pub expanded_value : Option Str → Output (Option Str)
  expanded_value none = (panic, [])
  expanded_value (some s) = pure (some s)

  unfoldable pub value_of : EnvVar → (Str → Str) → Option EnvVarSource → Output (Option Str)
  unfolding value_from_case expanded_value
  value_of env mapping_func (some from) =
      value_from_case env from.config_map_key_ref from.secret_key_ref from.field_ref
  value_of env mapping_func none = expanded_value (expand env.value mapping_func)

  unfoldable pub get_environment_variable_value : EnvVar → (Str → Str) → Output (Option Str)
  unfolding value_of
  get_environment_variable_value env mapping_func = value_of env mapping_func env.value_from
