-- ===== src/Podutils/Resolved.antt =====
-- What a successful populate says of the references that the containers make.
use native_kubelet.Base.{
  Str, Dict, lookup, false, Option, none, some, Option-cases, List, [], ◌∷◌, All, ◌≡◌, refl, arith,
  inl, inr,
}
use native_kubelet.Expansion.{mapping_func_for}
use native_kubelet.Result.{Result, ok, err, panic}
use native_kubelet.Kube.{
  FieldSelector, ConfigMapOrSecret, KeySelector, EnvVarSource, EnvVar, EnvFromSource, SourceRef,
  Container, Pod,
}
use native_kubelet.Podutils.Output.{Cluster}
use native_kubelet.Podutils.Sources.{
  SourceKind, config_map, secret, is_optional, get_source, source_found, env_from_case,
  env_from_loop, make_environment_map_based_on_env_from, get_service_env_var_map,
}
use native_kubelet.Podutils.Values.{
  key_source_found, value_from_case, value_of, get_environment_variable_value,
}
use native_kubelet.Podutils.Populate.{
  set_value, env_loop, service_links, make_environment_map, populate_container_environment,
  populate_containers, populate_environment_variables,
}
use native_kubelet.Podutils.Laws.{>>=-eq-ok}

module _ (c : Cluster) (pod : Pod) where
  -- A key that must exist does, in the object of that name in the pod's namespace.
  abbrev pub KeyExists : SourceKind → KeySelector → Type 0
  KeyExists kind vf =
      is_optional vf.optional ≡ false
      → (m : ConfigMapOrSecret) × (v : Str) × (get_source c kind vf.name pod.metadata.namespace
          ≡ ok m)
        × (lookup vf.key m.entries ≡ some v)

  -- The reference that the code follows: a configmap key before a secret key.
  abbrev pub KeysExist : Option KeySelector → Option KeySelector → Type 0
  KeysExist (some vf) s = KeyExists config_map vf
  KeysExist none (some vf) = KeyExists secret vf
  KeysExist none none = Unit

  abbrev pub SourceKeysExist : Option EnvVarSource → Type 0
  SourceKeysExist none = Unit
  SourceKeysExist (some from) = KeysExist from.config_map_key_ref from.secret_key_ref

  abbrev pub ObjectExists : SourceKind → SourceRef → Type 0
  ObjectExists kind ef =
      is_optional ef.optional ≡ false
      → (m : ConfigMapOrSecret) × (get_source c kind ef.name pod.metadata.namespace ≡ ok m)

  abbrev pub ObjectsExist : Option SourceRef → Option SourceRef → Type 0
  ObjectsExist (some ef) s = ObjectExists config_map ef
  ObjectsExist none (some ef) = ObjectExists secret ef
  ObjectsExist none none = Unit

  pub record IsResolved (container : Container) : Type 0 where
    pub env_from :
        All
          (λ (from : EnvFromSource). ObjectsExist from.config_map_ref from.secret_ref)
          container.env_from
    pub env : All (λ (e : EnvVar). SourceKeysExist e.value_from) container.env

  key_exists :
      (kind : SourceKind) (env : EnvVar) (vf : KeySelector) (r : Result ConfigMapOrSecret)
      {val : Option Str}
      → (key_source_found c pod kind env vf r).0 ≡ ok val
      → is_optional vf.optional ≡ false
      → (m : ConfigMapOrSecret) × (v : Str) × (r ≡ ok m) × (lookup vf.key m.entries ≡ some v)
  unfolding key_source_found
  key_exists kind env vf (ok m) h o = elim (Option-cases (lookup vf.key m.entries)) [
    | inl e ↦ absurd (ground (arith, h, o, e))
    | inr (v, e) ↦ (m, v, refl, e)
  ]
  key_exists kind env vf (err e) h o = absurd (ground (arith, h, o))
  key_exists kind env vf panic h o = absurd (ground (arith, h, o))

  object_exists :
      (kind : SourceKind) (prefix : Str) (ef : SourceRef) (res : Dict Str)
      (r : Result ConfigMapOrSecret) {out : Dict Str}
      → (source_found c kind prefix ef res r).0 ≡ ok out
      → is_optional ef.optional ≡ false
      → (m : ConfigMapOrSecret) × (r ≡ ok m)
  unfolding source_found
  object_exists kind prefix ef res (ok m) h o = (m, refl)
  object_exists kind prefix ef res (err e) h o = absurd (ground (arith, h, o))
  object_exists kind prefix ef res panic h o = absurd (ground (arith, h, o))

  case_exists :
      (from : EnvFromSource) (cm s : Option SourceRef) (res : Dict Str) {out : Dict Str}
      → (env_from_case c pod.metadata.namespace from cm s res).0 ≡ ok out
      → ObjectsExist cm s
  unfolding env_from_case
  case_exists from (some ef) s res h = object_exists config_map from.prefix ef res _ h
  case_exists from none (some ef) res h = object_exists secret from.prefix ef res _ h
  case_exists from none none res h = tt

  env_from_exists :
      (froms : List EnvFromSource) (res : Dict Str) {out : Dict Str}
      → (env_from_loop c pod.metadata.namespace froms res).0 ≡ ok out
      → All (λ (from : EnvFromSource). ObjectsExist from.config_map_ref from.secret_ref) froms
  unfolding env_from_loop
  env_from_exists [] res h = tt
  env_from_exists (from ∷ froms) res h =
      let (res', p, q) =
        >>=-eq-ok
          (env_from_case c pod.metadata.namespace from from.config_map_ref from.secret_ref res) _
          h in
      (case_exists from from.config_map_ref from.secret_ref res p, env_from_exists froms res' q)

  keys_exist :
      (env : EnvVar) (cm s : Option KeySelector) (f : Option FieldSelector) {val : Option Str}
      → (value_from_case c pod env cm s f).0 ≡ ok val
      → KeysExist cm s
  unfolding value_from_case
  keys_exist env (some vf) s f h = key_exists config_map env vf _ h
  keys_exist env none (some vf) f h = key_exists secret env vf _ h
  keys_exist env none none f h = tt

  value_exists :
      (env : EnvVar) (mapping_func : Str → Str) (from : Option EnvVarSource) {val : Option Str}
      → (value_of c pod env mapping_func from).0 ≡ ok val
      → SourceKeysExist from
  unfolding value_of
  value_exists env mapping_func none h = tt
  value_exists env mapping_func (some from) h =
      keys_exist env from.config_map_key_ref from.secret_key_ref from.field_ref h

  env_exists :
      (svc_env : Dict Str) (envs : List EnvVar) (res : Dict Str) {out : Dict Str}
      → (env_loop c pod svc_env envs res).0 ≡ ok out
      → All (λ (e : EnvVar). SourceKeysExist e.value_from) envs
  unfolding env_loop get_environment_variable_value
  env_exists svc_env [] res h = tt
  env_exists svc_env (e ∷ es) res h =
      let f = mapping_func_for (res ∷ svc_env ∷ []) in
      let (val, p, q) = >>=-eq-ok (value_of c pod e f e.value_from) _ h in
      (value_exists e f e.value_from p, env_exists svc_env es (set_value e.name val res) q)

  container-IsResolved :
      (container : Container) {after : Container}
      → (populate_container_environment c pod container).0 ≡ ok after
      → IsResolved container
  unfolding populate_container_environment make_environment_map
  container-IsResolved container h =
      let (m, p, h') = >>=-eq-ok (make_environment_map_based_on_env_from c pod container) _ h in
      let (m', q, _) = >>=-eq-ok (make_environment_map c pod container m) _ h' in
      let (svc, _, r) =
        >>=-eq-ok
          (get_service_env_var_map c pod.metadata.namespace
            (service_links c pod pod.spec.enable_service_links))
          _ q in
      let (m'', s, _) = >>=-eq-ok (env_loop c pod svc container.env m) _ r in
      record {
        env_from = env_from_exists container.env_from [] p;
        env = env_exists svc container.env m s;
      }

  containers-IsResolved :
      (containers : List Container) {after : List Container}
      → (populate_containers c pod containers).0 ≡ ok after
      → All IsResolved containers
  unfolding populate_containers
  containers-IsResolved [] h = tt
  containers-IsResolved (x ∷ xs) h =
      let (x', p, h') = >>=-eq-ok (populate_container_environment c pod x) _ h in
      let (xs', q, _) = >>=-eq-ok (populate_containers c pod xs) _ h' in
      (container-IsResolved x p, containers-IsResolved xs q)

-- When PopulateEnvironmentVariables returns no error, every configmap and secret that a container
-- or init container refers to and that is not marked optional was found in the pod's namespace, and
-- so was every key that is not optional.
pub populate-IsResolved :
    (c : Cluster) (pod : Pod) {after : Pod}
    → (populate_environment_variables c pod).0 ≡ ok after
    → All (IsResolved c pod) pod.spec.init_containers × All (IsResolved c pod) pod.spec.containers
unfolding populate_environment_variables
populate-IsResolved c pod h =
    let (is, p, h') = >>=-eq-ok (populate_containers c pod pod.spec.init_containers) _ h in
    let (cs, q, _) = >>=-eq-ok (populate_containers c pod pod.spec.containers) _ h' in
    (
      containers-IsResolved c pod pod.spec.init_containers p,
      containers-IsResolved c pod pod.spec.containers q,
    )
