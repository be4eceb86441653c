-- ===== src/Podutils/Total.antt =====
-- env.go does not panic.
use native_kubelet.Base.{
  Str, Dict, Bool, true, false, Option, none, some, List, [], ◌∷◌, ◌≡◌, refl, arith,
}
use native_kubelet.Expansion.{mapping_func_for}
use native_kubelet.Expansion.Correct.{expand-Expands}
use native_kubelet.Result.{Result, ok, err, panic}
use native_kubelet.Kube.{
  ConfigMapOrSecret, FieldSelector, KeySelector, EnvVarSource, EnvVar, EnvFromSource, SourceRef,
  Container, Pod,
}
use native_kubelet.Podutils.Output.{Output, ◌>>=◌, pure, Cluster}
use native_kubelet.Podutils.Sources.{
  SourceKind, config_map, secret, get_source, copy_keys, source_found, report_invalid,
  env_from_case, env_from_loop, make_environment_map_based_on_env_from, get_service_env_var_map,
}
use native_kubelet.Podutils.Values.{
  key_source_found, runtime_value_at, pod_field_selector_runtime_value, value_from_case, value_of,
  get_environment_variable_value,
}
use native_kubelet.Podutils.Populate.{
  set_value, env_loop, make_environment_map, populate_container_environment, populate_containers,
  populate_environment_variables,
}

abbrev pub panics : {A : Type 0} → Result A → Bool
panics (ok a) = false
panics (err e) = false
panics panic = true

-- The listers and the field paths do not panic.
pub record IsCalm (c : Cluster) : Type 0 where
  pub config_maps : (name namespace : Str) → panics (c.get_config_map name namespace) ≡ false
  pub secrets : (name namespace : Str) → panics (c.get_secret name namespace) ≡ false
  pub services : panics c.list_services ≡ false
  pub labels : (fs : FieldSelector) → panics (c.convert_field_label fs) ≡ false
  pub paths : (pod : Pod) (path : Str) → panics (c.extract_field_path pod path) ≡ false

>>=-panics :
    {A B : Type 0} (m : Output A) (f : A → Output B)
    → panics m.0 ≡ false
    → ((a : A) → panics (f a).0 ≡ false)
    → panics (m >>= f).0 ≡ false
>>=-panics (ok a, es) f h k = k a
>>=-panics (err e, es) f h k = refl
>>=-panics (panic, es) f h k = h

module _ (c : Cluster) (calm : IsCalm c) where
  get_source-panics : (kind : SourceKind) (a b : Str) → panics (get_source c kind a b) ≡ false
  unfolding get_source
  get_source-panics config_map a b = calm.config_maps a b
  get_source-panics secret a b = calm.secrets a b

  report-panics : (m : ConfigMapOrSecret) (ks : List Str) → panics (report_invalid c m ks).0 ≡ false
  unfolding report_invalid
  report-panics m [] = refl
  report-panics m (k ∷ ks) = refl

  source-panics :
      (kind : SourceKind) (prefix : Str) (ef : SourceRef) (res : Dict Str)
      (r : Result ConfigMapOrSecret)
      → panics r ≡ false
      → panics (source_found c kind prefix ef res r).0 ≡ false
  unfolding source_found
  source-panics kind prefix ef res (ok m) h =
      let (res', ks) = copy_keys c prefix m.entries res [] in
      >>=-panics (report_invalid c m ks) (λ _. pure res') (report-panics m ks) (λ a. refl)
  source-panics kind prefix ef res (err e) h = ground arith
  source-panics kind prefix ef res panic h = h

  case-panics :
      (ns : Str) (from : EnvFromSource) (cm s : Option SourceRef) (res : Dict Str)
      → panics (env_from_case c ns from cm s res).0 ≡ false
  unfolding env_from_case
  case-panics ns from (some ef) s res =
      source-panics config_map from.prefix ef res _ (get_source-panics config_map ef.name ns)
  case-panics ns from none (some ef) res =
      source-panics secret from.prefix ef res _ (get_source-panics secret ef.name ns)
  case-panics ns from none none res = refl

  env_from-panics :
      (ns : Str) (froms : List EnvFromSource) (res : Dict Str)
      → panics (env_from_loop c ns froms res).0 ≡ false
  unfolding env_from_loop
  env_from-panics ns [] res = refl
  env_from-panics ns (from ∷ froms) res =
      >>=-panics (env_from_case c ns from from.config_map_ref from.secret_ref res) _
        (case-panics ns from from.config_map_ref from.secret_ref res)
        (λ m. env_from-panics ns froms m)

module _ (c : Cluster) (calm : IsCalm c) (pod : Pod) where
  key-panics :
      (kind : SourceKind) (env : EnvVar) (vf : KeySelector) (r : Result ConfigMapOrSecret)
      → panics r ≡ false
      → panics (key_source_found c pod kind env vf r).0 ≡ false
  unfolding key_source_found
  key-panics kind env vf (ok m) h = ground arith
  key-panics kind env vf (err e) h = ground arith
  key-panics kind env vf panic h = h

  runtime_value-panics : (path : Str) → panics (runtime_value_at c pod path).0 ≡ false
  unfolding runtime_value_at
  runtime_value-panics path = ground (arith, calm.paths pod path)

  value_case-panics :
      (env : EnvVar) (cm s : Option KeySelector) (f : Option FieldSelector)
      → panics (value_from_case c pod env cm s f).0 ≡ false
  unfolding value_from_case
  value_case-panics env (some vf) s f =
      key-panics config_map env vf _
        (get_source-panics c calm config_map vf.name pod.metadata.namespace)
  value_case-panics env none (some vf) f =
      key-panics secret env vf _ (get_source-panics c calm secret vf.name pod.metadata.namespace)
  value_case-panics env none none (some fs) =
      >>=-panics (pod_field_selector_runtime_value c pod fs) _
        (>>=-panics (c.convert_field_label fs, []) _ (calm.labels fs) runtime_value-panics)
        (λ s. refl)
  value_case-panics env none none none = refl

  value-panics :
      (env : EnvVar) (f : Str → Str) (from : Option EnvVarSource)
      → panics (value_of c pod env f from).0 ≡ false
  unfolding value_of
  value-panics env f (some from) =
      value_case-panics env from.config_map_key_ref from.secret_key_ref from.field_ref
  value-panics env f none = let (s, _, e) = expand-Expands env.value f in rw e

  env-panics :
      (svc_env : Dict Str) (envs : List EnvVar) (res : Dict Str)
      → panics (env_loop c pod svc_env envs res).0 ≡ false
  unfolding env_loop get_environment_variable_value
  env-panics svc_env [] res = refl
  env-panics svc_env (e ∷ es) res =
      let f = mapping_func_for (res ∷ svc_env ∷ []) in
      >>=-panics (value_of c pod e f e.value_from) _ (value-panics e f e.value_from)
        (λ val. env-panics svc_env es (set_value e.name val res))

  service-panics :
      (links : Bool) → panics (get_service_env_var_map c pod.metadata.namespace links).0 ≡ false
  unfolding get_service_env_var_map
  service-panics links = >>=-panics (c.list_services, []) _ calm.services (λ s. refl)

  container-panics :
      (container : Container) → panics (populate_container_environment c pod container).0 ≡ false
  unfolding populate_container_environment make_environment_map
      make_environment_map_based_on_env_from
  container-panics container =
      >>=-panics (make_environment_map_based_on_env_from c pod container) _
        (env_from-panics c calm pod.metadata.namespace container.env_from [])
        (λ m.
          >>=-panics (make_environment_map c pod container m) _
            (>>=-panics (get_service_env_var_map c pod.metadata.namespace _) _ (service-panics _)
              (λ svc.
                >>=-panics (env_loop c pod svc container.env m) _ (env-panics svc container.env m)
                  (λ r. refl)))
            (λ r. refl))

  containers-panics :
      (containers : List Container) → panics (populate_containers c pod containers).0 ≡ false
  unfolding populate_containers
  containers-panics [] = refl
  containers-panics (x ∷ xs) =
      >>=-panics (populate_container_environment c pod x) _ (container-panics x)
        (λ x'. >>=-panics (populate_containers c pod xs) _ (containers-panics xs) (λ r. refl))

-- With listers and field paths that do not panic, PopulateEnvironmentVariables returns: it gives a
-- pod or an error, for every pod.
pub populate_total :
    (c : Cluster) (pod : Pod) → IsCalm c → panics (populate_environment_variables c pod).0 ≡ false
unfolding populate_environment_variables
populate_total c pod calm =
    >>=-panics (populate_containers c pod pod.spec.init_containers) _
      (containers-panics c calm pod pod.spec.init_containers)
      (λ is.
        >>=-panics (populate_containers c pod pod.spec.containers) _
          (containers-panics c calm pod pod.spec.containers) (λ cs. refl))
