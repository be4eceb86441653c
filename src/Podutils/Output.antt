-- ===== src/Podutils/Output.antt =====
-- A computation that records events, and what env.go calls outside of the program.
use native_kubelet.Base.{Str, Bool, List, [], ◌∷◌, ◌++◌}
use native_kubelet.Result.{Result, ok, err, panic}
use native_kubelet.Kube.{ConfigMapOrSecret, Service, FieldSelector, Pod, Event, EventType}

-- A result, and the events that were recorded on the way.
abbrev pub Output : Type 0 → Type 0
Output A = Result A × List Event

infixl 5 ◌>>=◌ ◌>>◌
abbrev pub ◌>>=◌ : {A B : Type 0} → Output A → (A → Output B) → Output B
(ok a, es) >>= f = ((f a).0, es ++ (f a).1)
(err e, es) >>= f = (err e, es)
(panic, es) >>= f = (panic, es)

abbrev pub ◌>>◌ : {B : Type 0} → Output (Unit {0}) → Output B → Output B
m >> k = m >>= λ _. k

abbrev pub pure : {A : Type 0} → A → Output A
pure a = (ok a, [])

-- recorder.Eventf
abbrev pub record_event : EventType → Str → List Str → Output (Unit {0})
record_event t reason args = (ok tt, record { event_type = t; reason = reason; args = args } ∷ [])

-- The listers of the resource manager, the validation and the field paths of Kubernetes.
pub record Cluster : Type 0 where
  -- rm.GetConfigMap, rm.GetSecret: by name and namespace
  pub get_config_map : Str → Str → Result ConfigMapOrSecret
  pub get_secret : Str → Str → Result ConfigMapOrSecret
  pub list_services : Result (List Service)
  -- errors.IsNotFound of an error that a lister returned
  pub is_not_found : native_kubelet.Errdefs.Error → Bool
  -- apivalidation.IsEnvVarName has no complaint
  pub is_env_var_name : Str → Bool
  -- envvars.FromServices
  pub from_services : List Service → List (Str × Str)
  pub default_enable_service_links : Bool
  -- podshelper.ConvertDownwardAPIFieldLabel, fieldpath.ExtractFieldPathAsString
  pub convert_field_label : FieldSelector → Result Str
  pub extract_field_path : Pod → Str → Result Str
  -- ext.GetNodeIPFromEnv
  pub node_ip : Str
  -- the text of a pod phase
  pub phase_text : native_kubelet.Kube.PodPhase → Str
