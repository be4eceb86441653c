-- ===== src/Kube.antt =====
-- The Kubernetes API objects (k8s.io/api/core/v1), as far as the program reads or writes their
-- fields. A time is a number of seconds, a pointer to a value is an `Option`.
use native_kubelet.Base.{ℕ, ℤ, Str, Dict, Bool, Option, List}

pub record ConfigMapOrSecret : Type 0 where
  pub namespace : Str
  pub name : Str
  pub entries : Dict Str  -- Data

pub record Service : Type 0 where
  pub namespace : Str
  pub name : Str
  pub cluster_ip_set : Bool  -- v1helper.IsServiceIPSet
  pub rest : Str

-- ConfigMapKeySelector, SecretKeySelector
pub record KeySelector : Type 0 where
  pub name : Str
  pub key : Str
  pub optional : Option Bool

pub record FieldSelector : Type 0 where
  pub api_version : Str
  pub field_path : Str

pub record EnvVarSource : Type 0 where
  pub config_map_key_ref : Option KeySelector
  pub secret_key_ref : Option KeySelector
  pub field_ref : Option FieldSelector
  pub resource_field_ref : Option Str

pub record EnvVar : Type 0 where
  pub name : Str
  pub value : Str
  pub value_from : Option EnvVarSource

-- ConfigMapEnvSource, SecretEnvSource
pub record SourceRef : Type 0 where
  pub name : Str
  pub optional : Option Bool

pub record EnvFromSource : Type 0 where
  pub prefix : Str
  pub config_map_ref : Option SourceRef
  pub secret_ref : Option SourceRef

pub record Container : Type 0 where
  pub name : Str
  pub image : Str
  pub env : List EnvVar
  pub env_from : List EnvFromSource
  pub rest : Str

pub data RestartPolicy : Type 0 where
  always on_failure never : RestartPolicy

pub data PodPhase : Type 0 where
  unset pending running succeeded failed unknown : PodPhase

pub record Terminated : Type 0 where
  pub exit_code : ℤ
  pub reason : Str
  pub message : Str
  pub started_at : ℕ
  pub finished_at : ℕ
  pub container_id : Str

pub record ContainerState : Type 0 where
  pub waiting : Option Str
  pub running : Option ℕ  -- StartedAt
  pub terminated : Option Terminated

pub record ContainerStatus : Type 0 where
  pub name : Str
  pub state : ContainerState
  pub last_termination_state : ContainerState
  pub ready : Bool
  pub restart_count : ℤ
  pub image : Str
  pub image_id : Str
  pub container_id : Str
  pub started : Option Bool

-- PodInitialized, PodReady, PodScheduled, each with the status True
pub data PodCondition : Type 0 where
  pod_initialized pod_ready pod_scheduled : PodCondition

pub record PodStatus : Type 0 where
  pub phase : PodPhase
  pub reason : Str
  pub message : Str
  pub host_ip : Str
  pub pod_ip : Str
  pub pod_ips : List Str
  pub start_time : Option ℕ
  pub conditions : List PodCondition
  pub init_container_statuses : List ContainerStatus
  pub container_statuses : List ContainerStatus
  pub qos_class : Str

pub record PodSpec : Type 0 where
  pub init_containers : List Container
  pub containers : List Container
  pub active_deadline_seconds : Option ℕ
  pub tolerations : List Str
  pub restart_policy : RestartPolicy
  pub node_name : Str
  pub service_account_name : Str
  pub enable_service_links : Option Bool
  pub termination_grace_period_seconds : Option ℕ

pub record ObjectMeta : Type 0 where
  pub namespace : Str
  pub name : Str
  pub uid : Str
  pub resource_version : Str
  pub labels : Dict Str
  pub annotations : Dict Str
  pub creation_timestamp : ℕ
  pub deletion_timestamp : Option ℕ
  pub deletion_grace_period_seconds : Option ℕ

pub record Pod : Type 0 where
  pub metadata : ObjectMeta
  pub spec : PodSpec
  pub status : PodStatus

pub data EventType : Type 0 where
  normal warning : EventType

-- An event that the recorder is given: its type, its reason and what its message names.
pub record Event : Type 0 where
  pub event_type : EventType
  pub reason : Str
  pub args : List Str

pub record OwnerReference : Type 0 where
  pub api_version : Str
  pub kind : Str
  pub name : Str
  pub uid : Str

pub record NodeCondition : Type 0 where
  pub condition_type : Str
  pub status : Str
  pub last_heartbeat_time : ℕ
  pub rest : Str

pub record NodeStatus : Type 0 where
  pub conditions : List NodeCondition
  pub rest : Str

pub record Taint : Type 0 where
  pub key : Str
  pub value : Str
  pub effect : Str

pub record Node : Type 0 where
  pub metadata : ObjectMeta
  pub taints : List Taint
  pub status : NodeStatus
