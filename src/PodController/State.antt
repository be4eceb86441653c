-- ===== src/PodController/State.antt =====
-- The state of the controller and what it calls. A *knownPod is an index into the heap, so that
-- the map and a handler that loaded an entry share it.
use native_kubelet.Base.{
  ℕ, Str, Dict, lookup, insert, length, get_elem?, set, Bool, false, Option, none, some, List, [],
  ◌∷◌, ◌++◌,
}
use native_kubelet.Result.{Result}
use native_kubelet.Errdefs.{Error}
use native_kubelet.Kube.{Pod, Event, EventType}
use native_kubelet.Podutils.{Cluster}
use native_kubelet.PodController.Compare.{Cmp}

pub record KnownPod : Type 0 where
  pub last_pod_status_received_from_provider : Option Pod
  pub last_pod_used : Option Pod
  pub last_pod_status_update_skipped : Bool

-- &knownPod{}
abbrev pub new_known_pod : KnownPod
new_known_pod = record {
  last_pod_status_received_from_provider = none;
  last_pod_used = none;
  last_pod_status_update_skipped = false;
}

pub data QueueName : Type 0 where
  sync_pods_from_kubernetes delete_pods_from_kubernetes sync_pod_status_from_provider : QueueName

-- The calls of the three queues, in order.
pub data QueueOp : Type 0 where
  enqueue enqueue_without_rate_limit forget : QueueName → Str → QueueOp
  enqueue_after : QueueName → Str → ℕ → QueueOp

-- The world outside: the provider, the API server, the informer's cache and the clock.
pub record Services (W : Type 0) : Type 0 where
  -- PodLifecycleHandler
  pub create_pod : W → Pod → W × Option Error
  pub update_pod : W → Pod → W × Option Error
  pub delete_pod : W → Pod → W × Option Error
  pub get_pod : W → Str → Str → Option Pod × Option Error
  pub get_pods : W → Result (List Pod)
  -- syncWrapper; it does nothing for a provider that is none
  pub delete_pod_key : W → Str → W
  -- podsLister, by namespace and name
  pub lister_get : W → Str → Str → Result Pod
  -- the client of the API server; Delete takes the grace period
  pub update_status : W → Pod → W × Option Error
  pub delete_from_kubernetes : W → Str → Str → Option ℕ → W × Option Error
  pub now : W → ℕ
  -- errors.IsNotFound of k8s.io/apimachinery
  pub api_is_not_found : Error → Bool
  pub error_text : Error → Str
  -- the key functions of client-go's cache
  pub meta_namespace_key : Pod → Result Str
  pub deletion_handling_meta_namespace_key : Pod → Result Str
  pub split_meta_namespace_key : Str → Result (Str × Str)
  pub cmp : Cmp
  pub cluster : Cluster

pub record State (W : Type 0) : Type 0 where
  pub world : W
  pub known_pods : Dict ℕ
  pub heap : List KnownPod
  pub ops : List QueueOp
  pub events : List Event

module _ {W : Type 0} where
  -- knownPods.Store(key, &knownPod{})
  unfoldable pub store_new : Str → State W → State W
  unfolding insert
  store_new key s = record s {
    known_pods = insert key (length s.heap) s.known_pods;
    heap = s.heap ++ new_known_pod ∷ [];
  }

  -- knownPods.Load(key), and what the pointer points to
  unfoldable pub load : Str → State W → Option (ℕ × Option KnownPod)
  unfolding lookup
  load key s = elim (lookup key s.known_pods) [
    | none ↦ none
    | some p ↦ some (p, get_elem? s.heap p)
  ]

  -- A write through the pointer.
  unfoldable pub write : ℕ → KnownPod → State W → State W
  write p k s = record s { heap = set s.heap p k }

  unfoldable pub queue_op : QueueOp → State W → State W
  queue_op op s = record s { ops = s.ops ++ op ∷ [] }

  -- recorder.Event
  unfoldable pub record_event : EventType → Str → List Str → State W → State W
  record_event t reason args s = record s {
    events = s.events ++ record { event_type = t; reason = reason; args = args } ∷ [];
  }
