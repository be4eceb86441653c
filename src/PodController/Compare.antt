-- ===== src/PodController/Compare.antt =====
-- The comparisons of pods. `cmp.Equal` of go-cmp is a parameter, one function for each type.
use native_kubelet.Base.{
  ℕ, ◌==◌, Str, str_eq, codes, Dict, Bool, true, false, not, ◌&&◌, ◌||◌, if◌then◌else◌, Option,
  none, some, List, [], ◌∷◌,
}
use native_kubelet.Kube.{Container, ContainerStatus, PodStatus, Pod, succeeded, failed}

pub record Cmp : Type 0 where
  pub equal_seconds : Option ℕ → Option ℕ → Bool
  pub equal_tolerations : List Str → List Str → Bool
  pub equal_maps : Dict Str → Dict Str → Bool
  pub equal_status : PodStatus → PodStatus → Bool
  -- on pods, with the paths to leave out
  pub equal_pods : (Str → Bool) → Pod → Pod → Bool

unfoldable pub image_exists : Str → List Container → Bool
image_exists image [] = false
image_exists image (c2 ∷ cs2) = str_eq image c2.image || image_exists image cs2

unfoldable pub containers_image_equal : List Container → List Container → Bool
unfolding image_exists
containers_image_equal [] cs2 = true
containers_image_equal (c1 ∷ cs1) cs2 =
    let rest = containers_image_equal cs1 cs2 in if image_exists c1.image cs2 then rest else false

-- `old == nil && new == nil`, or both are there and point to the same number.
unfoldable pub delete_grace_time_equal : Option ℕ → Option ℕ → Bool
delete_grace_time_equal none none = true
delete_grace_time_equal (some o) (some n) = o == n
delete_grace_time_equal _ _ = false

-- The method Equal of *metav1.Time.
abbrev pub time_equal : Option ℕ → Option ℕ → Bool
time_equal none none = true
time_equal (some s) (some t) = s == t
time_equal _ _ = false

unfoldable pub filter_for_resource_version : Str → Bool
filter_for_resource_version p =
    if str_eq p (codes "ObjectMeta.ResourceVersion")
    then true
    else if str_eq p (codes "Status")
    then true
    else false

unfoldable pub should_skip_pod_status_update : Pod → Bool
should_skip_pod_status_update pod = elim pod.status.phase [
  | succeeded ↦ true
  | failed ↦ true
  | _ ↦ false
]

abbrev pub is_running_status : ContainerStatus → Bool
is_running_status status = elim status.state.terminated [
  | none ↦ elim status.state.waiting [ none ↦ true | some w ↦ false ]
  | some t ↦ false
]

unfoldable pub running_statuses : List ContainerStatus → Bool
running_statuses [] = false
running_statuses (status ∷ statuses) =
    let rest = running_statuses statuses in if is_running_status status then true else rest

-- `running` of podcontroller.go
unfoldable pub is_running : PodStatus → Bool
unfolding running_statuses
is_running pod_status = running_statuses pod_status.container_statuses

module _ (cmp : Cmp) where
  open cmp use {equal_seconds, equal_tolerations, equal_maps, equal_pods}

  unfoldable pub pods_equal : Pod → Pod → Bool
  unfolding containers_image_equal
  pods_equal pod1 pod2 =
      containers_image_equal pod1.spec.containers pod2.spec.containers
      && (containers_image_equal pod1.spec.init_containers pod2.spec.init_containers
          && (equal_seconds pod1.spec.active_deadline_seconds pod2.spec.active_deadline_seconds
              && (equal_tolerations pod1.spec.tolerations pod2.spec.tolerations
                  && (equal_maps pod1.metadata.labels pod2.metadata.labels
                      && equal_maps pod1.metadata.annotations pod2.metadata.annotations))))

  unfoldable pub pod_should_enqueue : Pod → Pod → Bool
  unfolding pods_equal delete_grace_time_equal
  pod_should_enqueue old_pod new_pod =
      if not (pods_equal old_pod new_pod)
      then true
      else if not (
          delete_grace_time_equal old_pod.metadata.deletion_grace_period_seconds
            new_pod.metadata.deletion_grace_period_seconds)
      then true
      else if not
          (time_equal old_pod.metadata.deletion_timestamp new_pod.metadata.deletion_timestamp)
      then true
      else false

  unfoldable pub pods_effectively_equal : Pod → Pod → Bool
  unfolding filter_for_resource_version
  pods_effectively_equal p1 p2 = equal_pods filter_for_resource_version p1 p2
