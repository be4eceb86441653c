-- ===== src/Native/Keeps.antt =====
-- The handlers keep one status for each container.
use native_kubelet.Base.{
  ℕ, ◌+◌, ◌==◌, ltb, ℤ, Str, length, length-set, get_elem?, Bool, Bool-cases, true, false,
  if◌then◌else◌, Option, none, some, List, ◌≡◌, refl, ◌∙◌, inl, inr,
}
use native_kubelet.Result.{Result, ok, err, panic, Holds}
use native_kubelet.Kube.{Pod, ContainerStatus}
use native_kubelet.Native.Status.{
  on_pod_start, run_status, update_at, with_init_statuses, with_statuses, add_ready,
  on_container_run, finish_status, is_zero, all_ended_well, set_phase, then_set_phase, exit_code,
  initialized, on_finish, on_download_resource, ProcessEvent, pod_process_start,
  container_process_run, container_process_finish, download_resource, handle,
}
use native_kubelet.Native.Sized.{IsSized, on_pod_start-IsSized}

-- A pod with the metadata and spec of another, and with one status for each container.
pub record IsSizedLike (pod q : Pod) : Type 0 where
  pub sized : IsSized q
  pub spec : q.spec ≡ pod.spec
  pub metadata : q.metadata ≡ pod.metadata

if-Holds :
    (P : Pod → Type 0) (b : Bool) (x y : Result Pod)
    → Holds P x
    → Holds P y
    → Holds P (if b then x else y)
if-Holds P true x y p q = p
if-Holds P false x y p q = q

option-Holds :
    (P : List ContainerStatus → Type 0) (o : Option ContainerStatus)
    (f : ContainerStatus → Result (List ContainerStatus))
    → ((c : ContainerStatus) → Holds P (f c))
    → Holds P (elim o [ none ↦ panic | some c ↦ f c ])
option-Holds P none f h = tt
option-Holds P (some c) f h = h c

update_at-Holds :
    (read write : ℕ) (f : ContainerStatus → ContainerStatus) (css : List ContainerStatus)
    → Holds (λ (css' : List ContainerStatus). length css' ≡ length css) (update_at read write f css)
unfolding update_at
update_at-Holds read write f css =
    option-Holds (λ (css' : List ContainerStatus). length css' ≡ length css) (get_elem? css read) _
      (λ c. elim (Bool-cases (ltb write (length css))) [
        | inl e ↦ rw e (length-set css write (f c))
        | inr e ↦ rw e tt
      ])

inits-Holds :
    (pod : Pod) (r : Result (List ContainerStatus))
    → IsSized pod
    → Holds
        (λ (css : List ContainerStatus). length css ≡ length pod.status.init_container_statuses)
        r
    → Holds (IsSizedLike pod) (with_init_statuses pod r)
inits-Holds pod (ok css) h e = record {
  sized = record { inits = e ∙ h.inits; mains = h.mains };
  spec = refl;
  metadata = refl;
}
inits-Holds pod (err x) h e = tt
inits-Holds pod panic h e = tt

mains-Holds :
    (pod q : Pod) (r : Result (List ContainerStatus))
    → IsSizedLike pod q
    → Holds (λ (css : List ContainerStatus). length css ≡ length q.status.container_statuses) r
    → Holds (IsSizedLike pod) (with_statuses q r)
mains-Holds pod q (ok css) h e = record {
  sized = record { inits = h.sized.inits; mains = e ∙ h.sized.mains };
  spec = h.spec;
  metadata = h.metadata;
}
mains-Holds pod q (err x) h e = tt
mains-Holds pod q panic h e = tt

if-IsSizedLike :
    {pod : Pod} (b : Bool) {x y : Pod}
    → IsSizedLike pod x
    → IsSizedLike pod y
    → IsSizedLike pod (if b then x else y)
if-IsSizedLike true p q = p
if-IsSizedLike false p q = q

ready-Holds :
    (pod : Pod) (index : ℕ) (r : Result Pod)
    → Holds (IsSizedLike pod) r
    → Holds (IsSizedLike pod) (add_ready index r)
ready-Holds pod index (ok q) h =
    if-IsSizedLike (index + 1 == length q.spec.containers + length q.spec.init_containers)
      (record {
        sized = record { inits = h.sized.inits; mains = h.sized.mains };
        spec = h.spec;
        metadata = h.metadata;
      })
      h
ready-Holds pod index (err e) h = tt
ready-Holds pod index panic h = tt

set_phase-IsSizedLike :
    (pod : Pod) (code : ℤ) (q : Pod) → IsSizedLike pod q → IsSizedLike pod (set_phase code q)
unfolding set_phase
set_phase-IsSizedLike pod code q h =
    if-IsSizedLike (is_zero code)
      (if-IsSizedLike (all_ended_well q.status.init_container_statuses)
        (if-IsSizedLike (all_ended_well q.status.container_statuses)
          (record {
            sized = record { inits = h.sized.inits; mains = h.sized.mains };
            spec = h.spec;
            metadata = h.metadata;
          })
          h)
        h)
      h

phase-Holds :
    (pod : Pod) (code : ℤ) (r : Result Pod)
    → Holds (IsSizedLike pod) r
    → Holds (IsSizedLike pod) (then_set_phase code r)
unfolding then_set_phase
phase-Holds pod code (ok q) h = set_phase-IsSizedLike pod code q h
phase-Holds pod code (err e) h = tt
phase-Holds pod code panic h = tt

-- For a pod with one status for each container and init container: every event that the handlers
-- survive leaves the metadata and the spec of the pod as they are, and one status for each
-- container and init container.
pub handle-IsSizedLike :
    (qos host_ip : Str) (event : ProcessEvent) (pod : Pod)
    → IsSized pod
    → Holds (IsSizedLike pod) (handle qos host_ip event pod)
unfolding handle on_container_run on_finish on_pod_start on_download_resource
handle-IsSizedLike qos host_ip (pod_process_start t) pod h = record {
  sized = on_pod_start-IsSized qos host_ip t pod;
  spec = refl;
  metadata = refl;
}
handle-IsSizedLike qos host_ip (container_process_run index pid t) pod h = ready-Holds pod index _ (
    if-Holds (IsSizedLike pod) (ltb (length pod.spec.init_containers) index) _ _
      (inits-Holds pod _ h
        (update_at-Holds index index (run_status t pid) pod.status.init_container_statuses))
      (if-Holds (IsSizedLike pod) (ltb index (length pod.spec.init_containers)) panic _ tt (
        mains-Holds pod pod _ (record { sized = h; spec = refl; metadata = refl })
          (update_at-Holds 0 index (run_status t pid) pod.status.container_statuses))))
handle-IsSizedLike qos host_ip (container_process_finish index state msg pid t) pod h =
    phase-Holds pod (exit_code state) _ (
      if-Holds (IsSizedLike pod) (ltb (length pod.spec.init_containers) index) _ _
        (inits-Holds pod _ h (
          update_at-Holds index index (finish_status state msg pid t)
            pod.status.init_container_statuses))
        (if-Holds (IsSizedLike pod) (ltb index (length pod.spec.init_containers)) panic _ tt (
          mains-Holds pod (initialized pod) _
            (record {
              sized = record { inits = h.inits; mains = h.mains };
              spec = refl;
              metadata = refl;
            })
            (update_at-Holds 0 0 (finish_status state msg pid t) pod.status.container_statuses))))
handle-IsSizedLike qos host_ip (download_resource none) pod h = record {
  sized = h;
  spec = refl;
  metadata = refl;
}
handle-IsSizedLike qos host_ip (download_resource (some e)) pod h = record {
  sized = record { inits = h.inits; mains = h.mains };
  spec = refl;
  metadata = refl;
}
