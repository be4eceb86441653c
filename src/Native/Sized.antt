-- ===== src/Native/Sized.antt =====
-- Which events the handlers survive, and what the attempts to run one container leave in the status.
use native_kubelet.Base.{
  ℕ, ◌==◌, ◌≤◌, ltb, ℤ, zero, suc, Str, length, length-set, get_elem?, get_elem?-some, set, Bool,
  Bool-cases, true, not, ◌&&◌, if◌then◌else◌, Option, Option-cases, none, some, List, [], ◌∷◌, ◌≡◌,
  refl, ap, ◌∙◌, inl, inr, arith,
}
use native_kubelet.Result.{Result, ok, err, panic, ok-injective}
use native_kubelet.Kube.{Container, Pod, ContainerStatus}
use native_kubelet.Podutils.Total.{panics}
use native_kubelet.Native.Status.{
  initial_statuses, on_pod_start, run_status, update_at, with_init_statuses, with_statuses,
  add_ready, on_container_run, finish_status, then_set_phase, exit_code, initialized, on_finish,
}

-- There is one status for each container of the spec.
pub record IsSized (pod : Pod) : Type 0 where
  pub inits : length pod.status.init_container_statuses ≡ length pod.spec.init_containers
  pub mains : length pod.status.container_statuses ≡ length pod.spec.containers

length-initial_statuses : (cs : List Container) → length (initial_statuses cs) ≡ length cs
unfolding initial_statuses
length-initial_statuses [] = refl
length-initial_statuses (c ∷ cs) = ap suc (length-initial_statuses cs)

pub on_pod_start-IsSized :
    (qos host_ip : Str) (t : ℕ) (pod : Pod) → IsSized (on_pod_start qos host_ip t pod)
unfolding on_pod_start
on_pod_start-IsSized qos host_ip t pod = record {
  inits = length-initial_statuses pod.spec.init_containers;
  mains = length-initial_statuses pod.spec.containers;
}

get_elem?-beyond : (css : List ContainerStatus) (i : ℕ) → length css ≤ i → get_elem? css i ≡ none
get_elem?-beyond [] i h = refl
get_elem?-beyond (c ∷ css) zero h = absurd (omega arith)
get_elem?-beyond (c ∷ css) (suc i) h = get_elem?-beyond css i (omega arith)

update_at-panics :
    (read write : ℕ) (f : ContainerStatus → ContainerStatus) (css : List ContainerStatus)
    → panics (update_at read write f css) ≡ not (ltb read (length css) && ltb write (length css))
unfolding update_at
update_at-panics read write f css = elim (Bool-cases (ltb read (length css))) [
  | inl e ↦ let (c, g) = get_elem?-some css read (ground (arith, e)) in ground (arith, e, g)
  | inr e ↦ ground (arith, e, get_elem?-beyond css read (ground (arith, e)))
]

update_at-written :
    (read write : ℕ) (f : ContainerStatus → ContainerStatus) (css : List ContainerStatus)
    (c : ContainerStatus)
    → get_elem? css read ≡ some c
    → ltb write (length css) ≡ true
    → ok (set css write (f c)) ≡ update_at read write f css
unfolding update_at
update_at-written read write f css c e w = ground (arith, e, w)

update_at-length :
    (read write : ℕ) (f : ContainerStatus → ContainerStatus) (css css' : List ContainerStatus)
    → update_at read write f css ≡ ok css'
    → length css' ≡ length css
unfolding update_at
update_at-length read write f css css' h = elim (Option-cases (get_elem? css read)) [
  | inl e ↦ absurd (ground (arith, h, e))
  | inr (c, e) ↦ elim (Bool-cases (ltb write (length css))) [
    | inl w ↦
        rw (← ok-injective (update_at-written read write f css c e w ∙ h))
          (length-set css write (f c))
    | inr w ↦ absurd (ground (arith, h, e, w))
  ]
]

add_ready-panics : (index : ℕ) (r : Result Pod) → panics (add_ready index r) ≡ panics r
add_ready-panics index (ok pod) = refl
add_ready-panics index (err e) = refl
add_ready-panics index panic = refl

set_phase-panics : (code : ℤ) (r : Result Pod) → panics (then_set_phase code r) ≡ panics r
unfolding then_set_phase
set_phase-panics code (ok pod) = refl
set_phase-panics code (err e) = refl
set_phase-panics code panic = refl

inits-panics :
    (pod : Pod) (r : Result (List ContainerStatus)) → panics (with_init_statuses pod r) ≡ panics r
inits-panics pod (ok css) = refl
inits-panics pod (err e) = refl
inits-panics pod panic = refl

mains-panics :
    (pod : Pod) (r : Result (List ContainerStatus)) → panics (with_statuses pod r) ≡ panics r
mains-panics pod (ok css) = refl
mains-panics pod (err e) = refl
mains-panics pod panic = refl

-- The choice of both handlers.
choose-panics :
    (i n : ℕ) (a b : Result Pod)
    → panics (if ltb n i then a else if ltb i n then panic else b)
      ≡ (if ltb n i then panics a else if ltb i n then true else panics b)
choose-panics i n a b = elim (Bool-cases (ltb n i)) [
  | inl e ↦ rw e refl
  | inr e ↦ elim (Bool-cases (ltb i n)) [ inl f ↦ rw (e, f) refl | inr f ↦ rw (e, f) refl ]
]

choose_lem :
    (i n w m : ℕ) (a b : Bool)
    → a ≡ not (ltb i n && ltb i n)
    → b ≡ not (ltb 0 m && ltb w m)
    → (if ltb n i then a else if ltb i n then true else b) ≡ not (i == n && (ltb 0 m && ltb w m))
choose_lem i n w m a b p q = ground (arith, p, q)

both : (i n m : ℕ) → not (i == n && (ltb 0 m && ltb i m)) ≡ not (i == n && ltb i m)
both i n m = ground arith

twice : (i n m : ℕ) → not (i == n && (ltb 0 m && ltb 0 m)) ≡ not (i == n && ltb 0 m)
twice i n m = ground arith

-- With one status for each container: OnContainerRun panics exactly when the event is not of the
-- first container after the init containers, or when its index in the chain is not below the number
-- of containers. So it panics for every init container and for every container but the first.
pub on_container_run-panics :
    (index : ℕ) (pid : Str) (t : ℕ) (pod : Pod)
    → IsSized pod
    → panics (on_container_run index pid t pod)
      ≡ not (index == length pod.spec.init_containers && ltb index (length pod.spec.containers))
unfolding on_container_run
on_container_run-panics index pid t pod h =
    add_ready-panics index _
    ∙ (choose-panics index (length pod.spec.init_containers) _ _
        ∙ (choose_lem index (length pod.spec.init_containers) index (length pod.spec.containers) _ _
              (inits-panics pod _
                ∙ (update_at-panics index index (run_status t pid)
                      pod.status.init_container_statuses
                    ∙ ap (λ n. not (ltb index n && ltb index n)) h.inits))
              (mains-panics pod _
                ∙ (update_at-panics 0 index (run_status t pid) pod.status.container_statuses
                    ∙ ap (λ n. not (ltb 0 n && ltb index n)) h.mains))
            ∙ both index (length pod.spec.init_containers) (length pod.spec.containers)))

-- With one status for each container: OnFinish panics exactly when the event is not of the first
-- container after the init containers, or when there are no containers.
pub on_finish-panics :
    (index : ℕ) (state : Option ℤ) (msg pid : Str) (t : ℕ) (pod : Pod)
    → IsSized pod
    → panics (on_finish index state msg pid t pod)
      ≡ not (index == length pod.spec.init_containers && ltb 0 (length pod.spec.containers))
unfolding on_finish
on_finish-panics index state msg pid t pod h =
    set_phase-panics (exit_code state) _
    ∙ (choose-panics index (length pod.spec.init_containers) _ _
        ∙ (choose_lem index (length pod.spec.init_containers) 0 (length pod.spec.containers) _ _
              (inits-panics pod _
                ∙ (update_at-panics index index (finish_status state msg pid t)
                      pod.status.init_container_statuses
                    ∙ ap (λ n. not (ltb index n && ltb index n)) h.inits))
              (mains-panics (initialized pod) _
                ∙ (update_at-panics 0 0 (finish_status state msg pid t)
                      pod.status.container_statuses
                    ∙ ap (λ n. not (ltb 0 n && ltb 0 n)) h.mains))
            ∙ twice index (length pod.spec.init_containers) (length pod.spec.containers)))
