-- ===== src/Native/Attempts.antt =====
-- A pod with one container: what the attempts to run it leave in the status.
use native_kubelet.Base.{
  ℕ, ◌+◌, ◌^◌, ◌≤◌, ◌<◌, ℤ, pos, negsuc, zero, suc, Str, length, Bool, Bool-cases, false, ◌||◌,
  if◌then◌else◌, some, List, [], ◌∷◌, ◌≡◌, refl, ap, ◌∙◌, inl, inr, arith,
}
use native_kubelet.Result.{Result, ok, ◌>>=◌}
use native_kubelet.Kube.{
  pod_initialized, Container, ContainerStatus, Pod, PodPhase, running, succeeded,
}
use native_kubelet.Native.Status.{
  initial_status, initial_statuses, on_pod_start, increment, run_status, update_at,
  on_container_run, finish_status, is_zero, ended_well, all_ended_well, set_phase, then_set_phase,
  on_finish,
}

-- One run of the only container: its process starts, and ends with the exit code.
pub record Attempt : Type 0 where
  pub code : ℤ
  pub msg : Str
  pub pid : Str
  pub start : ℕ
  pub finish : ℕ

abbrev pub attempt : Attempt → Pod → Result Pod
attempt a pod =
    on_container_run 0 a.pid a.start pod >>= (λ q. on_finish 0 (some a.code) a.msg a.pid a.finish q)

-- The attempts one after another, as the restarts make them.
unfoldable pub attempts : List Attempt → Pod → Result Pod
attempts [] pod = ok pod
attempts (a ∷ rest) pod = attempt a pod >>= (λ q. attempts rest q)

-- A pod with the one container and its status.
unfoldable single : Container → ContainerStatus → Pod → Pod
single c cs pod = record pod {
  spec = record (pod.spec) { init_containers = []; containers = c ∷ [] };
  status = record (pod.status) { init_container_statuses = []; container_statuses = cs ∷ [] };
}

unfoldable pub any_zero : List Attempt → Bool
any_zero [] = false
any_zero (a ∷ rest) = is_zero a.code || any_zero rest

-- The restart count after a number of attempts: it starts at -1.
unfoldable count : ℕ → ℤ
count zero = negsuc 0
count (suc n) = pos n

-- The same pod with one container only.
abbrev pub with_one : Container → Pod → Pod
with_one c pod = record pod {
  spec = record (pod.spec) { init_containers = []; containers = c ∷ [] };
}

-- The pod after one attempt, with the phase that it then has.
abbrev attempted : PodPhase → Pod → Pod
attempted phase pod = record pod {
  status = record (pod.status) { phase = phase; conditions = pod_initialized ∷ [] };
}

attempt_lem :
    (a : Attempt) (c : Container) (cs : ContainerStatus) (pod : Pod)
    → attempt a (single c cs pod)
      ≡ ok (
          single c
            (finish_status (some a.code) a.msg a.pid a.finish (run_status a.start a.pid cs))
            (attempted (if is_zero a.code then succeeded else pod.status.phase) pod))
unfolding single on_container_run update_at run_status on_finish finish_status then_set_phase
    set_phase all_ended_well ended_well
attempt_lem a c cs pod = elim (Bool-cases (is_zero a.code)) [
  | inl e ↦ rw e refl
  | inr e ↦ rw e refl
]

count_lem : (n : ℕ) → n < 2 ^ 31 → increment (count n) ≡ count (suc n)
unfolding increment count
count_lem zero h = refl
count_lem (suc n) h = ground (arith, h)

count-attempt :
    (a : Attempt) (cs : ContainerStatus) (n : ℕ)
    → n < 2 ^ 31
    → cs.restart_count ≡ count n
    → (finish_status (some a.code) a.msg a.pid a.finish (run_status a.start a.pid cs)).restart_count
      ≡ count (suc n)
unfolding finish_status run_status
count-attempt a cs n h e = ap increment e ∙ count_lem n h

attempts_lem :
    (runs : List Attempt) (n : ℕ) (c : Container) (cs : ContainerStatus) (pod : Pod)
    → n + length runs ≤ 2 ^ 31
    → cs.restart_count ≡ count n
    → (cs' : ContainerStatus) × (q : Pod) × (attempts runs (single c cs pod) ≡ ok (single c cs' q))
      × (cs'.restart_count ≡ count (n + length runs))
      × (q.status.phase ≡ (if any_zero runs then succeeded else pod.status.phase))
unfolding attempts any_zero
attempts_lem [] n c cs pod h e = (cs, pod, refl, e ∙ ap count (omega arith), refl)
attempts_lem (a ∷ rest) n c cs pod h e =
    let phase = if is_zero a.code then succeeded else pod.status.phase in
    let (cs', q, ends, restarts, phases) =
      attempts_lem rest (suc n) c
        (finish_status (some a.code) a.msg a.pid a.finish (run_status a.start a.pid cs))
        (attempted phase pod) (omega (arith, h)) (count-attempt a cs n (omega (arith, h)) e) in
    (
      cs',
      q,
      rw (attempt_lem a c cs pod) ends,
      restarts ∙ ap count (omega arith),
      phases ∙ ground arith,
    )

count_first : (n : ℕ) → count (0 + suc n) ≡ pos n
unfolding count
count_first n = ap count (zero_plus n)
  where
    zero_plus : (m : ℕ) → 0 + suc m ≡ suc m
    zero_plus m = omega arith

started_single :
    (qos host_ip : Str) (t : ℕ) (c : Container) (pod : Pod)
    → on_pod_start qos host_ip t (with_one c pod)
      ≡ single c (initial_status c) (on_pod_start qos host_ip t (with_one c pod))
unfolding on_pod_start initial_statuses single
started_single qos host_ip t c pod = refl

-- A pod with one container and no init containers, whose container is run a number of times, once or
-- more and at most 2^31: no event panics, the restart count is one less than the number of runs, and
-- the phase is Succeeded when some run ended with exit code 0, and Running when none did.
pub attempts_counted :
    (qos host_ip : Str) (t : ℕ) (c : Container) (pod : Pod) (first : Attempt) (rest : List Attempt)
    → length (first ∷ rest) ≤ 2 ^ 31
    → (cs : ContainerStatus) × (q : Pod) × (attempts
          (first ∷ rest)
          (on_pod_start qos host_ip t (with_one c pod))
        ≡ ok q)
      × (q.status.container_statuses ≡ cs ∷ [])
      × (cs.restart_count ≡ pos (length rest))
      × (q.status.phase ≡ (if any_zero (first ∷ rest) then succeeded else running))
unfolding single count on_pod_start initial_status
attempts_counted qos host_ip t c pod first rest h =
    let p = on_pod_start qos host_ip t (with_one c pod) in
    let (cs, q, ends, restarts, phases) =
      attempts_lem (first ∷ rest) 0 c (initial_status c) p (omega (arith, h)) refl in
    (
      cs,
      single c cs q,
      ap (attempts (first ∷ rest)) (started_single qos host_ip t c pod) ∙ ends,
      refl,
      restarts ∙ count_first (length rest),
      phases,
    )
