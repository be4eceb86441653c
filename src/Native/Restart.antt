-- ===== src/Native/Restart.antt =====
-- When startContainerDaemon runs a container again.
use native_kubelet.Base.{
  str_eq, str_eq_iff, Bool-cases, true, false, is_some, ◌≡◌, ◌↔◌, refl, inl, inr, arith,
}
use native_kubelet.Result.{Result, ok, err, panic}
use native_kubelet.Kube.{Pod, RestartPolicy, always, on_failure, never}
use native_kubelet.Native.Process.{
  ContainerProcess, PodProcess, Found, found, key_not_found, failed, get_pod, Finish, is_success,
  policy_restarts, restarts,
}

-- The policy wants a container that ended so to run again.
pub data Allows : RestartPolicy → Finish → Type 0 where
  by_always : {f : Finish} → Allows always f
  by_error : {f : Finish} → is_some f.error ≡ true → Allows on_failure f
  by_state : {f : Finish} → is_success f.success ≡ false → Allows on_failure f

pub record ShouldRestart (p : PodProcess) (cp : ContainerProcess) (f : Finish) (db : Found)
    (listed : Result Pod) : Type 0 where
  pub unsynced : cp.is_sync ≡ false
  pub stored : PodProcess
  pub in_db : db ≡ found stored
  pub unmarked : is_some stored.pod.metadata.deletion_timestamp ≡ false
  pub cached : Pod
  pub in_cache : listed ≡ ok cached
  pub same_uid : stored.pod.metadata.uid ≡ cached.metadata.uid
  pub allowed : Allows p.pod.spec.restart_policy f

policy_sound :
    (policy : RestartPolicy) (f : Finish) → policy_restarts policy f ≡ true → Allows policy f
unfolding policy_restarts
policy_sound always f h = by_always
policy_sound never f h = absurd (ground arith)
policy_sound on_failure f h = elim (Bool-cases (is_some f.error)) [
  | inl e ↦ by_error e
  | inr e ↦ by_state (ground (arith, h, e))
]

policy_complete :
    (policy : RestartPolicy) (f : Finish) → Allows policy f → policy_restarts policy f ≡ true
unfolding policy_restarts
policy_complete always f by_always = refl
policy_complete never f a = elim a [ ]
policy_complete on_failure f (by_error e) = ground (arith, e)
policy_complete on_failure f (by_state e) = ground (arith, e)

restarts_sound :
    (p : PodProcess) (cp : ContainerProcess) (f : Finish) (db : Found) (listed : Result Pod)
    → restarts p cp f db listed ≡ true
    → ShouldRestart p cp f db listed
unfolding restarts get_pod
restarts_sound p cp f key_not_found listed h = absurd (ground (arith, h))
restarts_sound p cp f (failed e) listed h = absurd (ground (arith, h))
restarts_sound p cp f (found q) (err e) h = absurd (ground (arith, h))
restarts_sound p cp f (found q) panic h = absurd (ground (arith, h))
restarts_sound p cp f (found q) (ok l) h = elim (Bool-cases cp.is_sync) [
  | inl s ↦ absurd (ground (arith, h, s))
  | inr s ↦ elim (Bool-cases (is_some q.pod.metadata.deletion_timestamp)) [
    | inl d ↦ absurd (ground (arith, h, s, d))
    | inr d ↦ elim (Bool-cases (str_eq q.pod.metadata.uid l.metadata.uid)) [
      | inr u ↦ absurd (ground (arith, h, s, d, u))
      | inl u ↦ record {
        unsynced = s;
        stored = q;
        in_db = refl;
        unmarked = d;
        cached = l;
        in_cache = refl;
        same_uid = (str_eq_iff q.pod.metadata.uid l.metadata.uid).0 u;
        allowed = policy_sound p.pod.spec.restart_policy f (ground (arith, h, s, d, u));
      }
    ]
  ]
]

restarts_complete :
    (p : PodProcess) (cp : ContainerProcess) (f : Finish) (db : Found) (listed : Result Pod)
    → ShouldRestart p cp f db listed
    → restarts p cp f db listed ≡ true
unfolding restarts get_pod
restarts_complete p cp f db listed h =
    rw
      (
        h.unsynced,
        h.in_db,
        h.unmarked,
        h.in_cache,
        (str_eq_iff h.stored.pod.metadata.uid h.cached.metadata.uid).1 h.same_uid,
      )
      (policy_complete p.pod.spec.restart_policy f h.allowed)

-- A container that ended is run again exactly when it is no init container, the database has its pod
-- and the pod is not marked for deletion there, the API server's cache has a pod of the same UID, and
-- the restart policy is Always, or is OnFailure and the end was an error or no success.
pub restarts_iff :
    (p : PodProcess) (cp : ContainerProcess) (f : Finish) (db : Found) (listed : Result Pod)
    → (restarts p cp f db listed ≡ true) ↔ ShouldRestart p cp f db listed
restarts_iff p cp f db listed =
    (restarts_sound p cp f db listed, restarts_complete p cp f db listed)
