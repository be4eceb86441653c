-- ===== src/Native/Refines.antt =====
-- The operations of the manager of the processes on the map of the pods.
use native_kubelet.Base.{
  Str, str_eq, false, if◌then◌else◌, Bool-cases, none, ◌≡◌, refl, ap, ◌∙◌, arith,
}
use mathlib.Core.Path.{subst}
use native_kubelet.Result.{Result, ok, err, panic, Holds}
use native_kubelet.Kube.{Pod}
use native_kubelet.Native.Process.{
  PodProcess, Paths, convert_pod2process, Found, found, key_not_found, failed, get_pod_key,
}
use native_kubelet.Native.Manager.{
  Database, Host, Manager, key_of, found_of, lookup_process, get, result_of, put, started_after,
  run_converted, run_pod, updated_after, update_pod, deleted_after, delete_found, delete_pod,
  stop_pod,
}
use native_kubelet.Native.Keys.{has_colon}
use native_kubelet.Native.Views.{
  IsDatabase, IsKeyed, IsFor, convert_pod2process-IsFor, Op, ran, updated, deleted, target, operate,
  Refined, Removed, put-Written, Written-Refined, Removed-Refined, absent-if, found_of-missing_if,
  get_found-ok, result_of-ok,
}

module _ {D B W : Type 0} (database : Database D B) (lawful : IsDatabase database)
    (host : Host W) where
  result_ok : {A : Type 0} (r : A × Result (Unit {0})) → r.1 ≡ ok tt → r ≡ (r.0, ok tt)
  result_ok (a, r) h = ap (λ t. (a, t)) h

  started_after-ok :
      (m : Manager D W) (p : PodProcess) (r : D × Result (Unit {0}))
      → (started_after database host m p r).1 ≡ ok tt
      → (r.1 ≡ ok tt) × (r.0 ≡ (started_after database host m p r).0.db)
  started_after-ok m p (d, ok tt) h = (refl, refl)
  started_after-ok m p (d, err e) h = absurd (ground arith)
  started_after-ok m p (d, panic) h = absurd (ground arith)

  run_converted-Refined :
      (pod : Pod) (m : Manager D W) (r : Result PodProcess)
      → Holds (IsFor pod) r
      → has_colon pod.metadata.namespace ≡ false
      → IsKeyed database m.db
      → (run_converted database host m r).1 ≡ ok tt
      → Refined database (ran pod) m.db (run_converted database host m r).0.db
  run_converted-Refined pod m (ok p) f h keyed q =
      let x = put database m.db p in
      let (a, b) = started_after-ok m p x q in
      subst (λ e. Refined database (ran pod) m.db e) b
        (Written-Refined database (ran pod) pod m.db x.0 p refl refl f h
          (put-Written database lawful m.db x.0 p (result_ok x a)) keyed)
  run_converted-Refined pod m (err e) f h keyed q = absurd (ground arith)
  run_converted-Refined pod m panic f h keyed q = absurd (ground arith)

  updated_after-Refined :
      (pod : Pod) (m : Manager D W) (r : Result PodProcess)
      → ((p : PodProcess)
          → r ≡ ok p
          → (p.namespace ≡ pod.metadata.namespace) × (p.pod_name ≡ pod.metadata.name))
      → has_colon pod.metadata.namespace ≡ false
      → IsKeyed database m.db
      → (updated_after database host m pod r).1 ≡ ok tt
      → Refined database (updated pod) m.db (updated_after database host m pod r).0.db
  updated_after-Refined pod m (ok p) f h keyed q =
      let x = put database m.db (record p { pod = pod }) in
      let (a, b) = f p refl in
      Written-Refined database (updated pod) pod m.db x.0 (record p { pod = pod }) refl refl
        (a, b, refl) h
        (put-Written database lawful m.db x.0 (record p { pod = pod }) (result_ok x q)) keyed
  updated_after-Refined pod m (err e) f h keyed q = absurd (ground arith)
  updated_after-Refined pod m panic f h keyed q = absurd (ground arith)

  deleted_after-ok :
      (m : Manager D W) (p : PodProcess) (r : W × Result (Unit {0}))
      → (deleted_after database host m p r).1 ≡ ok tt
      → database.delete m.db (key_of p) ≡ ((deleted_after database host m p r).0.db, none)
  deleted_after-ok m p (w, ok tt) h =
      let x = result_of database (database.delete m.db (key_of p)) in
      result_of-ok database (database.delete m.db (key_of p)) x.0 (result_ok x h)
  deleted_after-ok m p (w, err e) h = absurd (ground arith)
  deleted_after-ok m p (w, panic) h = absurd (ground arith)

  delete_found-Removed :
      (pod : Pod) (m : Manager D W) (f : Found)
      → lookup_process database m.db (get_pod_key pod.metadata.namespace pod.metadata.name) ≡ f
      → ((p : PodProcess)
          → f ≡ found p
          → (p.namespace ≡ pod.metadata.namespace) × (p.pod_name ≡ pod.metadata.name))
      → (delete_found database host m f).1 ≡ ok tt
      → Removed database pod m.db (delete_found database host m f).0.db
  unfolding lookup_process
  delete_found-Removed pod m key_not_found g h q = λ j.
      absent-if database (get_pod_key pod.metadata.namespace pod.metadata.name) j m.db g
        (Bool-cases _)
  delete_found-Removed pod m (failed e) g h q = absurd (ground arith)
  delete_found-Removed pod m (found p) g h q = λ j.
      let r = stop_pod host p m.host in
      let e = (deleted_after database host m p r).0.db in
      let (a, b) = h p refl in
      ap (found_of database) (lawful.get_delete m.db e (key_of p) j (deleted_after-ok m p r q))
      ∙ found_of-missing_if database (str_eq (key_of p) j) (database.get m.db j)
      ∙ ap
          (λ t.
            if str_eq (get_pod_key t p.pod_name) j
            then key_not_found
            else lookup_process database m.db j)
          a
      ∙ ap
          (λ t.
            if str_eq (get_pod_key pod.metadata.namespace t) j
            then key_not_found
            else lookup_process database m.db j)
          b

  -- On a database that keeps what is put and takes what is deleted, with JSON that decodes what
  -- it encodes, whose processes stand each under its own key: an operation on a pod whose
  -- namespace has no colon, when it returns no error, does to the pods that getPod answers, by
  -- namespace without a colon and name, exactly what it says. RunPod and UpdatePod set the pod,
  -- DeletePod takes it away, and no other pod changes; and the processes stand under their own
  -- keys again.
  pub operate-Refined :
      (paths : Paths) (workdir : Str) (op : Op) (m : Manager D W)
      → has_colon (target op).metadata.namespace ≡ false
      → IsKeyed database m.db
      → (operate database host paths workdir op m).1 ≡ ok tt
      → Refined database op m.db (operate database host paths workdir op m).0.db
  unfolding run_pod update_pod delete_pod get
  operate-Refined paths workdir (ran pod) m h keyed q =
      run_converted-Refined pod m (convert_pod2process paths workdir pod)
        (convert_pod2process-IsFor paths workdir pod) h keyed q
  operate-Refined paths workdir (updated pod) m h keyed q =
      updated_after-Refined pod m _
        (λ p g. keyed pod.metadata.namespace pod.metadata.name p h (get_found-ok database _ p g)) h
        keyed q
  operate-Refined paths workdir (deleted pod) m h keyed q =
      Removed-Refined database pod m.db (delete_pod database host pod m).0.db h
        (delete_found-Removed pod m _ refl
          (λ p g. keyed pod.metadata.namespace pod.metadata.name p h g) q)
        keyed
