-- ===== src/PodController/KeepsPods.antt =====
-- The handlers of the pods to sync and to delete keep the known pods sound.
use native_kubelet.Base.{ℕ, Str, get_elem?, Option, none, some, Option-cases, List, inl, inr}
use native_kubelet.Result.{Result, ok, err, panic}
use native_kubelet.Errdefs.{Error}
use native_kubelet.Kube.{Pod, Event}
use native_kubelet.PodController.State.{KnownPod, Services, State}
use native_kubelet.PodController.Provide.{
  store_by_key, after_update, after_create, provide, populated, after_delete,
}
use native_kubelet.PodController.Sync.{
  enqueue_deletion, after_delete_in_provider, reconcile, use_pod, remember, deferred,
  with_known_pod, wrap_sync, loggable_pod_name_from_coordinates, sync_pod_in_provider,
  after_orphan_delete, orphan, listed, with_key, sync_pod_from_kubernetes_handler, force_result,
  force_delete, clean_up, delete_pods_from_kubernetes_handler, dangling, delete_listed,
  delete_known, delete_dangling_pods,
}
use native_kubelet.PodController.Invariant.{
  IsSound, store_new-IsSound, write-IsSound, queue_op-IsSound, event-IsSound, events-IsSound,
  world-IsSound, if-IsSound, loaded_SkipsAfterStatus,
}

module _ {W : Type 0} (sv : Services W) where
  store-IsSound : (r : Result Str) {s : State W} → IsSound s → IsSound (store_by_key sv r s)
  unfolding store_by_key
  store-IsSound (ok key) h = store_new-IsSound key h
  store-IsSound (err e) h = h
  store-IsSound panic h = h

  update-IsSound :
      (pod : Pod) (r : W × Option Error) {s : State W}
      → IsSound s
      → IsSound (after_update sv pod r s).1
  unfolding after_update
  update-IsSound pod (w, some e) h = event-IsSound _ _ _ (world-IsSound _ (world-IsSound w h))
  update-IsSound pod (w, none) h = store-IsSound _ (event-IsSound _ _ _ (world-IsSound w h))

  create-IsSound :
      (pod : Pod) (r : W × Option Error) {s : State W}
      → IsSound s
      → IsSound (after_create sv pod r s).1
  unfolding after_create
  create-IsSound pod (w, some e) h = event-IsSound _ _ _ (world-IsSound _ (world-IsSound w h))
  create-IsSound pod (w, none) h = event-IsSound _ _ _ (world-IsSound w h)

  provide-IsSound :
      (pod : Pod) (p : Option Pod) {s : State W} → IsSound s → IsSound (provide sv pod p s).1
  unfolding provide
  provide-IsSound pod none {s = s} h = create-IsSound pod (sv.create_pod s.world pod) h
  provide-IsSound pod (some q) h = search (if-IsSound, update-IsSound)

  populated-IsSound :
      (r : Result Pod × List Event) {s : State W} → IsSound s → IsSound (populated sv r s).1
  unfolding populated
  populated-IsSound (ok pod, es) h = search (provide-IsSound, events-IsSound)
  populated-IsSound (err e, es) h = events-IsSound _ h
  populated-IsSound (panic, es) h = events-IsSound _ h

  wrap-IsSound :
      (pod : Pod) (r : Result (Unit {0}) × State W) → IsSound r.1 → IsSound (wrap_sync sv pod r).1
  wrap-IsSound pod (ok u, s) h = h
  wrap-IsSound pod (err e, s) h = h
  wrap-IsSound pod (panic, s) h = h

  enqueue_deletion-IsSound :
      (key : Str) (g : Option ℕ) {s : State W} → IsSound s → IsSound (enqueue_deletion sv key g s).1
  unfolding enqueue_deletion
  enqueue_deletion-IsSound key none h = h
  enqueue_deletion-IsSound key (some g) h = queue_op-IsSound _ h

  after_delete-IsSound :
      (pod : Pod) (key : Str) (r : Option Error × State W)
      → IsSound r.1
      → IsSound (after_delete_in_provider sv pod key r).1
  unfolding after_delete_in_provider
  after_delete-IsSound pod key (none, s) h = enqueue_deletion-IsSound key _ h
  after_delete-IsSound pod key (some e, s) h = search (if-IsSound, enqueue_deletion-IsSound)

  delete_in_provider-IsSound :
      (r : W × Option Error) {s : State W} → IsSound s → IsSound (after_delete sv r s).1
  unfolding after_delete
  delete_in_provider-IsSound (w, none) h = event-IsSound _ _ _ (world-IsSound w h)
  delete_in_provider-IsSound (w, some e) h = event-IsSound _ _ _ (world-IsSound w h)

  reconcile-IsSound :
      (pod : Pod) (key : Str) (s : State W) → IsSound s → IsSound (reconcile sv pod key s).1
  unfolding reconcile
  reconcile-IsSound pod key s h = search (
    if-IsSound, after_delete-IsSound, delete_in_provider-IsSound, wrap-IsSound, populated-IsSound,
  )

  remember-IsSound : (pod : Pod) (p : ℕ) (s : State W) → IsSound s → IsSound (remember sv pod p s)
  unfolding remember
  remember-IsSound pod p s h = elim (Option-cases (get_elem? s.heap p)) [
    | inl e ↦ rw (e, remember) h
    | inr (k, e) ↦
        rw (e, remember)
          (write-IsSound p (use_pod sv pod k) (loaded_SkipsAfterStatus p {k = k} s h e) h)
  ]

  deferred-IsSound :
      (pod : Pod) (p : ℕ) (r : Result (Unit {0}) × State W)
      → IsSound r.1
      → IsSound (deferred sv pod p r).1
  unfolding deferred
  deferred-IsSound pod p (ok u, s) h = remember-IsSound pod p s h
  deferred-IsSound pod p (err e, s) h = h
  deferred-IsSound pod p (panic, s) h = remember-IsSound pod p s h

  known-IsSound :
      (pod : Pod) (key : Str) (k : Option (ℕ × Option KnownPod)) (s : State W)
      → IsSound s
      → IsSound (with_known_pod sv pod key k s).1
  unfolding with_known_pod
  known-IsSound pod key none s h = h
  known-IsSound pod key (some (p, none)) s h = h
  known-IsSound pod key (some (p, some k)) s h =
      search (if-IsSound, deferred-IsSound, reconcile-IsSound)

  pub sync-IsSound :
      (pod : Pod) (key : Str) (s : State W)
      → IsSound s
      → IsSound (sync_pod_in_provider sv pod key s).1
  unfolding sync_pod_in_provider
  sync-IsSound pod key s h = search (if-IsSound, queue_op-IsSound, known-IsSound)

  orphan-IsSound :
      (key ns name : Str) (r : Option Pod × Option Error) (s : State W)
      → IsSound s
      → IsSound (orphan sv key ns name r s).1
  unfolding orphan
  orphan-IsSound key ns name (p, some e) s h = search if-IsSound
  orphan-IsSound key ns name (none, none) s h = h
  orphan-IsSound key ns name (some p, none) s h = go (sv.delete_pod s.world p)
    where
      go :
          (r : W × Option Error)
          → IsSound (after_orphan_delete sv (loggable_pod_name_from_coordinates sv ns name) r s).1
      go (w, none) = world-IsSound w h
      go (w, some e) = world-IsSound w h

  pub listed-IsSound :
      (key ns name : Str) (r : Result Pod) (s : State W)
      → IsSound s
      → IsSound (listed sv key ns name r s).1
  unfolding listed
  listed-IsSound key ns name (ok pod) s h = sync-IsSound pod key s h
  listed-IsSound key ns name (err e) s h = search (if-IsSound, orphan-IsSound)
  listed-IsSound key ns name panic s h = h

  pub with_key-IsSound :
      (r : Result (Str × Str)) (f : Str → Str → State W → Result (Unit {0}) × State W) {s : State W}
      → ((ns name : Str) → IsSound (f ns name s).1)
      → IsSound s
      → IsSound (with_key sv r f s).1
  with_key-IsSound (ok (ns, name)) f k h = k ns name
  with_key-IsSound (err e) f k h = h
  with_key-IsSound panic f k h = h

module _ {W : Type 0} (sv : Services W) where
  pub handler-IsSound :
      (key : Str) (s : State W) → IsSound s → IsSound (sync_pod_from_kubernetes_handler sv key s).1
  unfolding sync_pod_from_kubernetes_handler
  handler-IsSound key s h =
      with_key-IsSound sv (sv.split_meta_namespace_key key) _
        (λ ns name. listed-IsSound sv key ns name (sv.lister_get s.world ns name) s h) h

  force-IsSound :
      (ns name : Str) (r : Result Pod) (s : State W)
      → IsSound s
      → IsSound (force_delete sv ns name r s).1
  unfolding force_delete
  force-IsSound ns name (ok pod) s h = go (sv.delete_from_kubernetes s.world ns name (some 0))
    where
      go : (r : W × Option Error) → IsSound (force_result sv r s).1
      go (w, none) = world-IsSound w h
      go (w, some e) = world-IsSound w h
  force-IsSound ns name (err e) s h = h
  force-IsSound ns name panic s h = h

  clean-IsSound :
      (key : Str) (r : Result (Unit {0}) × State W) → IsSound r.1 → IsSound (clean_up sv key r).1
  unfolding clean_up
  clean-IsSound key (ok u, s) h = world-IsSound _ h
  clean-IsSound key (err e, s) h = h
  clean-IsSound key (panic, s) h = world-IsSound _ h

  pub deletion-IsSound :
      (key : Str) (s : State W)
      → IsSound s
      → IsSound (delete_pods_from_kubernetes_handler sv key s).1
  unfolding delete_pods_from_kubernetes_handler
  deletion-IsSound key s h =
      with_key-IsSound sv (sv.split_meta_namespace_key key) _
        (λ ns name. clean-IsSound key _ (force-IsSound ns name (sv.lister_get s.world ns name) s h))
        h

  pub dangling-IsSound :
      (schedule : List ℕ) (s : State W) → IsSound s → IsSound (delete_dangling_pods sv schedule s)
  unfolding delete_dangling_pods
  dangling-IsSound schedule s h = go (sv.get_pods s.world)
    where
      listed_only : (ptd : Option (List Pod)) → IsSound (delete_listed sv schedule ptd s)
      listed_only none = h
      listed_only (some ptd) = world-IsSound _ h

      go : (r : Result (List Pod)) → IsSound (delete_known sv schedule r s)
      go (ok pps) = listed_only (dangling sv s.world pps)
      go (err e) = h
      go panic = h
