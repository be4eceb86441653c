-- ===== src/PodController/Reachable.antt =====
-- The handlers as the steps of the controller, and what holds of every state that they reach.
use native_kubelet.Base.{
  ℕ, Str, lookup, get_elem?, get_elem?-some, zero, suc, true, false, Bool-cases, is_some, Option,
  none, some, Option-cases, List, [], ◌≡◌, refl, inl, inr, arith,
}
use native_kubelet.Result.{Result, ok, err, panic}
use native_kubelet.Kube.{Pod}
use native_kubelet.PodController.State.{
  KnownPod, Services, State, enqueue, sync_pods_from_kubernetes, sync_pod_status_from_provider,
  forget, delete_pods_from_kubernetes, load,
}
use native_kubelet.PodController.Sync.{
  sync_pod_from_kubernetes_handler, delete_pods_from_kubernetes_handler, delete_dangling_pods,
}
use native_kubelet.PodController.Status.{
  skipped, poll, poll_until, enqueue_key, Polled, found, waiting, failed_poll,
  sync_pod_status_from_provider_handler, enqueue_pod_status_update,
}
use native_kubelet.PodController.Informer.{
  by_key, add_func, resend, enqueue_changed, update_loaded, update_func, delete_func,
}
use native_kubelet.PodController.Invariant.{
  SkipsAfterStatus, IsSound, store_new-IsSound, write-IsSound, delete-IsSound, queue_op-IsSound,
  world-IsSound, if-IsSound, if_state-IsSound, loaded_SkipsAfterStatus,
}
use native_kubelet.PodController.KeepsPods.{handler-IsSound, deletion-IsSound, dangling-IsSound}
use native_kubelet.PodController.KeepsStatus.{status_handler-IsSound, after_poll-IsSound}

module _ {W : Type 0} (sv : Services W) where
  by_key-IsSound :
      (r : Result Str) (f : Str → State W → Result (Unit {0}) × State W) (s : State W)
      → IsSound s
      → ((key : Str) → IsSound (f key s).1)
      → IsSound (by_key sv r f s).1
  by_key-IsSound (ok key) f s h k = k key
  by_key-IsSound (err e) f s h k = h
  by_key-IsSound panic f s h k = h

  add-IsSound : (pod : Pod) (s : State W) → IsSound s → IsSound (add_func sv pod s).1
  unfolding add_func
  add-IsSound pod s h =
      by_key-IsSound (sv.meta_namespace_key pod) _ s h
        (λ key. queue_op-IsSound (enqueue sync_pods_from_kubernetes key) (store_new-IsSound key h))

  resend-IsSound :
      (key : Str) (pod : Pod) (p : ℕ) (k : KnownPod) (r : Option Pod) (s : State W)
      → IsSound s
      → IsSound (resend sv key pod p k r s).1
  unfolding resend
  resend-IsSound key pod p k none s h = h
  resend-IsSound key pod p k (some q) s h =
      if-IsSound _ (ok tt, _) (ok tt, s)
        (write-IsSound p (skipped sv false k) (λ e. ground arith)
          (queue_op-IsSound (enqueue sync_pod_status_from_provider key) h))
        h

  changed-IsSound :
      (key : Str) (a b : Pod) (r : Result (Unit {0}) × State W)
      → IsSound r.1
      → IsSound (enqueue_changed sv key a b r).1
  unfolding enqueue_changed
  changed-IsSound key a b (ok u, s) h =
      if_state-IsSound _ _ s (queue_op-IsSound (enqueue sync_pods_from_kubernetes key) h) h
  changed-IsSound key a b (err e, s) h = h
  changed-IsSound key a b (panic, s) h = h

  loaded-IsSound :
      (key : Str) (a b : Pod) (k : Option (ℕ × Option KnownPod)) (s : State W)
      → IsSound s
      → IsSound (update_loaded sv key a b k s).1
  unfolding update_loaded
  loaded-IsSound key a b none s h = h
  loaded-IsSound key a b (some (p, none)) s h = h
  loaded-IsSound key a b (some (p, some k)) s h = changed-IsSound key a b _ (
      if-IsSound k.last_pod_status_update_skipped
        (resend sv key b p k k.last_pod_status_received_from_provider s) (ok tt, s)
        (resend-IsSound key b p k _ s h) h)

  update-IsSound : (a b : Pod) (s : State W) → IsSound s → IsSound (update_func sv a b s).1
  unfolding update_func
  update-IsSound a b s h =
      by_key-IsSound (sv.meta_namespace_key b) _ s h
        (λ key. loaded-IsSound key a b (load key s) s h)

  delete_func-IsSound : (pod : Pod) (s : State W) → IsSound s → IsSound (delete_func sv pod s).1
  unfolding delete_func
  delete_func-IsSound pod s h =
      by_key-IsSound (sv.deletion_handling_meta_namespace_key pod) _ s h (λ key.
        queue_op-IsSound (forget delete_pods_from_kubernetes key)
          (queue_op-IsSound (enqueue sync_pods_from_kubernetes key) (delete-IsSound key h)))

  polled-IsSound :
      (n : ℕ) (others : State W → State W) (pod : Pod) (key : Str) (s : State W) (r : Polled sv)
      → poll sv pod key s ≡ r
      → IsSound s
      → IsSound (poll_until sv n others pod key (others s)).1
      → IsSound (poll_until sv (suc n) others pod key s).1
  unfolding poll_until
  polled-IsSound n others pod key s (found p k) e h later = rw (e, poll_until) h
  polled-IsSound n others pod key s waiting e h later = rw (e, poll_until) later
  polled-IsSound n others pod key s failed_poll e h later = rw (e, poll_until) h

  load-some :
      (key : Str) (s : State W) {p : ℕ} {k : KnownPod}
      → lookup key s.known_pods ≡ some p
      → get_elem? s.heap p ≡ some k
      → load key s ≡ some (p, some k)
  unfolding load
  load-some key s e g = ground (arith, e, g)

  poll_until-IsSound :
      (n : ℕ) (others : State W → State W) (pod : Pod) (key : Str) (s : State W)
      → ((t : State W) → IsSound t → IsSound (others t))
      → IsSound s
      → IsSound (poll_until sv n others pod key s).1
  unfolding poll_until
  poll_until-IsSound zero others pod key s o h = h
  poll_until-IsSound (suc n) others pod key s o h =
      polled-IsSound n others pod key s (poll sv pod key s) refl h
        (poll_until-IsSound n others pod key (others s) o (o s h))

  -- With other steps between the polls that keep the known pods sound.
  notified-IsSound :
      (n : ℕ) (others : State W → State W) (pod : Pod) (s : State W)
      → ((t : State W) → IsSound t → IsSound (others t))
      → IsSound s
      → IsSound (enqueue_pod_status_update sv n others pod s)
  unfolding enqueue_pod_status_update
  notified-IsSound n others pod s o h = go (sv.meta_namespace_key pod)
    where
      go : (r : Result Str) → IsSound (enqueue_key sv n others pod r s)
      go (ok key) = after_poll-IsSound sv pod key _ (poll_until-IsSound n others pod key s o h)
      go (err e) = h
      go panic = h

  -- One call of a handler, a poll of a notification that waits, or a change of the world outside.
  pub data Step (s : State W) : State W → Type 0 where
    added : (pod : Pod) → Step s (add_func sv pod s).1
    updated : (old_pod new_pod : Pod) → Step s (update_func sv old_pod new_pod s).1
    deleted : (pod : Pod) → Step s (delete_func sv pod s).1
    synced : (key : Str) → Step s (sync_pod_from_kubernetes_handler sv key s).1
    force_deleted : (key : Str) → Step s (delete_pods_from_kubernetes_handler sv key s).1
    status_synced : (key : Str) → Step s (sync_pod_status_from_provider_handler sv key s).1
    notified : (pod : Pod) → Step s (enqueue_pod_status_update sv 1 (λ t. t) pod s)
    cleaned : (schedule : List ℕ) → Step s (delete_dangling_pods sv schedule s)
    outside : (w : W) → Step s (record s { world = w })

  -- The states that the controller reaches from no known pods.
  pub data Reach : State W → Type 0 where
    start :
        (w : W) → Reach (record { world = w; known_pods = []; heap = []; ops = []; events = [] })
    next : {s t : State W} → Reach s → Step s t → Reach t

  Step-IsSound : {s t : State W} → Step s t → IsSound s → IsSound t
  Step-IsSound {s = s} (added pod) h = add-IsSound pod s h
  Step-IsSound {s = s} (updated a b) h = update-IsSound a b s h
  Step-IsSound {s = s} (deleted pod) h = delete_func-IsSound pod s h
  Step-IsSound {s = s} (synced key) h = handler-IsSound sv key s h
  Step-IsSound {s = s} (force_deleted key) h = deletion-IsSound sv key s h
  Step-IsSound {s = s} (status_synced key) h = status_handler-IsSound sv key s h
  Step-IsSound {s = s} (notified pod) h = notified-IsSound 1 (λ t. t) pod s (λ t k. k) h
  Step-IsSound {s = s} (cleaned schedule) h = dangling-IsSound sv schedule s h
  Step-IsSound (outside w) h = world-IsSound w h

  -- In every state that the handlers reach from no known pods, each known key points to an entry,
  -- and an entry whose status update was skipped has a status from the provider.
  pub Reach-IsSound : {s : State W} → Reach s → IsSound s
  Reach-IsSound (start w) = record {
    pointers = λ key p e. absurd (unfold lookup in ground arith);
    skips = tt;
  }
  Reach-IsSound (next r st) = Step-IsSound st (Reach-IsSound r)

  update_loaded_ok :
      (key : Str) (a b : Pod) (p : ℕ) (k : KnownPod) (s : State W)
      → SkipsAfterStatus k
      → (update_loaded sv key a b (some (p, some k)) s).0 ≡ ok tt
  unfolding update_loaded
  update_loaded_ok key a b p k s h = elim (Bool-cases k.last_pod_status_update_skipped) [
    | inl e ↦ elim (Option-cases k.last_pod_status_received_from_provider) [
      | inl n ↦ absurd (ground (arith, h e))
      | inr (q, m) ↦ ground (arith, e, m)
    ]
    | inr e ↦ ground (arith, e)
  ]

  -- In every state that the handlers reach, the informer's update of a pod whose key is known does
  -- not panic and gives no error.
  pub update_func_total :
      {s : State W} (old_pod new_pod : Pod) (key : Str)
      → Reach s
      → sv.meta_namespace_key new_pod ≡ ok key
      → is_some (lookup key s.known_pods) ≡ true
      → (update_func sv old_pod new_pod s).0 ≡ ok tt
  unfolding update_func
  update_func_total {s = s} old_pod new_pod key r e known =
      elim (Option-cases (lookup key s.known_pods)) [
        | inl n ↦ absurd (ground (arith, n))
        | inr (p, m) ↦
            let sound = Reach-IsSound r in
            let (k, g) = get_elem?-some s.heap p (sound.pointers key p m) in
            rw (e, load-some key s m g)
              (update_loaded_ok key old_pod new_pod p k s
                (loaded_SkipsAfterStatus p {k = k} s sound g))
      ]
