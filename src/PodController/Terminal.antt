-- ===== src/PodController/Terminal.antt =====
-- Which calls of the provider a sync makes, and which dangling pods are deleted.
use native_kubelet.Base.{
  ℕ, zero, suc, Str, true, false, Bool-cases, not, ◌&&◌, is_some, if◌then◌else◌, Option, none, some,
  List, [], ◌∷◌, ◌≡◌, ◌⊎◌, refl, ap, inl, inr, arith,
}
use mathlib.Core.List.Perm
use mathlib.Core.List.{Perm}
use native_kubelet.Result.{Result, ok, err, panic}
use native_kubelet.Errdefs.{Error}
use native_kubelet.Kube.{Pod}
use native_kubelet.PodController.Compare.{
  is_running, pods_effectively_equal, should_skip_pod_status_update,
}
use native_kubelet.PodController.State.{
  KnownPod, Services, State, load, queue_op, enqueue_without_rate_limit,
  delete_pods_from_kubernetes,
}
use native_kubelet.PodController.Provide.{delete_in_provider, after_delete}
use native_kubelet.PodController.Sync.{
  loggable_pod_name, enqueue_deletion, after_delete_in_provider, reconcile, is_used, remember,
  deferred, with_known_pod, sync_pod_in_provider, dangling, insert_at, arrange, delete_calls,
  delete_all, delete_dangling_pods,
}

module _ {W : Type 0} where
  -- The same services with another provider behind CreatePod and UpdatePod.
  abbrev pub other_provider :
      Services W → (W → Pod → W × Option Error) → (W → Pod → W × Option Error) → Services W
  other_provider sv create update = record sv { create_pod = create; update_pod = update }

insert_at-Perm : (i : ℕ) (pod : Pod) (pods : List Pod) → Perm (insert_at i pod pods) (pod ∷ pods)
insert_at-Perm zero pod pods = Perm.rfl
insert_at-Perm (suc i) pod [] = Perm.rfl
insert_at-Perm (suc i) pod (p ∷ pods) =
    Perm.trans (Perm.cons p (insert_at-Perm i pod pods)) (Perm.swap pod p pods)

arrange-Perm : (schedule : List ℕ) (pods : List Pod) → Perm (arrange schedule pods) pods
unfolding arrange
arrange-Perm [] pods = Perm.rfl
arrange-Perm (i ∷ is) [] = Perm.rfl
arrange-Perm (i ∷ is) (pod ∷ pods) =
    Perm.trans (insert_at-Perm i pod (arrange is pods)) (Perm.cons pod (arrange-Perm is pods))

module _ {W : Type 0} (sv : Services W) where
  finished :
      (pod : Pod)
      → (is_some pod.metadata.deletion_timestamp ≡ true)
        ⊎ (should_skip_pod_status_update pod ≡ true)
      → is_some pod.metadata.deletion_timestamp ≡ false
      → should_skip_pod_status_update pod ≡ true
  finished pod (inl a) e = absurd (ground (arith, a, e))
  finished pod (inr b) e = b

  reconcile_same :
      (create update : W → Pod → W × Option Error) (pod : Pod) (key : Str) (s : State W)
      → (is_some pod.metadata.deletion_timestamp ≡ true)
        ⊎ (should_skip_pod_status_update pod ≡ true)
      → reconcile (other_provider sv create update) pod key s ≡ reconcile sv pod key s
  unfolding reconcile after_delete_in_provider delete_in_provider loggable_pod_name after_delete
      enqueue_deletion
  reconcile_same create update pod key s h =
      elim (Bool-cases (is_some pod.metadata.deletion_timestamp)) [
        | inl e ↦ rw e refl
        | inr e ↦ rw (e, finished pod h e) refl
      ]

  used_same :
      (create update : W → Pod → W × Option Error) (used : Option Pod) (pod : Pod)
      → is_used (other_provider sv create update) used pod ≡ is_used sv used pod
  unfolding pods_effectively_equal
  used_same create update none pod = refl
  used_same create update (some q) pod = refl

  deferred_same :
      (create update : W → Pod → W × Option Error) (pod : Pod) (p : ℕ)
      (x : Result (Unit {0}) × State W)
      → deferred (other_provider sv create update) pod p x ≡ deferred sv pod p x
  unfolding deferred remember
  deferred_same create update pod p (ok u, s) = refl
  deferred_same create update pod p (err e, s) = refl
  deferred_same create update pod p (panic, s) = refl

  known_same :
      (create update : W → Pod → W × Option Error) (pod : Pod) (key : Str)
      (k : Option (ℕ × Option KnownPod)) (s : State W)
      → (is_some pod.metadata.deletion_timestamp ≡ true)
        ⊎ (should_skip_pod_status_update pod ≡ true)
      → with_known_pod (other_provider sv create update) pod key k s ≡ with_known_pod sv pod key k s
  unfolding with_known_pod
  known_same create update pod key none s h = refl
  known_same create update pod key (some (p, none)) s h = refl
  known_same create update pod key (some (p, some k)) s h =
      rw
        (
          used_same create update k.last_pod_used pod,
          reconcile_same create update pod key s h,
          deferred_same create update pod p (reconcile sv pod key s),
        )
        refl

  -- A pod that is marked for deletion, or whose phase is Succeeded or Failed: neither CreatePod nor
  -- UpdatePod of the provider is called, so that syncPodInProvider does and answers the same when
  -- any other functions stand in their place.
  pub sync_creates_nothing :
      (create update : W → Pod → W × Option Error) (pod : Pod) (key : Str) (s : State W)
      → (is_some pod.metadata.deletion_timestamp ≡ true)
        ⊎ (should_skip_pod_status_update pod ≡ true)
      → sync_pod_in_provider (other_provider sv create update) pod key s
        ≡ sync_pod_in_provider sv pod key s
  unfolding sync_pod_in_provider
  sync_creates_nothing create update pod key s h =
      ap
        (λ x.
          if is_some pod.metadata.deletion_timestamp && not (is_running pod.status)
          then (ok tt, queue_op (enqueue_without_rate_limit delete_pods_from_kubernetes key) s)
          else x)
        (known_same create update pod key (load key s) s h)

  -- The pods of the list that the lister answers for with an error that counts as not found, when it
  -- answers for all of them with a pod or such an error.
  pub data Dangling (w : W) : List Pod → List Pod → Type 0 where
    done : Dangling w [] []
    listed :
        {pp pod : Pod} {pps ptd : List Pod}
        → sv.lister_get w pp.metadata.namespace pp.metadata.name ≡ ok pod
        → Dangling w pps ptd
        → Dangling w (pp ∷ pps) ptd
    missing :
        {pp : Pod} {e : Error} {pps ptd : List Pod}
        → sv.lister_get w pp.metadata.namespace pp.metadata.name ≡ err e
        → sv.api_is_not_found e ≡ true
        → Dangling w pps ptd
        → Dangling w (pp ∷ pps) (pp ∷ ptd)

  dangling_complete :
      (w : W) {pps ptd : List Pod} → Dangling w pps ptd → dangling sv w pps ≡ some ptd
  unfolding dangling
  dangling_complete w done = refl
  dangling_complete w (listed e d) = ground (arith, e, dangling_complete w d)
  dangling_complete w (missing e n d) = ground (arith, e, n, dangling_complete w d)

  -- One call of DeletePod after another, from one world to another
  pub data Deletes : List Pod → W → W → Type 0 where
    nothing : {w : W} → Deletes [] w w
    one :
        {pod : Pod} {pods : List Pod} {w w' : W}
        → Deletes pods (sv.delete_pod w pod).0 w'
        → Deletes (pod ∷ pods) w w'

  delete_calls-Deletes : (pods : List Pod) (w : W) → Deletes pods w (delete_calls sv pods w)
  unfolding delete_calls
  delete_calls-Deletes [] w = nothing
  delete_calls-Deletes (pod ∷ pods) w = one (delete_calls-Deletes pods (sv.delete_pod w pod).0)

  -- When the provider lists its pods and the API server's cache answers for each of them, either
  -- with a pod or with a not-found error, deleteDanglingPods calls DeletePod exactly once for each
  -- that is not found, in an order that its goroutines leave open, and changes nothing else: whatever
  -- the schedule, the calls are those pods in some order.
  pub deletes_dangling :
      (schedule : List ℕ) (s : State W) (pps ptd : List Pod)
      → sv.get_pods s.world ≡ ok pps
      → Dangling s.world pps ptd
      → (calls : List Pod) × (w : W) × Perm calls ptd
        × Deletes calls s.world w
        × (delete_dangling_pods sv schedule s ≡ record s { world = w })
  unfolding delete_dangling_pods delete_all
  deletes_dangling schedule s pps ptd g d =
      let calls = arrange schedule ptd in
      (
        calls,
        delete_calls sv calls s.world,
        arrange-Perm schedule ptd,
        delete_calls-Deletes calls s.world,
        rw (g, dangling_complete s.world d) refl,
      )
