-- ===== src/PodController/Repeat.antt =====
-- What a sync remembers: a second sync of the same pod, and a status update after an update.
use native_kubelet.Base.{
  ℕ, Str, lookup, lookup-insert_self, length, get_elem?, set, get_elem?-set_self,
  get_elem?-append_left, get_elem?-set_append, true, false, is_some, none, some, List, [], ◌∷◌,
  ◌++◌, ◌≡◌, refl, arith,
}
use native_kubelet.Result.{Result, ok, err, panic}
use native_kubelet.Kube.{Pod, Event}
use native_kubelet.Podutils.Populate.{populate_environment_variables}
use native_kubelet.PodController.Compare.{
  pods_equal, pods_effectively_equal, filter_for_resource_version, should_skip_pod_status_update,
}
use native_kubelet.PodController.State.{
  KnownPod, new_known_pod, Services, State, store_new, load, write, record_event,
}
use native_kubelet.PodController.Provide.{
  store_by_key, after_update, after_create, provide, populated, create_or_update_pod,
}
use native_kubelet.PodController.Sync.{
  reconcile, use_pod, remember, deferred, with_known_pod, wrap_sync, sync_pod_in_provider,
}
use native_kubelet.PodController.Status.{update_known, update_pod_status}

module _ {W : Type 0} (sv : Services W) where
  -- The pod is one that syncPodInProvider creates or updates, and it is not what the entry of the
  -- key last used.
  pub record IsProvided (pod : Pod) (key : Str) (p : ℕ) (k : KnownPod) (s : State W) : Type 0 where
    pub unmarked : is_some pod.metadata.deletion_timestamp ≡ false
    pub unfinished : should_skip_pod_status_update pod ≡ false
    pub known : lookup key s.known_pods ≡ some p
    pub entry : get_elem? s.heap p ≡ some k
    pub unused : k.last_pod_used ≡ none

  -- The sync does what createOrUpdatePod does, and then remembers the pod through the pointer.
  sync_provides :
      (pod : Pod) (key : Str) (p : ℕ) (k : KnownPod) (s : State W)
      → IsProvided pod key p k s
      → sync_pod_in_provider sv pod key s
        ≡ deferred sv pod p (wrap_sync sv pod (create_or_update_pod sv pod s))
  unfolding sync_pod_in_provider with_known_pod reconcile load
  sync_provides pod key p k s h =
      ground (arith, h.unmarked, h.unfinished, h.known, h.entry, h.unused)

  -- createOrUpdatePod with a pod that the provider knows and that differs, when UpdatePod succeeds.
  pub record IsUpdated (pod ready from_provider : Pod) (es : List Event) (w : W) (key : Str)
      (s : State W) : Type 0 where
    pub populates : populate_environment_variables sv.cluster pod ≡ (ok ready, es)
    pub provider_has :
        (sv.get_pod s.world ready.metadata.namespace ready.metadata.name).0 ≡ some from_provider
    pub differs : pods_equal sv.cmp from_provider ready ≡ false
    pub succeeds : sv.update_pod s.world ready ≡ (w, none)
    pub key_of : sv.meta_namespace_key ready ≡ ok key

  update_replaces :
      (pod ready from_provider : Pod) (es : List Event) (w : W) (key : Str) (s : State W)
      → IsUpdated pod ready from_provider es w key s
      → let (r, t) = create_or_update_pod sv pod s in
        (r ≡ ok tt)
        × (lookup key t.known_pods ≡ some (length s.heap))
        × (t.heap ≡ s.heap ++ new_known_pod ∷ [])
  unfolding create_or_update_pod populated provide after_update store_by_key store_new record_event
  update_replaces pod ready q es w key s h =
      rw (h.populates, h.provider_has, h.differs, h.succeeds, h.key_of)
        (refl, lookup-insert_self key (length s.heap) s.known_pods, refl)

  remember_at :
      (pod : Pod) (p : ℕ) {k : KnownPod} (t : State W)
      → get_elem? t.heap p ≡ some k
      → remember sv pod p t ≡ record t { heap = set t.heap p (use_pod sv pod k) }
  unfolding remember write
  remember_at pod p t e = rw (e, remember)

  deferred_ok :
      (pod : Pod) (p : ℕ) (x : Result (Unit {0}) × State W)
      → x.0 ≡ ok tt
      → deferred sv pod p (wrap_sync sv pod x) ≡ (ok tt, remember sv pod p x.1)
  unfolding deferred
  deferred_ok pod p (ok u, s) e = refl
  deferred_ok pod p (err x, s) e = absurd (ground arith)
  deferred_ok pod p (panic, s) e = absurd (ground arith)

  status_panics :
      (later : Pod) (key : Str) (t : State W) (q : ℕ)
      → lookup key t.known_pods ≡ some q
      → get_elem? t.heap q ≡ some new_known_pod
      → should_skip_pod_status_update later ≡ false
      → (update_pod_status sv later key t).0 ≡ panic
  unfolding update_pod_status update_known load
  status_panics later key t q l g x = ground (arith, l, g, x)

  -- A pod that is neither marked for deletion nor finished, whose key is known with an entry that
  -- has used no pod yet, that the provider has in a form that differs, and that UpdatePod replaces
  -- without an error: the sync gives no error, and the next status update of an unfinished pod of
  -- that key panics, since the entry of the key is new and has no status from the provider.
  pub update_loses_status :
      (pod ready from_provider : Pod) (es : List Event) (w : W) (key : Str) (p : ℕ) (k : KnownPod)
      (s : State W)
      → IsProvided pod key p k s
      → IsUpdated pod ready from_provider es w key s
      → let (r, t) = sync_pod_in_provider sv pod key s in
        (r ≡ ok tt)
        × ((later : Pod)
            → should_skip_pod_status_update later ≡ false
            → (update_pod_status sv later key t).0 ≡ panic)
  update_loses_status pod ready q es w key p k s h u =
      let (r, l, e) = update_replaces pod ready q es w key s u in
      let t = (create_or_update_pod sv pod s).1 in
      let g = get_elem?-append_left s.heap (new_known_pod ∷ []) p {v = k} h.entry in
      let a = remember_at pod p {k = k} t (rw e g) in
      rw (sync_provides pod key p k s h, deferred_ok pod p (create_or_update_pod sv pod s) r, a, e)
        (
          refl,
          λ later x.
              status_panics later key _ (length s.heap) l
                (get_elem?-set_append s.heap new_known_pod (use_pod sv pod k) p {w = k} h.entry) x,
        )

  -- createOrUpdatePod with a pod that the provider does not know, when CreatePod succeeds.
  pub record IsCreated (pod ready : Pod) (es : List Event) (w : W) (s : State W) : Type 0 where
    pub populates : populate_environment_variables sv.cluster pod ≡ (ok ready, es)
    pub provider_lacks : (sv.get_pod s.world ready.metadata.namespace ready.metadata.name).0 ≡ none
    pub succeeds : sv.create_pod s.world ready ≡ (w, none)

  create_keeps :
      (pod ready : Pod) (es : List Event) (w : W) (s : State W)
      → IsCreated pod ready es w s
      → let (r, t) = create_or_update_pod sv pod s in
        (r ≡ ok tt) × (t.known_pods ≡ s.known_pods) × (t.heap ≡ s.heap) × (t.world ≡ w)
  unfolding create_or_update_pod populated provide after_create record_event
  create_keeps pod ready es w s h =
      rw (h.populates, h.provider_lacks, h.succeeds) (refl, refl, refl, refl)

  used_is_skipped :
      (pod : Pod) (key : Str) (p : ℕ) (k : KnownPod) (t : State W)
      → is_some pod.metadata.deletion_timestamp ≡ false
      → lookup key t.known_pods ≡ some p
      → get_elem? t.heap p ≡ some (use_pod sv pod k)
      → ((x : Pod) → sv.cmp.equal_pods filter_for_resource_version x x ≡ true)
      → sync_pod_in_provider sv pod key t ≡ (ok tt, t)
  unfolding sync_pod_in_provider with_known_pod load pods_effectively_equal
  used_is_skipped pod key p k t m l g eq = ground (arith, m, l, g, eq pod)

  -- A pod that is neither marked for deletion nor finished, whose key is known with an entry that
  -- has used no pod yet, that the provider does not know and that CreatePod accepts, with a go-cmp
  -- that finds a pod equal to itself: the sync gives no error and leaves the provider as CreatePod
  -- left it, and a second sync of the same pod changes nothing.
  pub sync_twice :
      (pod ready : Pod) (es : List Event) (w : W) (key : Str) (p : ℕ) (k : KnownPod) (s : State W)
      → ((x : Pod) → sv.cmp.equal_pods filter_for_resource_version x x ≡ true)
      → IsProvided pod key p k s
      → IsCreated pod ready es w s
      → let (r, t) = sync_pod_in_provider sv pod key s in
        (r ≡ ok tt) × (t.world ≡ w) × (sync_pod_in_provider sv pod key t ≡ (ok tt, t))
  sync_twice pod ready es w key p k s eq h c =
      let (r, l, e, v) = create_keeps pod ready es w s c in
      let t = (create_or_update_pod sv pod s).1 in
      let a = remember_at pod p {k = k} t (rw e h.entry) in
      rw (sync_provides pod key p k s h, deferred_ok pod p (create_or_update_pod sv pod s) r, a)
        (
          refl,
          v,
          used_is_skipped pod key p k _ h.unmarked (rw l h.known)
              (get_elem?-set_self t.heap p (use_pod sv pod k) {w = k} (rw e h.entry)) eq,
        )
