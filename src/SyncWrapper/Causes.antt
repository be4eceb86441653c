-- ===== src/SyncWrapper/Causes.antt =====
-- Why the wrapper notifies of a pod while it polls.
use native_kubelet.Base.{
  ◌+◌, leb, Str, Dict, lookup, Bool, Bool-cases, true, false, not, ◌&&◌, if◌then◌else◌, is_some,
  Option, none, some, List, [], ◌∷◌, ◌++◌, All, All-map, All-append, append-nil, append_assoc, ◌≡◌,
  refl, sym, ap, ◌∙◌, inl, inr,
}
use native_kubelet.Result.{Result, ok, err, panic}
use native_kubelet.Errdefs.{Error, is_not_found_error}
use native_kubelet.Kube.{Pod, PodStatus}
use native_kubelet.PodController.Compare.{should_skip_pod_status_update}
use native_kubelet.SyncWrapper.{
  Handler, SyncProviderWrapper, lost_pod, is_running_phase, notify, without_status, with_answer,
  update_pod_status, go_on, sync_loop, sync_pod_statuses,
}

module _ {W : Type 0} (h : Handler W) where
  -- What the wrapper may notify of for the pod: the status that the provider reports, or the loss of
  -- a pod that the provider does not have, that is not in the deletion cache, and that was running
  -- or is older than a minute.
  pub data Cause (w : W) (deleted : Dict Pod) (pod : Pod) : Pod → Type 0 where
    reported :
        (status : PodStatus)
        → (h.get_pod_status w pod.metadata.namespace pod.metadata.name).0 ≡ some status
        → Cause w deleted pod (record pod { status = status })
    lost :
        (key : Str)
        → (h.get_pod_status w pod.metadata.namespace pod.metadata.name).0 ≡ none
        → h.meta_namespace_key pod ≡ ok key
        → is_some (lookup key deleted) ≡ false
        → (not (is_running_phase pod.status.phase)
            && leb (h.now w) (pod.metadata.creation_timestamp + 60))
          ≡ false
        → Cause w deleted pod (lost_pod (h.now w) pod)

  -- From `p` to `q` the wrapper has only notified of more pods, each for a cause.
  pub record Notifies (Why : Pod → Type 0) (p q : SyncProviderWrapper W) : Type 0 where
    pub more : List Pod
    pub notified : q.notified ≡ p.notified ++ more
    pub world : q.world ≡ p.world
    pub deleted : q.deleted_pods ≡ p.deleted_pods
    pub causes : All Why more

  nothing : {Why : Pod → Type 0} (p : SyncProviderWrapper W) → Notifies Why p p
  nothing p = record {
    more = [];
    notified = sym (append-nil p.notified);
    world = refl;
    deleted = refl;
    causes = tt;
  }

  if-Notifies :
      {Why : Pod → Type 0} (b : Bool) (x y : Result (Unit {0}) × SyncProviderWrapper W)
      (p : SyncProviderWrapper W)
      → Notifies Why p x.1
      → Notifies Why p y.1
      → Notifies Why p (if b then x else y).1
  if-Notifies true x y p a b = a
  if-Notifies false x y p a b = b

  notify-Notifies :
      {Why : Pod → Type 0} (pod : Pod) (p : SyncProviderWrapper W)
      → Why pod
      → Notifies Why p (notify pod p).1
  unfolding notify
  notify-Notifies pod p w =
      if-Notifies p.has_notify _ (panic, p) p
        (record {
          more = pod ∷ [];
          notified = refl;
          world = refl;
          deleted = refl;
          causes = (w, tt);
        })
        (nothing p)

  without-Notifies :
      (pod : Pod) (e : Option Error) (r : Result Str) (p : SyncProviderWrapper W)
      → (h.get_pod_status p.world pod.metadata.namespace pod.metadata.name).0 ≡ none
      → h.meta_namespace_key pod ≡ r
      → Notifies (Cause p.world p.deleted_pods pod) p (without_status h pod e r p).1
  unfolding without_status
  without-Notifies pod e (err x) p g k = nothing p
  without-Notifies pod e panic p g k = nothing p
  without-Notifies pod e (ok key) p g k = elim (Bool-cases (is_some (lookup key p.deleted_pods))) [
    | inl c ↦ rw c (nothing p)
    | inr c ↦
        elim (Bool-cases (
          not (is_running_phase pod.status.phase)
          && leb (h.now p.world) (pod.metadata.creation_timestamp + 60))) [
            | inl f ↦ rw (c, f) (nothing p)
            | inr f ↦
                rw (c, f) (notify-Notifies (lost_pod (h.now p.world) pod) p (lost key g k c f))
          ]
  ]

  answer-Notifies :
      (pod : Pod) (a : Option PodStatus × Option Error) (p : SyncProviderWrapper W)
      → h.get_pod_status p.world pod.metadata.namespace pod.metadata.name ≡ a
      → Notifies (Cause p.world p.deleted_pods pod) p (with_answer h pod a p).1
  unfolding with_answer
  answer-Notifies pod (none, none) p g = without-Notifies pod none _ p (ap (λ a. a.0) g) refl
  answer-Notifies pod (none, some e) p g = elim (Bool-cases (is_not_found_error e)) [
    | inl f ↦ rw f (without-Notifies pod (some e) _ p (ap (λ a. a.0) g) refl)
    | inr f ↦ rw f (nothing p)
  ]
  answer-Notifies pod (some st, none) p g = notify-Notifies _ p (reported st (ap (λ a. a.0) g))
  answer-Notifies pod (some st, some e) p g = elim (Bool-cases (is_not_found_error e)) [
    | inl f ↦ rw f (notify-Notifies _ p (reported st (ap (λ a. a.0) g)))
    | inr f ↦ rw f (nothing p)
  ]

  update-Notifies :
      (pod : Pod) (p : SyncProviderWrapper W)
      → Notifies (Cause p.world p.deleted_pods pod) p (update_pod_status h pod p).1
  unfolding update_pod_status
  update-Notifies pod p = answer-Notifies pod _ p refl

  -- The pod is on the list.
  pub data Among (pod : Pod) : List Pod → Type 0 where
    here : {pods : List Pod} → Among pod (pod ∷ pods)
    there : {other : Pod} {pods : List Pod} → Among pod pods → Among pod (other ∷ pods)

  -- A cause for some unfinished pod of the list.
  pub record IsDue (pods : List Pod) (w : W) (deleted : Dict Pod) (q : Pod) : Type 0 where
    pub pod : Pod
    pub among : Among pod pods
    pub unfinished : should_skip_pod_status_update pod ≡ false
    pub cause : Cause w deleted pod q

  weaken :
      (x : Pod) (pods : List Pod) {w : W} {deleted : Dict Pod} {p q : SyncProviderWrapper W}
      → Notifies (IsDue pods w deleted) p q
      → Notifies (IsDue (x ∷ pods) w deleted) p q
  weaken x pods n = record {
    more = n.more;
    notified = n.notified;
    world = n.world;
    deleted = n.deleted;
    causes =
        All-map n.more
          (λ q d. record {
            pod = d.pod;
            among = there d.among;
            unfinished = d.unfinished;
            cause = d.cause;
          })
          n.causes;
  }

  first-IsDue :
      (x : Pod) (pods : List Pod) (p q : SyncProviderWrapper W)
      → should_skip_pod_status_update x ≡ false
      → Notifies (Cause p.world p.deleted_pods x) p q
      → Notifies (IsDue (x ∷ pods) p.world p.deleted_pods) p q
  first-IsDue x pods p q e n = record {
    more = n.more;
    notified = n.notified;
    world = n.world;
    deleted = n.deleted;
    causes =
        All-map n.more (λ q c. record { pod = x; among = here; unfinished = e; cause = c })
          n.causes;
  }

  Notifies-trans :
      (pods : List Pod) (p q r : SyncProviderWrapper W)
      → Notifies (IsDue pods p.world p.deleted_pods) p q
      → Notifies (IsDue pods q.world q.deleted_pods) q r
      → Notifies (IsDue pods p.world p.deleted_pods) p r
  Notifies-trans pods p q r a b = record {
    more = a.more ++ b.more;
    notified =
        b.notified ∙ (ap (λ l. l ++ b.more) a.notified ∙ append_assoc p.notified a.more b.more);
    world = b.world ∙ a.world;
    deleted = b.deleted ∙ a.deleted;
    causes = All-append _ a.more b.more a.causes (rw (← a.world, ← a.deleted) b.causes);
  }

  go_on-Notifies :
      (x : Pod) (pods : List Pod) (p : SyncProviderWrapper W)
      (r : Result (Unit {0}) × SyncProviderWrapper W)
      → Notifies (IsDue (x ∷ pods) p.world p.deleted_pods) p r.1
      → ((q : SyncProviderWrapper W)
          → Notifies (IsDue pods q.world q.deleted_pods) q (sync_loop h pods q).1)
      → Notifies (IsDue (x ∷ pods) p.world p.deleted_pods) p (go_on h (sync_loop h pods) r).1
  go_on-Notifies x pods p (ok u, q) n k =
      Notifies-trans (x ∷ pods) p q (sync_loop h pods q).1 n (weaken x pods (k q))
  go_on-Notifies x pods p (err e, q) n k =
      Notifies-trans (x ∷ pods) p q (sync_loop h pods q).1 n (weaken x pods (k q))
  go_on-Notifies x pods p (panic, q) n k = n

  loop-Notifies :
      (pods : List Pod) (p : SyncProviderWrapper W)
      → Notifies (IsDue pods p.world p.deleted_pods) p (sync_loop h pods p).1
  unfolding sync_loop
  loop-Notifies [] p = nothing p
  loop-Notifies (x ∷ pods) p = elim (Bool-cases (should_skip_pod_status_update x)) [
    | inl e ↦ rw e (weaken x pods (loop-Notifies pods p))
    | inr e ↦ rw e (
        go_on-Notifies x pods p (update_pod_status h x p)
          (first-IsDue x pods p (update_pod_status h x p).1 e (update-Notifies x p))
          (loop-Notifies pods))
  ]

  -- One round of polling over the pods of the lister changes neither the deletion cache nor the
  -- provider, and it notifies only of more pods: each is an unfinished pod of the list, either with
  -- the status that the provider reports for it, or as lost, and then the provider has no status for
  -- it, its key is not in the deletion cache, and it was running or is older than a minute.
  pub sync_pod_statuses-Notifies :
      (pods : List Pod) (p : SyncProviderWrapper W)
      → h.list p.world ≡ ok pods
      → Notifies (IsDue pods p.world p.deleted_pods) p (sync_pod_statuses h p).1
  unfolding sync_pod_statuses
  sync_pod_statuses-Notifies pods p e = rw e (loop-Notifies pods p)
