-- ===== src/PodController/Examples.antt =====
-- A provider that keeps a list of pods, and the theorems of the modules beside at it.
use native_kubelet.Base.{
  Str, codes, str_eq, lookup, insert, true, false, Option, none, some, List, [], ◌∷◌, ◌++◌, All,
  ◌≡◌, ◌↔◌, refl, ap, inl,
}
use native_kubelet.Samples.{cluster, web, meta, pod, populated, pod_populates}
use mathlib.Core.List.{Perm}
use native_kubelet.Result.{ok, err, panic}
use native_kubelet.Errdefs.{not_found, is_not_found_error}
use native_kubelet.Kube.{Container, Pod, Event}
use native_kubelet.Podutils.Populate.{populate_environment_variables}
use native_kubelet.PodController.Compare.{
  Cmp, containers_image_equal, pods_equal, should_skip_pod_status_update,
}
use native_kubelet.PodController.State.{new_known_pod, Services, State}
use native_kubelet.PodController.Sync.{sync_pod_in_provider, delete_dangling_pods}
use native_kubelet.PodController.Status.{update_pod_status}
use native_kubelet.PodController.Informer.{add_func, update_func}
use native_kubelet.PodController.Invariant.{IsSound}
use native_kubelet.PodController.Reachable.{added, start, next, Reach-IsSound, update_func_total}
use native_kubelet.PodController.Images.{
  Uses, IsReflexive, with_containers, containers_image_equal_iff,
}
use native_kubelet.PodController.Terminal.{
  other_provider, sync_creates_nothing, done, missing, Deletes, deletes_dangling,
}
use native_kubelet.PodController.Repeat.{
  IsProvided, IsUpdated, IsCreated, update_loses_status, sync_twice,
}

-- Everything is equal to everything.
abbrev lax : Cmp
lax = record {
  equal_seconds = λ x y. true;
  equal_tolerations = λ x y. true;
  equal_maps = λ x y. true;
  equal_status = λ x y. true;
  equal_pods = λ f x y. true;
}

abbrev first_pod : List Pod → Option Pod
first_pod [] = none
first_pod (p ∷ ps) = some p

abbrev key_of : Pod → Str
key_of p = p.metadata.namespace ++ codes "/" ++ p.metadata.name

abbrev services : Services (List Pod)
services = record {
  create_pod = λ w p. (p ∷ w, none);
  update_pod = λ w p. (p ∷ [], none);
  delete_pod = λ w p. ([], none);
  get_pod = λ w namespace name. (first_pod w, none);
  get_pods = λ w. ok w;
  delete_pod_key = λ w key. w;
  lister_get = λ w namespace name. err (not_found (codes "pod"));
  update_status = λ w p. (w, none);
  delete_from_kubernetes = λ w namespace name grace. (w, none);
  now = λ w. 1000;
  api_is_not_found = is_not_found_error;
  error_text = λ e. codes "error";
  meta_namespace_key = λ p. ok (key_of p);
  deletion_handling_meta_namespace_key = λ p. ok (key_of p);
  split_meta_namespace_key = λ key. ok (codes "default", codes "web-0");
  cmp = lax;
  cluster = cluster;
}

abbrev key : Str
key = codes "default/web-0"

abbrev empty_state : State (List Pod)
empty_state = record { world = []; known_pods = []; heap = []; ops = []; events = [] }

-- The pod is known, and the provider has `pods`.
abbrev known_state : List Pod → State (List Pod)
known_state pods = record {
  world = pods;
  known_pods = (key, 0) ∷ [];
  heap = new_known_pod ∷ [];
  ops = [];
  events = [];
}

Reach-IsSound_example : IsSound (add_func services pod empty_state).1
Reach-IsSound_example = Reach-IsSound services (next (start []) (added pod))

update_func_total_example :
    (update_func services pod pod (add_func services pod empty_state).1).0 ≡ ok tt
unfolding add_func insert lookup
update_func_total_example =
    update_func_total services pod pod key (next (start []) (added pod)) refl refl

abbrev other : Container
other = record web { image = codes "other" }

abbrev old_pod : Pod
old_pod = with_containers (other ∷ []) pod

known_pod-IsProvided :
    (pods : List Pod) → IsProvided services pod key 0 new_known_pod (known_state pods)
unfolding lookup should_skip_pod_status_update
known_pod-IsProvided pods = record {
  unmarked = refl;
  unfinished = refl;
  known = refl;
  entry = refl;
  unused = refl;
}

abbrev pod_events : List Event
pod_events = (populate_environment_variables cluster pod).1

populates : populate_environment_variables cluster pod ≡ (ok populated, pod_events)
populates = ap (λ r. (r, pod_events)) pod_populates

old_pod-IsUpdated :
    IsUpdated services pod populated old_pod pod_events
      (populated ∷ [])
      key
      (known_state (old_pod ∷ []))
unfolding pods_equal containers_image_equal str_eq
old_pod-IsUpdated = record {
  populates = populates;
  provider_has = refl;
  differs = refl;
  succeeds = refl;
  key_of = refl;
}

pod-IsCreated : IsCreated services pod populated pod_events (populated ∷ []) (known_state [])
pod-IsCreated = record { populates = populates; provider_lacks = refl; succeeds = refl }

update_loses_status_example :
    let (r, t) = sync_pod_in_provider services pod key (known_state (old_pod ∷ [])) in
    (r ≡ ok tt)
    × ((later : Pod)
        → should_skip_pod_status_update later ≡ false
        → (update_pod_status services later key t).0 ≡ panic)
update_loses_status_example =
    update_loses_status services pod populated old_pod pod_events (populated ∷ []) key 0
      new_known_pod (known_state (old_pod ∷ [])) (known_pod-IsProvided (old_pod ∷ []))
      old_pod-IsUpdated

sync_twice_example :
    let (r, t) = sync_pod_in_provider services pod key (known_state []) in
    (r ≡ ok tt)
    × (t.world ≡ populated ∷ [])
    × (sync_pod_in_provider services pod key t ≡ (ok tt, t))
sync_twice_example =
    sync_twice services pod populated pod_events (populated ∷ []) key 0 new_known_pod
      (known_state []) (λ x. refl) (known_pod-IsProvided []) pod-IsCreated

containers_image_equal_iff_example :
    (containers_image_equal (web ∷ web ∷ []) (web ∷ other ∷ []) ≡ true)
    ↔ All (λ (c : Container). Uses c.image (web ∷ other ∷ [])) (web ∷ web ∷ [])
containers_image_equal_iff_example = containers_image_equal_iff (web ∷ web ∷ []) (web ∷ other ∷ [])

lax-IsReflexive : IsReflexive lax
lax-IsReflexive = record { seconds = λ x. refl; tolerations = λ x. refl; maps = λ x. refl }

abbrev marked : Pod
marked = record pod { metadata = record meta { deletion_timestamp = some 5 } }

sync_creates_nothing_example :
    sync_pod_in_provider
      (other_provider services
        (λ w p. (p ∷ p ∷ w, none))
        (λ w p. ([], some (not_found (codes "x")))))
      marked
      key
      (known_state [])
    ≡ sync_pod_in_provider services marked key (known_state [])
sync_creates_nothing_example =
    sync_creates_nothing services (λ w p. (p ∷ p ∷ w, none))
      (λ w p. ([], some (not_found (codes "x")))) marked key (known_state []) (inl refl)

deletes_dangling_example :
    (calls : List Pod) × (w : List Pod) × Perm calls (pod ∷ old_pod ∷ [])
    × Deletes services calls (pod ∷ old_pod ∷ []) w
    × (delete_dangling_pods services (1 ∷ []) (known_state (pod ∷ old_pod ∷ []))
        ≡ record (known_state (pod ∷ old_pod ∷ [])) { world = w })
unfolding is_not_found_error not_found
deletes_dangling_example =
    deletes_dangling services (1 ∷ []) (known_state (pod ∷ old_pod ∷ [])) (pod ∷ old_pod ∷ [])
      (pod ∷ old_pod ∷ []) refl (missing refl refl (missing refl refl done))
