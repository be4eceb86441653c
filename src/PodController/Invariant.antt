-- ===== src/PodController/Invariant.antt =====
-- What holds of the known pods between the calls of the handlers.
use native_kubelet.Base.{
  ℕ, ◌<◌, Str, lookup, delete, lookup-insert, lookup-delete, length, length-append, length-set,
  get_elem?, All, All-append, All-set, All-get_elem?, Bool, true, false, if◌then◌else◌, is_some,
  some, List, [], ◌∷◌, ◌≡◌, arith,
}
use native_kubelet.Kube.{Event, EventType}
use native_kubelet.PodController.State.{
  KnownPod, new_known_pod, State, QueueOp, store_new, write, queue_op, record_event,
}

-- A status update was skipped only after a status was received.
abbrev pub SkipsAfterStatus : KnownPod → Type 0
SkipsAfterStatus k =
    k.last_pod_status_update_skipped ≡ true
    → is_some k.last_pod_status_received_from_provider ≡ true

-- Every key of the map points to an entry, and every entry that was ever allocated is sound.
pub record IsSound {W : Type 0} (s : State W) : Type 0 where
  pub pointers : (key : Str) (p : ℕ) → lookup key s.known_pods ≡ some p → p < length s.heap
  pub skips : All SkipsAfterStatus s.heap

module _ {W : Type 0} where
  pub store_new-IsSound : (key : Str) {s : State W} → IsSound s → IsSound (store_new key s)
  unfolding store_new
  store_new-IsSound key {s} h = record {
    pointers = λ k p e. ground (
      arith,
      lookup-insert key k (length s.heap) s.known_pods,
      h.pointers k p,
      length-append s.heap (new_known_pod ∷ []),
    );
    skips = All-append SkipsAfterStatus s.heap (new_known_pod ∷ []) h.skips (λ e. ground arith, tt);
  }

  pub write-IsSound :
      (p : ℕ) (k : KnownPod) {s : State W} → SkipsAfterStatus k → IsSound s → IsSound (write p k s)
  unfolding write
  write-IsSound p k {s} g h = record {
    pointers = λ key q e. omega (arith, h.pointers key q e, length-set s.heap p k);
    skips = All-set SkipsAfterStatus s.heap p h.skips g;
  }

  pub delete-IsSound :
      (key : Str) {s : State W}
      → IsSound s
      → IsSound (record s { known_pods = delete key s.known_pods })
  delete-IsSound key {s} h = record {
    pointers = λ k p e. h.pointers k p (ground (arith, lookup-delete key k s.known_pods));
    skips = h.skips;
  }

  pub queue_op-IsSound : (op : QueueOp) {s : State W} → IsSound s → IsSound (queue_op op s)
  unfolding queue_op
  queue_op-IsSound op h = record { pointers = h.pointers; skips = h.skips }

  pub event-IsSound :
      (t : EventType) (reason : Str) (args : List Str) {s : State W}
      → IsSound s
      → IsSound (record_event t reason args s)
  unfolding record_event
  event-IsSound t reason args h = record { pointers = h.pointers; skips = h.skips }

  pub events-IsSound :
      (es : List Event) {s : State W} → IsSound s → IsSound (record s { events = es })
  events-IsSound es h = record { pointers = h.pointers; skips = h.skips }

  pub world-IsSound : (w : W) {s : State W} → IsSound s → IsSound (record s { world = w })
  world-IsSound w h = record { pointers = h.pointers; skips = h.skips }

  -- An entry that was loaded is there, and is sound.
  pub loaded_SkipsAfterStatus :
      (p : ℕ) {k : KnownPod} (s : State W)
      → IsSound s
      → get_elem? s.heap p ≡ some k
      → SkipsAfterStatus k
  loaded_SkipsAfterStatus p s h e = All-get_elem? SkipsAfterStatus s.heap p h.skips e

  pub if_state-IsSound :
      (b : Bool) (x y : State W) → IsSound x → IsSound y → IsSound (if b then x else y)
  if_state-IsSound true x y hx hy = hx
  if_state-IsSound false x y hx hy = hy

  pub if-IsSound :
      {A : Type 0} (b : Bool) (x y : A × State W)
      → IsSound x.1
      → IsSound y.1
      → IsSound (if b then x else y).1
  if-IsSound true x y hx hy = hx
  if-IsSound false x y hx hy = hy
