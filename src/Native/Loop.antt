-- ===== src/Native/Loop.antt =====
-- The order in which the loop runs the chain, its end, and when a container is restarted.
use native_kubelet.Base.{
  ℕ, ◌+◌, ◌≤◌, ◌<◌, ◌==◌, zero, suc, Str, length, get_elem?, get_elem?-some, Bool, Bool-cases, true,
  false, is_some, Option, Option-cases, none, some, List, [], ◌∷◌, ◌≡◌, refl, ap, ◌∙◌, inl, inr,
  arith,
}
use native_kubelet.Result.{Result, ok, err, panic}
use native_kubelet.Errdefs.{Error}
use native_kubelet.Kube.{Pod}
use native_kubelet.Native.Trace.{Trace, run_loop-Trace}
use native_kubelet.Native.Process.{
  ContainerProcess, PodProcess, found, key_not_found, get_pod, get_pod_key, World, Did, sent_start,
  ran, run_failed, End, finished, stopped, panicked, out_of_fuel, also_if, after_run, with_pod,
  at_index, run_loop, run,
}

-- The indices of the containers that ran, in order.
unfoldable pub ran_indices : List Did → List ℕ
ran_indices [] = []
ran_indices (ran i ∷ ds) = i ∷ ran_indices ds
ran_indices (run_failed i ∷ ds) = ran_indices ds
ran_indices (sent_start ∷ ds) = ran_indices ds

-- `count` numbers from `start` on.
unfoldable pub range : ℕ → ℕ → List ℕ
range start zero = []
range start (suc count) = start ∷ range (start + 1) count

-- The containers from `index` on ran one after another, up to the end of the chain when it finished.
pub record InOrder (index len : ℕ) (r : End × List Did) : Type 0 where
  pub count : ℕ
  pub order : ran_indices r.1 ≡ range index count
  pub bound : index + count ≤ len
  pub whole : r.0 ≡ finished → index + count ≡ len

none_ran :
    (index len : ℕ) (e : End)
    → index ≤ len
    → (e ≡ finished → index ≡ len)
    → InOrder index len (e, [])
unfolding ran_indices range
none_ran index len e h w = record {
  count = 0;
  order = refl;
  bound = omega (arith, h);
  whole = λ f. omega (arith, w f);
}

after_run-InOrder :
    {W : Type 0} (world : World W) (index len : ℕ) (again : W → ℕ → End × List Did)
    (r : W × Option Error)
    → index < len
    → ((w : W) (i : ℕ) → i ≤ len → InOrder i len (again w i))
    → InOrder index len (after_run world index again r)
unfolding ran_indices range
after_run-InOrder world index len again (w, some e) l h =
    let k = h w index (omega (arith, l)) in
    record { count = k.count; order = k.order; bound = k.bound; whole = k.whole }
after_run-InOrder world index len again (w, none) l h =
    let k = h w (index + 1) (omega (arith, l)) in
    record {
      count = suc k.count;
      order = ap (λ ns. index ∷ ns) k.order;
      bound = omega (arith, k.bound);
      whole = λ f. omega (arith, k.whole f);
    }

also_if-InOrder :
    (b : Bool) (index len : ℕ) (r : End × List Did)
    → InOrder index len r
    → InOrder index len (also_if b sent_start r)
unfolding ran_indices
also_if-InOrder true index len (e, ds) h = record {
  count = h.count;
  order = h.order;
  bound = h.bound;
  whole = h.whole;
}
also_if-InOrder false index len r h = h

with_pod-InOrder :
    {W : Type 0} (world : World W) (w : W) (index len : ℕ) (cp : ContainerProcess)
    (again : W → ℕ → End × List Did) (r : Result (Option Pod))
    → index < len
    → ((w : W) (i : ℕ) → i ≤ len → InOrder i len (again w i))
    → InOrder index len (with_pod world w index cp again r)
with_pod-InOrder world w index len cp again (err e) l h =
    none_ran index len stopped (omega (arith, l)) (λ f. absurd (ground arith))
with_pod-InOrder world w index len cp again panic l h =
    none_ran index len panicked (omega (arith, l)) (λ f. absurd (ground arith))
with_pod-InOrder world w index len cp again (ok none) l h =
    none_ran index len panicked (omega (arith, l)) (λ f. absurd (ground arith))
with_pod-InOrder world w index len cp again (ok (some pod)) l h =
    elim (Bool-cases (is_some pod.metadata.deletion_timestamp)) [
      | inl e ↦ rw e (none_ran index len stopped (omega (arith, l)) (λ f. absurd (ground arith)))
      | inr e ↦ rw e (
          also_if-InOrder (index == 0) index len _
            (after_run-InOrder world index len again (world.run_container w cp index) l h))
    ]

get_elem?-length :
    (cps : List ContainerProcess) (i : ℕ) {cp : ContainerProcess}
    → get_elem? cps i ≡ some cp
    → i < length cps
get_elem?-length [] i e = absurd (ground arith)
get_elem?-length (c ∷ cps) zero e = omega arith
get_elem?-length (c ∷ cps) (suc i) e = omega (arith, get_elem?-length cps i e)

get_elem?-end :
    (cps : List ContainerProcess) (i : ℕ) → i ≤ length cps → get_elem? cps i ≡ none → i ≡ length cps
get_elem?-end [] i h e = omega (arith, h)
get_elem?-end (c ∷ cps) zero h e = absurd (ground arith)
get_elem?-end (c ∷ cps) (suc i) h e = ap suc (get_elem?-end cps i (omega (arith, h)) e)

at_index-InOrder :
    {W : Type 0} (world : World W) (w : W) (index : ℕ) (cps : List ContainerProcess)
    (o : Option ContainerProcess) (again : W → ℕ → End × List Did) (key : Str)
    → index ≤ length cps
    → get_elem? cps index ≡ o
    → ((w : W) (i : ℕ) → i ≤ length cps → InOrder i (length cps) (again w i))
    → InOrder index (length cps) (at_index world w index o again key)
at_index-InOrder world w index cps none again key l e h =
    none_ran index (length cps) finished l (λ f. get_elem?-end cps index l e)
at_index-InOrder world w index cps (some cp) again key l e h =
    with_pod-InOrder world w index (length cps) cp again (get_pod (world.db_get w key))
      (get_elem?-length cps index e) h

loop-InOrder :
    {W : Type 0} (world : World W) (fuel : ℕ) (p : PodProcess) (w : W) (index : ℕ)
    → index ≤ length p.process_chain
    → InOrder index (length p.process_chain) (run_loop world fuel p w index)
unfolding run_loop
loop-InOrder world zero p w index l =
    none_ran index (length p.process_chain) out_of_fuel l (λ f. absurd (ground arith))
loop-InOrder world (suc fuel) p w index l = elim (Bool-cases (world.is_done w)) [
  | inl e ↦ rw e (none_ran index (length p.process_chain) stopped l (λ f. absurd (ground arith)))
  | inr e ↦ rw e (
      at_index-InOrder world w index p.process_chain (get_elem? p.process_chain index) _ _ l refl
        (λ w i h. loop-InOrder world fuel p w i h))
]

-- The context goes on, the database has the pod, which is not marked for deletion, and each
-- container runs without an error.
pub record IsSteady {W : Type 0} (world : World W) (p : PodProcess) : Type 0 where
  pub going : (w : W) → world.is_done w ≡ false
  pub known : (w : W) → PodProcess
  pub has : (w : W) → world.db_get w (get_pod_key p.namespace p.pod_name) ≡ found (known w)
  pub unmarked : (w : W) → is_some (known w).pod.metadata.deletion_timestamp ≡ false
  pub succeeds : (w : W) (cp : ContainerProcess) (i : ℕ) → (world.run_container w cp i).1 ≡ none

also_if_end : (b : Bool) (d : Did) (r : End × List Did) → (also_if b d r).0 ≡ r.0
also_if_end true d (e, ds) = refl
also_if_end false d r = refl

after_run_end :
    {W : Type 0} (world : World W) (index : ℕ) (again : W → ℕ → End × List Did)
    (r : W × Option Error)
    → r.1 ≡ none
    → (after_run world index again r).0 ≡ (again r.0 (index + 1)).0
after_run_end world index again (w, none) e = refl
after_run_end world index again (w, some x) e = absurd (ground arith)

step_end :
    {W : Type 0} (world : World W) (fuel : ℕ) (p : PodProcess) (w : W) (index : ℕ)
    (cp : ContainerProcess)
    → IsSteady world p
    → get_elem? p.process_chain index ≡ some cp
    → (run_loop world (suc fuel) p w index).0
      ≡ (run_loop world fuel p (world.run_container w cp index).0 (index + 1)).0
unfolding run_loop get_pod
step_end world fuel p w index cp s e =
    rw (s.going w, e, s.has w, s.unmarked w)
      (also_if_end (index == 0) sent_start _
        ∙ after_run_end world index (run_loop world fuel p) (world.run_container w cp index)
            (s.succeeds w cp index))

loop_ends :
    {W : Type 0} (world : World W) (fuel : ℕ) (p : PodProcess) (w : W) (index : ℕ)
    → IsSteady world p
    → get_elem? p.process_chain index ≡ none
    → (run_loop world (suc fuel) p w index).0 ≡ finished
unfolding run_loop
loop_ends world fuel p w index s e = rw (s.going w, e) refl

loop_finishes :
    {W : Type 0} (world : World W) (fuel : ℕ) (p : PodProcess) (w : W) (index : ℕ)
    → IsSteady world p
    → index ≤ length p.process_chain
    → length p.process_chain < index + fuel
    → (run_loop world fuel p w index).0 ≡ finished
loop_finishes world zero p w index s l f = absurd (omega (arith, l, f))
loop_finishes world (suc fuel) p w index s l f =
    elim (Option-cases (get_elem? p.process_chain index)) [
      | inl e ↦ loop_ends world fuel p w index s e
      | inr (cp, e) ↦
          step_end world fuel p w index cp s e
          ∙ loop_finishes world fuel p (world.run_container w cp index).0 (index + 1) s
              (omega (arith, get_elem?-length p.process_chain index e)) (omega (arith, f))
    ]

-- When the context goes on, the database always has the pod, unmarked for deletion, and each
-- container runs without an error, one unit of fuel more than the length of the chain is enough
-- from an index within the chain: the loop ends by itself, and every container from the index of
-- the process on ran, in order, each entry of the log coming from a run of the container at that
-- index of the chain.
pub run_finishes :
    {W : Type 0} (world : World W) (p : PodProcess) (w : W)
    → IsSteady world p
    → p.index ≤ length p.process_chain
    → let r = run world (suc (length p.process_chain)) p w in
      (r.0 ≡ finished)
      × (count : ℕ) × (ran_indices r.1 ≡ range p.index count)
      × (p.index + count ≡ length p.process_chain)
      × Trace world p w p.index r.1
unfolding run
run_finishes world p w s l =
    let e = loop_finishes world (suc (length p.process_chain)) p w p.index s l (omega (arith, l)) in
    let o = loop-InOrder world (suc (length p.process_chain)) p w p.index l in
    (
      e,
      o.count,
      o.order,
      o.whole e,
      run_loop-Trace world p (suc (length p.process_chain)) w p.index,
    )

-- When the process of the pod is gone from the database before its chain has ended, as DeletePod
-- leaves it, and the context goes on, the loop panics.
pub run_panics_when_deleted :
    {W : Type 0} (world : World W) (fuel : ℕ) (p : PodProcess) (w : W)
    → p.index < length p.process_chain
    → world.is_done w ≡ false
    → world.db_get w (get_pod_key p.namespace p.pod_name) ≡ key_not_found
    → run world (suc fuel) p w ≡ (panicked, [])
unfolding run run_loop get_pod
run_panics_when_deleted world fuel p w l g n =
    let (cp, e) = get_elem?-some p.process_chain p.index l in rw (g, e, n) refl
