-- ===== src/Native/Trace.antt =====
-- native/process_manager.go, PodProcess.run: which containers the loop runs, in which worlds.
use native_kubelet.Base.{
  ℕ, ◌+◌, ◌==◌, zero, suc, get_elem?, Bool, Bool-cases, true, false, if◌then◌else◌, is_some, Option,
  none, some, List, [], ◌∷◌, ◌≡◌, refl, inl, inr,
}
use native_kubelet.Result.{Result, ok, err, panic}
use native_kubelet.Errdefs.{Error}
use native_kubelet.Kube.{Pod}
use native_kubelet.Native.Process.{
  ContainerProcess, PodProcess, get_pod, get_pod_key, World, Did, sent_start, ran, run_failed, End,
  also_if, after_run, with_pod, at_index, run_loop,
}

-- PodProcessStart is sent before each run of the first container.
abbrev pub announced : ℕ → List Did → List Did
announced i ds = if i == 0 then sent_start ∷ ds else ds

module _ {W : Type 0} (world : World W) (p : PodProcess) where
  -- In the world `w` the loop tries the container `cp`: it is the one at `i` in the chain, the
  -- context goes on, and the database has the pod, which is not marked for deletion.
  pub record Tries (w : W) (i : ℕ) (cp : ContainerProcess) : Type 0 where
    pub chosen : get_elem? p.process_chain i ≡ some cp
    pub going : world.is_done w ≡ false
    pub pod : Pod
    pub has : get_pod (world.db_get w (get_pod_key p.namespace p.pod_name)) ≡ ok (some pod)
    pub unmarked : is_some pod.metadata.deletion_timestamp ≡ false

  -- What was done from a world and an index on: each entry comes from a run of the container at that
  -- index, in the world that the run before it left; a success leads to the next container and a
  -- failure to the same one again.
  pub data Trace : W → ℕ → List Did → Type 0 where
    no_more : {w : W} {i : ℕ} → Trace w i []
    ran_then :
        {w w' : W} {i : ℕ} {ds : List Did} {cp : ContainerProcess}
        → Tries w i cp
        → world.run_container w cp i ≡ (w', none)
        → Trace w' (i + 1) ds
        → Trace w i (announced i (ran i ∷ ds))
    failed_then :
        {w w' : W} {i : ℕ} {ds : List Did} {cp : ContainerProcess} {e : Error}
        → Tries w i cp
        → world.run_container w cp i ≡ (w', some e)
        → Trace w' i ds
        → Trace w i (announced i (run_failed i ∷ ds))

  also_if_log :
      (b : Bool) (r : End × List Did)
      → (also_if b sent_start r).1 ≡ (if b then sent_start ∷ r.1 else r.1)
  also_if_log true r = refl
  also_if_log false r = refl

  after_run-Trace :
      (w : W) (i : ℕ) (cp : ContainerProcess) (again : W → ℕ → End × List Did)
      (r : W × Option Error)
      → Tries w i cp
      → world.run_container w cp i ≡ r
      → ((w : W) (i : ℕ) → Trace w i (again w i).1)
      → Trace w i (announced i (after_run world i again r).1)
  after_run-Trace w i cp again (w', some e) t q h = failed_then t q (h w' i)
  after_run-Trace w i cp again (w', none) t q h = ran_then t q (h w' (i + 1))

  with_pod-Trace :
      (w : W) (i : ℕ) (cp : ContainerProcess) (again : W → ℕ → End × List Did)
      (r : Result (Option Pod))
      → get_elem? p.process_chain i ≡ some cp
      → world.is_done w ≡ false
      → get_pod (world.db_get w (get_pod_key p.namespace p.pod_name)) ≡ r
      → ((w : W) (i : ℕ) → Trace w i (again w i).1)
      → Trace w i (with_pod world w i cp again r).1
  with_pod-Trace w i cp again (err e) c g q h = no_more
  with_pod-Trace w i cp again panic c g q h = no_more
  with_pod-Trace w i cp again (ok none) c g q h = no_more
  with_pod-Trace w i cp again (ok (some pod)) c g q h =
      elim (Bool-cases (is_some pod.metadata.deletion_timestamp)) [
        | inl e ↦ rw e no_more
        | inr e ↦
            let t : Tries w i cp = record {
              chosen = c;
              going = g;
              pod = pod;
              has = q;
              unmarked = e;
            } in
            let r = world.run_container w cp i in
            rw (e, also_if_log (i == 0) (after_run world i again r))
              (after_run-Trace w i cp again r t refl h)
      ]

  at_index-Trace :
      (w : W) (i : ℕ) (again : W → ℕ → End × List Did) (o : Option ContainerProcess)
      → get_elem? p.process_chain i ≡ o
      → world.is_done w ≡ false
      → ((w : W) (i : ℕ) → Trace w i (again w i).1)
      → Trace w i (at_index world w i o again (get_pod_key p.namespace p.pod_name)).1
  at_index-Trace w i again none c g h = no_more
  at_index-Trace w i again (some cp) c g h =
      with_pod-Trace w i cp again (get_pod (world.db_get w (get_pod_key p.namespace p.pod_name))) c
        g refl h

  pub run_loop-Trace : (fuel : ℕ) (w : W) (i : ℕ) → Trace w i (run_loop world fuel p w i).1
  unfolding run_loop
  run_loop-Trace zero w i = no_more
  run_loop-Trace (suc fuel) w i = elim (Bool-cases (world.is_done w)) [
    | inl e ↦ rw e no_more
    | inr e ↦ rw e (
        at_index-Trace w i (run_loop world fuel p) (get_elem? p.process_chain i) refl e
          (λ w i. run_loop-Trace fuel w i))
  ]
