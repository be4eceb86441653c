-- ===== src/Native/Ends.antt =====
-- How the start of a container ends.
use native_kubelet.Base.{
  suc, Str, Bool, true, false, if◌then◌else◌, Option, none, some, List, ◌≡◌, ◌∙◌, arith,
}
use native_kubelet.Result.{Result, ok, err, panic}
use native_kubelet.Errdefs.{Error}
use native_kubelet.Kube.{Pod}
use native_kubelet.Native.Download.{Volume, VolumeMount}
use native_kubelet.Native.Start.{
  process_finish, Machine, Runner, Stepped, run_process, finish_with, process_waiter, wait_signal,
  resources, run_ready, report, start_func,
}
use native_kubelet.Native.Parts.{
  finishes, Prepares, IsHonest, IsReady, IsPrepared, Part, send-finishes,
}
use native_kubelet.Native.Steps.{resources-Part, run_process-Part}

module _ {W : Type 0} (Pulled Unzipped : W → Type 0) where
  -- One ContainerProcessFinish when the wait for the process has ended or there was an error, and none
  -- when the context ended first or the code panicked; and what was waited for was prepared.
  abbrev pub EndsOnce : Runner W → Runner W × Result Bool → Type 0
  EndsOnce r (s, ok true) =
      (finishes s.events ≡ suc (finishes r.events)) × IsReady Pulled Unzipped s
  EndsOnce r (s, ok false) = finishes s.events ≡ finishes r.events
  EndsOnce r (s, err e) = finishes s.events ≡ suc (finishes r.events)
  EndsOnce r (s, panic) = finishes s.events ≡ finishes r.events

  -- Before the error is reported.
  abbrev Unreported : Runner W → Runner W × Result Bool → Type 0
  Unreported r (s, err e) = finishes s.events ≡ finishes r.events
  Unreported r (s, ok b) = EndsOnce r (s, ok b)
  Unreported r (s, panic) = finishes s.events ≡ finishes r.events

module _ {W : Type 0} (machine : Machine W) (mounts : List VolumeMount) (volumes : List Volume)
    (workdir : Str) (pod : Pod) (is_always : Bool) (Pulled Unzipped : W → Type 0)
    (prepares : Prepares machine Pulled Unzipped) where
  finish_with-finishes :
      (r : Runner W) (x : W × Option Error)
      → finishes (finish_with machine mounts volumes workdir pod is_always r x).events
        ≡ suc (finishes r.events)
  finish_with-finishes r (w, e) =
      omega (arith, send-finishes (process_finish (some r.process.pid) e) r)

  finish_with-IsReady :
      (r : Runner W) (x : W × Option Error)
      → IsPrepared r.process
      → Pulled x.0 × Unzipped x.0
      → IsReady Pulled Unzipped (finish_with machine mounts volumes workdir pod is_always r x)
  finish_with-IsReady r (w, e) h ready = (h, ready)

  wait_signal-Unreported :
      (r : Runner W) (x : Stepped W)
      → Part (IsReady Pulled Unzipped) r x
      → Unreported Pulled Unzipped r (wait_signal machine mounts volumes workdir pod is_always x)
  unfolding process_waiter
  wait_signal-Unreported r (s, panic) h = h
  wait_signal-Unreported r (s, err e) h = by_done (machine.is_done s.world)
    where
      by_done : (b : Bool) → Unreported Pulled Unzipped r (if b then (s, ok false) else (s, err e))
      by_done true = h
      by_done false = h
  wait_signal-Unreported r (s, ok _) (h, (k, ready)) = by_done (machine.is_done s.world)
    where
      by_done :
          (b : Bool)
          → Unreported Pulled Unzipped r (
              if b
              then (s, ok false)
              else (process_waiter machine mounts volumes workdir pod is_always s, ok true))
      by_done true = h
      by_done false =
          let x = machine.wait_dead s.world s.process.pid in
          (
            omega (arith, finish_with-finishes s x, h),
            finish_with-IsReady s x k (prepares.wait_keeps s.world s.process.pid ready),
          )

  run_ready-Unreported :
      (r : Runner W) (x : Stepped W)
      → Part (IsReady Pulled Unzipped) r x
      → Unreported Pulled Unzipped r (run_ready machine mounts volumes workdir pod is_always x)
  run_ready-Unreported r (s, ok _) (h, k) =
      later
        (wait_signal machine mounts volumes workdir pod is_always
          (run_process machine mounts volumes workdir pod is_always s))
        (wait_signal-Unreported s (run_process machine mounts volumes workdir pod is_always s) (
          run_process-Part machine mounts volumes workdir pod is_always Pulled Unzipped prepares s
            k))
    where
      later :
          (y : Runner W × Result Bool)
          → Unreported Pulled Unzipped s y
          → Unreported Pulled Unzipped r y
      later (t, ok true) (a, b) = (omega (arith, a, h), b)
      later (t, ok false) a = a ∙ h
      later (t, err e) a = a ∙ h
      later (t, panic) a = a ∙ h
  run_ready-Unreported r (s, err e) h = h
  run_ready-Unreported r (s, panic) h = h

  report-EndsOnce :
      (r : Runner W) (x : Runner W × Result Bool)
      → Unreported Pulled Unzipped r x
      → EndsOnce Pulled Unzipped r (report machine mounts volumes workdir pod is_always x)
  report-EndsOnce r (s, ok true) h = h
  report-EndsOnce r (s, ok false) h = h
  report-EndsOnce r (s, err e) h = omega (arith, send-finishes (process_finish none (some e)) s, h)
  report-EndsOnce r (s, panic) h = h

  -- However the image, the files, the environment and the process of a container turn out, its start
  -- sends exactly one ContainerProcessFinish when the wait for its process has ended, with or without
  -- an error of the wait, or when there was an error before it, and none when the context ended first or
  -- the code panicked. Let `Pulled` and `Unzipped` be properties of the host that a pull and an unpacking
  -- without an error bring about, that the other operations keep, and that hold at the start where the
  -- flags of the process say so. Then, when the wait has ended, the host has both, and all four flags
  -- of the process are set: image pulled and unpacked, configmaps and secrets downloaded.
  pub start_func-EndsOnce :
      (r : Runner W)
      → IsHonest Pulled Unzipped r
      → EndsOnce Pulled Unzipped r (start_func machine mounts volumes workdir pod is_always r)
  unfolding start_func
  start_func-EndsOnce r h = report-EndsOnce r _ (
      run_ready-Unreported r (resources machine mounts volumes workdir pod is_always r)
        (resources-Part machine mounts volumes workdir pod is_always Pulled Unzipped prepares r h))
