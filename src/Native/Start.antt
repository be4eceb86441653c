-- ===== src/Native/Start.antt =====
-- native/process_manager.go, image_puller.go, process_runner.go: the start of one container, from its
-- image to the end of its process. Images, processes and files of the host are parameters; the state
-- has the events that were sent, in order. The message of an event is left out.
use native_kubelet.Base.{
  ℕ, ◌==◌, Str, Bool, true, false, not, if◌then◌else◌, Option, none, some, ◌⊎◌, inl, inr, List, [],
  ◌∷◌, ◌++◌, map,
}
use native_kubelet.Result.{Result, ok, err, panic}
use native_kubelet.Errdefs.{Error}
use native_kubelet.Kube.{Pod}
use native_kubelet.Native.Process.{ContainerProcess}
use native_kubelet.Native.Env.{EnvSources, build_container_envs, need_pull_image}
use native_kubelet.Native.Download.{
  VolumeKind, Volume, VolumeMount, Files, Progress, download_resource,
}

pub data RunEvent : Type 0 where
  pull_started unzip_started : RunEvent
  pulled unzipped : Option Error → RunEvent
  downloaded : VolumeKind → Option Error → RunEvent
  -- ContainerProcessRun, with the pid
  process_run : ℕ → Option Error → RunEvent
  -- ContainerProcessFinish: with the pid, or none for -1
  process_finish : Option ℕ → Option Error → RunEvent

pub record Machine (W : Type 0) : Type 0 where
  pub pull_image : W → W × Option Error
  pub unzip_image : W → W × Option Error
  pub pid_exists : W → ℕ → Error ⊎ Bool
  pub open_log : W → W × Option Error
  -- cmd.Start with this environment
  pub start : W → List Str → W × (Error ⊎ ℕ)
  -- the error of waitProcessDead
  pub wait_dead : W → ℕ → W × Option Error
  -- Whether the select takes the end of the context instead of the signal of runProcess
  pub is_done : W → Bool
  pub environ : List Str
  pub to_title : Str → Str
  pub files : Files W
  pub sources : EnvSources

pub record Runner (W : Type 0) : Type 0 where
  pub world : W
  pub process : ContainerProcess
  pub written : List (Str × Str)
  pub events : List RunEvent

abbrev pub Stepped : Type 0 → Type 0
Stepped W = Runner W × Result (Unit {0})

abbrev pub download_event : VolumeKind × Option Error → RunEvent
download_event (kind, e) = downloaded kind e

module _ {W : Type 0} where
  abbrev pub send : RunEvent → Runner W → Runner W
  send e r = record r { events = r.events ++ e ∷ [] }

  abbrev pub and_then : Stepped W → (Runner W → Stepped W) → Stepped W
  and_then (r, ok _) k = k r
  and_then (r, err e) k = (r, err e)
  and_then (r, panic) k = (r, panic)

  abbrev pub pull_finish : Runner W → Stepped W
  pull_finish r =
      (send (pulled none) (record r { process = record r.process { image_pulled = true } }), ok tt)

  abbrev pub after_pull : Runner W → W × Option Error → Stepped W
  after_pull r (w, some e) = (send (pulled (some e)) (record r { world = w }), err e)
  after_pull r (w, none) = pull_finish (record r { world = w })

  abbrev pub unzip_finish : Runner W → Stepped W
  unzip_finish r = (
    send (unzipped none) (record r { process = record r.process { image_unzipped = true } }),
    ok tt,
  )

  abbrev pub after_unzip : Runner W → W × Option Error → Stepped W
  after_unzip r (w, some e) = (send (unzipped (some e)) (record r { world = w }), err e)
  after_unzip r (w, none) = unzip_finish (record r { world = w })

  -- The error is sent both as an event and on the signal.
  abbrev pub after_start : Runner W → W × (Error ⊎ ℕ) → Stepped W
  after_start r (w, inl e) =
      (send (process_run r.process.pid (some e)) (record r { world = w }), err e)
  after_start r (w, inr pid) = (
    send (process_run pid none) (record r { world = w; process = record r.process { pid = pid } }),
    ok tt,
  )

module _ {W : Type 0} (machine : Machine W) (mounts : List VolumeMount) (volumes : List Volume)
    (workdir : Str) (pod : Pod) (is_always : Bool) where
  unfoldable pub pull : Runner W → Stepped W
  unfolding need_pull_image
  pull r =
      if need_pull_image machine.to_title is_always r.process
      then after_pull (send pull_started r) (machine.pull_image r.world)
      else pull_finish r

  unfoldable pub unzip : Runner W → Stepped W
  unzip r =
      if not r.process.image_unzipped
      then after_unzip (send unzip_started r) (machine.unzip_image r.world)
      else unzip_finish r

  abbrev pub after_download :
      Runner W → Progress machine.files mounts workdir × Result (Unit {0}) → Stepped W
  after_download r (p, answer) = (
    record r {
      world = p.download.disk;
      written = p.download.written;
      process = record r.process {
        config_map_download = p.config_map_download;
        secret_download = p.secret_download;
      };
      events = r.events ++ map download_event p.events;
    },
    answer,
  )

  unfoldable pub download : Runner W → Stepped W
  unfolding download_resource
  download r = after_download r (
      download_resource machine.files mounts workdir pod.metadata.namespace volumes (record {
        download = record { disk = r.world; written = r.written };
        config_map_download = r.process.config_map_download;
        secret_download = r.process.secret_download;
        events = [];
      }))

  abbrev pub after_open : Runner W → List Str → W × Option Error → Stepped W
  after_open r envs (w, some e) = (record r { world = w }, err e)
  after_open r envs (w, none) = after_start (record r { world = w }) (machine.start w envs)

  abbrev pub with_envs : Runner W → Result (List Str) → Stepped W
  with_envs r (ok envs) = after_open r envs (machine.open_log r.world)
  with_envs r (err e) = (r, err e)
  with_envs r panic = (r, panic)

  abbrev pub start_process : Runner W → Stepped W
  start_process r = with_envs r (build_container_envs machine.sources pod r.process machine.environ)

  abbrev pub unless_exists : Runner W → Error ⊎ Bool → Stepped W
  unless_exists r (inl e) = (r, err e)
  unless_exists r (inr true) = (r, ok tt)
  unless_exists r (inr false) = start_process r

  -- runProcess, with what it puts on the signal: nothing is run when the process is there.
  unfoldable pub run_process : Runner W → Stepped W
  unfolding build_container_envs
  run_process r =
      if r.process.pid == 0
      then start_process r
      else unless_exists r (machine.pid_exists r.world r.process.pid)

  -- processWaiter: the error of the wait is only sent with the event.
  abbrev pub finish_with : Runner W → W × Option Error → Runner W
  finish_with r (w, e) = send (process_finish (some r.process.pid) e) (record r { world = w })

  unfoldable pub process_waiter : Runner W → Runner W
  process_waiter r = finish_with r (machine.wait_dead r.world r.process.pid)

  -- Whether the context ended first: then its goroutine waits for ever on the signal.
  abbrev pub wait_signal : Stepped W → Runner W × Result Bool
  wait_signal (r, panic) = (r, panic)
  wait_signal (r, err e) = if machine.is_done r.world then (r, ok false) else (r, err e)
  wait_signal (r, ok _) =
      if machine.is_done r.world then (r, ok false) else (process_waiter r, ok true)

  abbrev pub resources : Runner W → Stepped W
  resources r = and_then (and_then (pull r) unzip) download

  abbrev pub run_ready : Stepped W → Runner W × Result Bool
  run_ready (r, ok _) = wait_signal (run_process r)
  run_ready (r, err e) = (r, err e)
  run_ready (r, panic) = (r, panic)

  abbrev pub report : Runner W × Result Bool → Runner W × Result Bool
  report (r, ok b) = (r, ok b)
  report (r, err e) = (send (process_finish none (some e)) r, err e)
  report (r, panic) = (r, panic)

  -- startFunc of ContainerProcess.run: `ok true` when the wait for the process has ended, with or without
  -- an error of waitProcessDead, and `ok false` when the context ended first.
  unfoldable pub start_func : Runner W → Runner W × Result Bool
  unfolding pull unzip download run_process process_waiter
  start_func r = report (run_ready (resources r))
