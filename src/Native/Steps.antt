-- ===== src/Native/Steps.antt =====
-- Each part of the start of a container, up to the start of its process.
use native_kubelet.Base.{
  ℕ, ◌==◌, Str, Bool, true, false, not, Option, none, some, ◌⊎◌, inl, inr, List, [], map, ◌≡◌, refl,
  sym, arith,
}
use native_kubelet.Result.{Result, ok, err, panic}
use native_kubelet.Errdefs.{Error}
use native_kubelet.Kube.{Pod}
use native_kubelet.Native.Env.{build_container_envs, need_pull_image}
use native_kubelet.Native.Download.{
  config_map_kind, secret_kind, Volume, VolumeMount, Progress, Downloaded, after_part,
  download_part, then_secrets, download_resource,
}
use native_kubelet.Native.Process.{ContainerProcess}
use native_kubelet.Native.KeepsWorld.{download_resource-Keeps}
use native_kubelet.Native.Start.{
  pull_started, unzip_started, pulled, unzipped, process_run, Machine, Runner, send, after_pull,
  after_unzip, download_event, after_start, pull, unzip, after_download, download, after_open,
  with_envs, start_process, unless_exists, run_process, resources,
}
use native_kubelet.Native.Parts.{
  finishes-append, finishes-download, IsPrepared, Part, quiet-finishes, and_then-Part, if-Part,
  Prepares, IsHonest, IsReady, IsPulled, IsUnzipped, after_pull-Part, after_unzip-Part, sent-Part,
}

not_needed :
    (to_title : Str → Str) (is_always : Bool) (p : ContainerProcess)
    → need_pull_image to_title is_always p ≡ false
    → p.image_pulled ≡ true
unfolding need_pull_image
not_needed to_title is_always p e = ground (arith, e)

not-false : {b : Bool} → not b ≡ false → b ≡ true
not-false e = ground (arith, e)

module _ {W : Type 0} (machine : Machine W) (mounts : List VolumeMount) (volumes : List Volume)
    (workdir : Str) (pod : Pod) (is_always : Bool) (Pulled Unzipped : W → Type 0)
    (prepares : Prepares machine Pulled Unzipped) where
  pull-Part :
      (r : Runner W)
      → IsHonest Pulled Unzipped r
      → Part (IsPulled Pulled Unzipped) r (pull machine mounts volumes workdir pod is_always r)
  unfolding pull
  pull-Part r h =
      if-Part (IsPulled Pulled Unzipped) r (need_pull_image machine.to_title is_always r.process) _
        _
        (λ _.
          sent-Part (IsPulled Pulled Unzipped) pull_started r
            (after_pull (send pull_started r) (machine.pull_image r.world)) refl
            (after_pull-Part Pulled Unzipped (send pull_started r) (machine.pull_image r.world)
              (prepares.pulls r.world) (λ e. prepares.pull_keeps r.world (h.unzipped e))))
        (λ e. (
          quiet-finishes (pulled none) r refl,
          (refl, h.pulled (not_needed machine.to_title is_always r.process e), h.unzipped),
        ))

  unzip-Part :
      (r : Runner W)
      → IsPulled Pulled Unzipped r
      → Part (IsUnzipped Pulled Unzipped) r (unzip machine mounts volumes workdir pod is_always r)
  unfolding unzip
  unzip-Part r (f, p, u) =
      if-Part (IsUnzipped Pulled Unzipped) r (not r.process.image_unzipped) _ _
        (λ _.
          sent-Part (IsUnzipped Pulled Unzipped) unzip_started r
            (after_unzip (send unzip_started r) (machine.unzip_image r.world)) refl
            (after_unzip-Part Pulled Unzipped (send unzip_started r) (machine.unzip_image r.world) f
              (prepares.unzip_keeps r.world p) (prepares.unzips r.world p)))
        (λ e. (quiet-finishes (unzipped none) r refl, ((f, refl), (p, u (not-false e)))))

  -- A part of the download that ends without an error sets its flag.
  abbrev IsMapped : Progress machine.files mounts workdir × Result (Unit {0}) → Type 0
  IsMapped (p, ok _) = p.config_map_download ≡ true
  IsMapped (p, err e) = Unit
  IsMapped (p, panic) = Unit

  after_part-IsMapped :
      (p : Progress machine.files mounts workdir) (d : Downloaded machine.files mounts workdir)
      → IsMapped (after_part machine.files mounts workdir config_map_kind p d)
  after_part-IsMapped p (s, ok _) = refl
  after_part-IsMapped p (s, err e) = tt
  after_part-IsMapped p (s, panic) = tt

  config_map-IsMapped :
      (b : Bool) (p : Progress machine.files mounts workdir)
      → b ≡ p.config_map_download
      → IsMapped (
          download_part machine.files mounts workdir config_map_kind b pod.metadata.namespace
            volumes p)
  config_map-IsMapped true p h = sym h
  config_map-IsMapped false p h = after_part-IsMapped p _

  abbrev AllDone : Progress machine.files mounts workdir × Result (Unit {0}) → Type 0
  AllDone (p, ok _) = (p.config_map_download ≡ true) × (p.secret_download ≡ true)
  AllDone (p, err e) = Unit
  AllDone (p, panic) = Unit

  after_part-AllDone :
      (p : Progress machine.files mounts workdir) (d : Downloaded machine.files mounts workdir)
      → p.config_map_download ≡ true
      → AllDone (after_part machine.files mounts workdir secret_kind p d)
  after_part-AllDone p (s, ok _) h = (h, refl)
  after_part-AllDone p (s, err e) h = tt
  after_part-AllDone p (s, panic) h = tt

  secret-AllDone :
      (b : Bool) (p : Progress machine.files mounts workdir)
      → b ≡ p.secret_download
      → p.config_map_download ≡ true
      → AllDone (
          download_part machine.files mounts workdir secret_kind b pod.metadata.namespace volumes p)
  secret-AllDone true p h k = (k, sym h)
  secret-AllDone false p h k = after_part-AllDone p _ k

  then_secrets-AllDone :
      (x : Progress machine.files mounts workdir × Result (Unit {0}))
      → IsMapped x
      → AllDone (then_secrets machine.files mounts workdir pod.metadata.namespace volumes x)
  then_secrets-AllDone (p, ok _) h = secret-AllDone p.secret_download p refl h
  then_secrets-AllDone (p, err e) h = tt
  then_secrets-AllDone (p, panic) h = tt

  after_download-Part :
      (r : Runner W) (x : Progress machine.files mounts workdir × Result (Unit {0}))
      → (r.process.image_pulled ≡ true) × (r.process.image_unzipped ≡ true)
      → Pulled x.0.download.disk × Unzipped x.0.download.disk
      → AllDone x
      → Part
          (IsReady Pulled Unzipped)
          r
          (after_download machine mounts volumes workdir pod is_always r x)
  after_download-Part r (p, ok _) (h, k) ready (a, b) = (
    omega
        (arith, finishes-append r.events (map download_event p.events), finishes-download p.events),
    ((h, k, a, b), ready),
  )
  after_download-Part r (p, err e) h ready k =
      omega
        (arith, finishes-append r.events (map download_event p.events), finishes-download p.events)
  after_download-Part r (p, panic) h ready k =
      omega
        (arith, finishes-append r.events (map download_event p.events), finishes-download p.events)

  download-Part :
      (r : Runner W)
      → IsUnzipped Pulled Unzipped r
      → Part (IsReady Pulled Unzipped) r (download machine mounts volumes workdir pod is_always r)
  unfolding download download_resource
  download-Part r (h, ready) =
      let p : Progress machine.files mounts workdir = record {
        download = record { disk = r.world; written = r.written };
        config_map_download = r.process.config_map_download;
        secret_download = r.process.secret_download;
        events = [];
      } in
      let x =
        download_part machine.files mounts workdir config_map_kind r.process.config_map_download
          pod.metadata.namespace volumes p in
      after_download-Part r
        (then_secrets machine.files mounts workdir pod.metadata.namespace volumes x) h
        (download_resource-Keeps machine.files mounts workdir (λ w. Pulled w × Unzipped w)
          prepares.write_keeps pod.metadata.namespace volumes p ready)
        (then_secrets-AllDone x (config_map-IsMapped r.process.config_map_download p refl))

  pub resources-Part :
      (r : Runner W)
      → IsHonest Pulled Unzipped r
      → Part (IsReady Pulled Unzipped) r (resources machine mounts volumes workdir pod is_always r)
  resources-Part r h =
      and_then-Part (IsUnzipped Pulled Unzipped) (IsReady Pulled Unzipped) r _ _
        (and_then-Part (IsPulled Pulled Unzipped) (IsUnzipped Pulled Unzipped) r _ _ (pull-Part r h)
          (λ s k. unzip-Part s k))
        (λ s k. download-Part s k)

  after_start-Part :
      (r : Runner W) (x : W × (Error ⊎ ℕ))
      → IsPrepared r.process
      → Pulled x.0 × Unzipped x.0
      → Part (IsReady Pulled Unzipped) r (after_start r x)
  after_start-Part r (w, inl e) h ready = quiet-finishes (process_run r.process.pid (some e)) r refl
  after_start-Part r (w, inr pid) h ready =
      (quiet-finishes (process_run pid none) r refl, (h, ready))

  after_open-Part :
      (r : Runner W) (envs : List Str) (x : W × Option Error)
      → IsPrepared r.process
      → Pulled x.0 × Unzipped x.0
      → Part
          (IsReady Pulled Unzipped)
          r
          (after_open machine mounts volumes workdir pod is_always r envs x)
  after_open-Part r envs (w, some e) h ready = refl
  after_open-Part r envs (w, none) h ready =
      after_start-Part (record r { world = w }) (machine.start w envs) h
        (prepares.start_keeps w envs ready)

  with_envs-Part :
      (r : Runner W) (x : Result (List Str))
      → IsReady Pulled Unzipped r
      → Part
          (IsReady Pulled Unzipped)
          r
          (with_envs machine mounts volumes workdir pod is_always r x)
  with_envs-Part r (ok envs) (h, ready) =
      after_open-Part r envs (machine.open_log r.world) h (prepares.open_keeps r.world ready)
  with_envs-Part r (err e) h = refl
  with_envs-Part r panic h = refl

  start_process-Part :
      (r : Runner W)
      → IsReady Pulled Unzipped r
      → Part
          (IsReady Pulled Unzipped)
          r
          (start_process machine mounts volumes workdir pod is_always r)
  start_process-Part r h =
      with_envs-Part r (build_container_envs machine.sources pod r.process machine.environ) h

  unless_exists-Part :
      (r : Runner W) (x : Error ⊎ Bool)
      → IsReady Pulled Unzipped r
      → Part
          (IsReady Pulled Unzipped)
          r
          (unless_exists machine mounts volumes workdir pod is_always r x)
  unless_exists-Part r (inl e) h = refl
  unless_exists-Part r (inr true) h = (refl, h)
  unless_exists-Part r (inr false) h = start_process-Part r h

  pub run_process-Part :
      (r : Runner W)
      → IsReady Pulled Unzipped r
      → Part
          (IsReady Pulled Unzipped)
          r
          (run_process machine mounts volumes workdir pod is_always r)
  unfolding run_process
  run_process-Part r h =
      if-Part (IsReady Pulled Unzipped) r (r.process.pid == 0) _ _ (λ _. start_process-Part r h)
        (λ _. unless_exists-Part r (machine.pid_exists r.world r.process.pid) h)
