-- ===== src/Native/KeepsWorld.antt =====
-- What the writes of files keep of the host, the downloads of a container keep.
use native_kubelet.Base.{
  Str, Dict, lookup, Bool, true, false, if◌then◌else◌, Option, none, some, ◌⊎◌, inl, inr, List, [],
  ◌∷◌,
}
use native_kubelet.Result.{Result, ok, err, panic}
use native_kubelet.Errdefs.{Error}
use native_kubelet.Native.Download.{
  VolumeKind, config_map_kind, secret_kind, KeyToPath, VolumeSource, Volume, VolumeMount, Files,
  Download, source_of, paths_of, is_optional, file_of, missing_key, Downloaded, after_write,
  with_bytes, write_items, without_object, with_object, with_source, download_volumes, Progress,
  after_part, download_part, then_secrets, download_resource,
}

module _ {W : Type 0} (files : Files W) (mounts : List VolumeMount) (workdir : Str) (K : W → Type 0)
    (writes : (w : W) (file bytes : Str) → K w → K (files.write_file w file bytes).0) where
  abbrev Keeps : (Download W → Downloaded files mounts workdir) → Type 0
  Keeps step = (s : Download W) → K s.disk → K (step s).0.disk

  after_write-Keeps :
      (file bytes : Str) (s : Download W) (r : W × Option Error)
      (next : Download W → Downloaded files mounts workdir)
      → K r.0
      → Keeps next
      → K (after_write files mounts workdir file bytes s r next).0.disk
  after_write-Keeps file bytes s (w, some e) next k h = k
  after_write-Keeps file bytes s (w, none) next k h = h _ k

  if-Keeps :
      (b : Bool) (x y : Downloaded files mounts workdir)
      → K x.0.disk
      → K y.0.disk
      → K (if b then x else y).0.disk
  if-Keeps true x y p q = p
  if-Keeps false x y p q = q

  with_bytes-Keeps :
      (kind : VolumeKind) (ns volume : Str) (source : VolumeSource) (item : KeyToPath)
      (v : Option Str) (next : Download W → Downloaded files mounts workdir)
      → Keeps next
      → Keeps (λ s. with_bytes files mounts workdir kind ns volume source item s v next)
  with_bytes-Keeps kind ns volume source item none next h = λ s k.
      if-Keeps (is_optional source.optional) (next s)
        (s, err (missing_key kind source.name item.key ns)) (h s k) k
  with_bytes-Keeps kind ns volume source item (some bytes) next h = λ s k.
      let file = file_of files mounts workdir volume item in
      after_write-Keeps file bytes s (files.write_file s.disk file bytes) next
        (writes s.disk file bytes k) h

  write_items-Keeps :
      (kind : VolumeKind) (ns volume : Str) (source : VolumeSource) (data' : Dict Str)
      (items : List KeyToPath) (next : Download W → Downloaded files mounts workdir)
      → Keeps next
      → Keeps (write_items files mounts workdir kind ns volume source data' items next)
  unfolding write_items
  write_items-Keeps kind ns volume source data' [] next h = h
  write_items-Keeps kind ns volume source data' (item ∷ items) next h =
      with_bytes-Keeps kind ns volume source item (lookup item.key data') _
        (write_items-Keeps kind ns volume source data' items next h)

  without_object-Keeps :
      (optional : Option Bool) (e : Error) (next : Download W → Downloaded files mounts workdir)
      → Keeps next
      → Keeps (λ s. without_object files mounts workdir optional e s next)
  without_object-Keeps none e next h = λ s k. k
  without_object-Keeps (some true) e next h = h
  without_object-Keeps (some false) e next h = λ s k. k

  with_object-Keeps :
      (kind : VolumeKind) (ns volume : Str) (source : VolumeSource) (object : Error ⊎ Dict Str)
      (next : Download W → Downloaded files mounts workdir)
      → Keeps next
      → Keeps (with_object files mounts workdir kind ns volume source object next)
  with_object-Keeps kind ns volume source (inr data') next h =
      write_items-Keeps kind ns volume source data' (paths_of source.items data') next h
  with_object-Keeps kind ns volume source (inl e) next h = λ s k.
      if-Keeps (files.is_not_found e) (without_object files mounts workdir source.optional e s next)
        (s, err e) (without_object-Keeps source.optional e next h s k) k

  with_source-Keeps :
      (kind : VolumeKind) (ns volume : Str) (source : Option VolumeSource)
      (next : Download W → Downloaded files mounts workdir)
      → Keeps next
      → Keeps (with_source files mounts workdir kind ns volume source next)
  with_source-Keeps kind ns volume none next h = h
  with_source-Keeps kind ns volume (some source) next h =
      with_object-Keeps kind ns volume source (files.get_object kind source.name ns) next h

  download_volumes-Keeps :
      (kind : VolumeKind) (ns : Str) (vs : List Volume)
      → Keeps (download_volumes files mounts workdir kind ns vs)
  unfolding download_volumes
  download_volumes-Keeps kind ns [] = λ s k. k
  download_volumes-Keeps kind ns (v ∷ vs) =
      with_source-Keeps kind ns v.name (source_of kind v) _ (download_volumes-Keeps kind ns vs)

  after_part-Keeps :
      (kind : VolumeKind) (p : Progress files mounts workdir) (d : Downloaded files mounts workdir)
      → K d.0.disk
      → K (after_part files mounts workdir kind p d).0.download.disk
  after_part-Keeps config_map_kind p (s, ok _) k = k
  after_part-Keeps secret_kind p (s, ok _) k = k
  after_part-Keeps kind p (s, err e) k = k
  after_part-Keeps kind p (s, panic) k = k

  download_part-Keeps :
      (kind : VolumeKind) (b : Bool) (ns : Str) (vs : List Volume)
      (p : Progress files mounts workdir)
      → K p.download.disk
      → K (download_part files mounts workdir kind b ns vs p).0.download.disk
  download_part-Keeps kind true ns vs p k = k
  download_part-Keeps kind false ns vs p k =
      after_part-Keeps kind p _ (download_volumes-Keeps kind ns vs p.download k)

  then_secrets-Keeps :
      (ns : Str) (vs : List Volume) (x : Progress files mounts workdir × Result (Unit {0}))
      → K x.0.download.disk
      → K (then_secrets files mounts workdir ns vs x).0.download.disk
  then_secrets-Keeps ns vs (p, ok _) k = download_part-Keeps secret_kind p.secret_download ns vs p k
  then_secrets-Keeps ns vs (p, err e) k = k
  then_secrets-Keeps ns vs (p, panic) k = k

  pub download_resource-Keeps :
      (ns : Str) (vs : List Volume) (p : Progress files mounts workdir)
      → K p.download.disk
      → K (download_resource files mounts workdir ns vs p).0.download.disk
  unfolding download_resource
  download_resource-Keeps ns vs p k =
      then_secrets-Keeps ns vs _
        (download_part-Keeps config_map_kind p.config_map_download ns vs p k)
