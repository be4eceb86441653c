-- ===== src/Native/Download.antt =====
-- native/resource_downloader.go: the files of the configmaps and secrets of a container. The code has
-- the two loops twice; the model has them once, with the kind as an argument. The resource manager
-- and the file system are parameters; the state has the files that were written, in order.
use native_kubelet.Base.{
  Str, codes, str_eq, Dict, lookup, Bool, true, false, ◌&&◌, if◌then◌else◌, Option, none, some, ◌⊎◌,
  inl, inr, List, [], ◌∷◌, ◌++◌,
}
use native_kubelet.Result.{Result, ok, err, panic}
use native_kubelet.Errdefs.{Error, message}

pub data VolumeKind : Type 0 where
  config_map_kind secret_kind : VolumeKind

pub record KeyToPath : Type 0 where
  pub key : Str
  pub path : Str

-- ConfigMapVolumeSource, SecretVolumeSource
pub record VolumeSource : Type 0 where
  pub name : Str
  pub items : List KeyToPath
  pub optional : Option Bool

pub record Volume : Type 0 where
  pub name : Str
  pub config_map : Option VolumeSource
  pub secret : Option VolumeSource

pub record VolumeMount : Type 0 where
  pub name : Str
  pub sub_path : Str
  pub mount_path : Str

pub record Files (W : Type 0) : Type 0 where
  -- Data of the object with this name and namespace
  pub get_object : VolumeKind → Str → Str → Error ⊎ Dict Str
  pub is_not_found : Error → Bool
  pub write_file : W → Str → Str → W × Option Error
  pub join : Str → Str → Str

pub record Download (W : Type 0) : Type 0 where
  pub disk : W
  pub written : List (Str × Str)

-- volume.ConfigMap, volume.Secret
abbrev pub source_of : VolumeKind → Volume → Option VolumeSource
source_of config_map_kind v = v.config_map
source_of secret_kind v = v.secret

abbrev pub all_keys : Dict Str → List KeyToPath
all_keys [] = []
all_keys ((key, v) ∷ m) = record { key = key; path = key } ∷ all_keys m

-- Without items every key is a path.
abbrev pub paths_of : List KeyToPath → Dict Str → List KeyToPath
paths_of [] data' = all_keys data'
paths_of (item ∷ items) data' = item ∷ items

-- The first mount of the volume with this path below it
unfoldable pub mount_path_of : Str → Str → List VolumeMount → Str
unfolding str_eq
mount_path_of name path [] = path
mount_path_of name path (mount ∷ mounts) =
    let rest = mount_path_of name path mounts in
    if str_eq mount.name name && str_eq mount.sub_path path then mount.mount_path else rest

abbrev pub is_optional : Option Bool → Bool
is_optional none = false
is_optional (some b) = b

abbrev pub missing_key : VolumeKind → Str → Str → Str → Error
missing_key config_map_kind name key ns =
    message (codes "not found volume configmap %s key %s in namespace %s") (name ∷ key ∷ ns ∷ [])
missing_key secret_kind name key ns =
    message (codes "not found volume secret %s key %s in namespace %s") (name ∷ key ∷ ns ∷ [])

module _ {W : Type 0} (files : Files W) (mounts : List VolumeMount) (workdir : Str) where
  abbrev pub Downloaded : Type 0
  Downloaded = Download W × Result (Unit {0})

  -- The file of an item.
  abbrev pub file_of : Str → KeyToPath → Str
  file_of volume item = files.join workdir (mount_path_of volume item.path mounts)

  abbrev pub after_write :
      Str → Str → Download W → W × Option Error → (Download W → Downloaded) → Downloaded
  after_write file bytes s (w, some e) next = (record s { disk = w }, err e)
  after_write file bytes s (w, none) next =
      next (record s { disk = w; written = s.written ++ (file, bytes) ∷ [] })

  abbrev pub with_bytes :
      VolumeKind
      → Str
      → Str
      → VolumeSource
      → KeyToPath
      → Download W
      → Option Str
      → (Download W → Downloaded)
      → Downloaded
  with_bytes kind ns volume source item s none next =
      if is_optional source.optional
      then next s
      else (s, err (missing_key kind source.name item.key ns))
  with_bytes kind ns volume source item s (some bytes) next =
      after_write (file_of volume item) bytes s
        (files.write_file s.disk (file_of volume item) bytes) next

  unfoldable pub write_items :
      VolumeKind
      → Str
      → Str
      → VolumeSource
      → Dict Str
      → List KeyToPath
      → (Download W → Downloaded)
      → Download W
      → Downloaded
  unfolding lookup mount_path_of
  write_items kind ns volume source data' [] next s = next s
  write_items kind ns volume source data' (item ∷ items) next s =
      let rest = write_items kind ns volume source data' items next in
      with_bytes kind ns volume source item s (lookup item.key data') rest

  -- `*Optional` of an object that was not found, which may be nil
  abbrev pub without_object :
      Option Bool → Error → Download W → (Download W → Downloaded) → Downloaded
  without_object none e s next = (s, panic)
  without_object (some true) e s next = next s
  without_object (some false) e s next = (s, err e)

  abbrev pub with_object :
      VolumeKind
      → Str
      → Str
      → VolumeSource
      → Error ⊎ Dict Str
      → (Download W → Downloaded)
      → Download W
      → Downloaded
  with_object kind ns volume source (inl e) next s =
      if files.is_not_found e then without_object source.optional e s next else (s, err e)
  with_object kind ns volume source (inr data') next s =
      write_items kind ns volume source data' (paths_of source.items data') next s

  abbrev pub with_source :
      VolumeKind
      → Str
      → Str
      → Option VolumeSource
      → (Download W → Downloaded)
      → Download W
      → Downloaded
  with_source kind ns volume none next s = next s
  with_source kind ns volume (some source) next s =
      with_object kind ns volume source (files.get_object kind source.name ns) next s

  -- downloadConfigMaps, downloadSecrets
  unfoldable pub download_volumes : VolumeKind → Str → List Volume → Download W → Downloaded
  unfolding write_items
  download_volumes kind ns [] s = (s, ok tt)
  download_volumes kind ns (v ∷ vs) s =
      with_source kind ns v.name (source_of kind v) (download_volumes kind ns vs) s

  -- What downloadResource did: the flags of the container, and an event for each of its parts with
  -- the error of it.
  pub record Progress : Type 0 where
    pub download : Download W
    pub config_map_download : Bool
    pub secret_download : Bool
    pub events : List (VolumeKind × Option Error)

  abbrev pub finished : VolumeKind → Progress → Progress
  finished config_map_kind p = record p {
    config_map_download = true;
    events = p.events ++ (config_map_kind, none) ∷ [];
  }
  finished secret_kind p = record p {
    secret_download = true;
    events = p.events ++ (secret_kind, none) ∷ [];
  }

  abbrev pub after_part : VolumeKind → Progress → Downloaded → Progress × Result (Unit {0})
  after_part kind p (s, ok _) = (finished kind (record p { download = s }), ok tt)
  after_part kind p (s, err e) =
      (record p { download = s; events = p.events ++ (kind, some e) ∷ [] }, err e)
  after_part kind p (s, panic) = (record p { download = s }, panic)

  abbrev pub download_part :
      VolumeKind → Bool → Str → List Volume → Progress → Progress × Result (Unit {0})
  download_part kind true ns vs p = (p, ok tt)
  download_part kind false ns vs p = after_part kind p (download_volumes kind ns vs p.download)

  abbrev pub then_secrets :
      Str → List Volume → Progress × Result (Unit {0}) → Progress × Result (Unit {0})
  then_secrets ns vs (p, ok _) = download_part secret_kind p.secret_download ns vs p
  then_secrets ns vs (p, err e) = (p, err e)
  then_secrets ns vs (p, panic) = (p, panic)

  unfoldable pub download_resource : Str → List Volume → Progress → Progress × Result (Unit {0})
  unfolding download_volumes
  download_resource ns vs p =
      then_secrets ns vs (download_part config_map_kind p.config_map_download ns vs p)
