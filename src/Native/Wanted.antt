-- ===== src/Native/Wanted.antt =====
-- What the downloads of a container have written when they end without an error.
use native_kubelet.Base.{
  Str, str_eq, map, ◌&&◌, Dict, lookup, if◌then◌else◌, Option, none, some, ◌⊎◌, inl, inr, List, [],
  ◌∷◌, ◌++◌, ◌≡◌,
}
use native_kubelet.Result.{ok}
use native_kubelet.Errdefs.{Error}
use native_kubelet.Native.Download.{
  VolumeKind, KeyToPath, VolumeSource, Volume, VolumeMount, Files, Download, source_of, Downloaded,
}

-- Where the mounts of this volume with this path below it are mounted, in order
abbrev pub targets : Str → Str → List VolumeMount → List Str
targets volume path [] = []
targets volume path (m ∷ ms) =
    if str_eq m.name volume && str_eq m.sub_path path
    then m.mount_path ∷ targets volume path ms
    else targets volume path ms

abbrev pub first_or : Str → List Str → Str
first_or path [] = path
first_or path (t ∷ ts) = t

abbrev pub wanted_path : List VolumeMount → Str → Str → Str
wanted_path mounts volume path = first_or path (targets volume path mounts)

-- The items of a volume; when it lists none, each key of the object, with the key as its path
abbrev pub items_or_keys : List KeyToPath → Dict Str → List KeyToPath
items_or_keys [] data' = map (λ e. record { key = e.0; path = e.0 }) data'
items_or_keys (item ∷ items) data' = item ∷ items

module _ {W : Type 0} (files : Files W) (mounts : List VolumeMount) (workdir : Str) where
  -- The files of the items that the object has, in order
  abbrev pub wanted_items : Str → Dict Str → List KeyToPath → List (Str × Str)
  wanted_items volume data' [] = []
  wanted_items volume data' (item ∷ items) =
      let rest = wanted_items volume data' items in
      elim (lookup item.key data') [
        | none ↦ rest
        | some bytes ↦ (files.join workdir (wanted_path mounts volume item.path), bytes) ∷ rest
      ]

  abbrev pub wanted_object : Str → VolumeSource → Error ⊎ Dict Str → List (Str × Str)
  wanted_object volume source (inl e) = []
  wanted_object volume source (inr data') =
      wanted_items volume data' (items_or_keys source.items data')

  abbrev pub wanted_source : VolumeKind → Str → Str → Option VolumeSource → List (Str × Str)
  wanted_source kind ns volume none = []
  wanted_source kind ns volume (some source) =
      wanted_object volume source (files.get_object kind source.name ns)

  abbrev pub wanted : VolumeKind → Str → List Volume → List (Str × Str)
  wanted kind ns [] = []
  wanted kind ns (v ∷ vs) = wanted_source kind ns v.name (source_of kind v) ++ wanted kind ns vs

  -- A step that ends without an error writes these files.
  abbrev Writes : (Download W → Downloaded files mounts workdir) → List (Str × Str) → Type 0
  Writes step fs = (s : Download W) → (step s).1 ≡ ok tt → (step s).0.written ≡ s.written ++ fs
