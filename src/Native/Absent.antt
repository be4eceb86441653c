-- ===== src/Native/Absent.antt =====
-- When buildEvnEntry panics.
use native_kubelet.Base.{
  Str, Dict, lookup, is_some, Bool, true, false, not, ◌&&◌, if◌then◌else◌, Option, none, some, ◌⊎◌,
  inl, inr, ◌≡◌, refl, sym, ◌∙◌,
}
use native_kubelet.Result.{Result, ok, err, panic}
use native_kubelet.Errdefs.{Error}
use native_kubelet.Kube.{Pod, EnvVarSource, KeySelector, FieldSelector}
use native_kubelet.Native.Env.{
  EnvSources, deref_optional, key_in, is_node_path, of_field, from_object, from_resource,
  build_env_entry,
}

abbrev pub is_panic {ℓ} : {A : Type ℓ} → Result A → Bool
is_panic (ok a) = false
is_panic (err e) = false
is_panic panic = true

module _ (s : EnvSources) where
  -- The object or its key was not found.
  abbrev pub is_absent : Error ⊎ Dict Str → Str → Bool
  is_absent (inl e) key = s.is_not_found e
  is_absent (inr data') key = not (is_some (lookup key data'))

  abbrev pub is_unguarded : KeySelector → Error ⊎ Dict Str → Bool
  is_unguarded ref object = not (is_some ref.optional) && is_absent object ref.key

  -- The source is a key of a configmap, or else of a secret, that was not found, and the reference
  -- does not say whether it is optional.
  abbrev pub is_unguarded_source :
      Pod → EnvVarSource → Option FieldSelector → Option KeySelector → Option KeySelector → Bool
  is_unguarded_source pod source (some f) config_map secret = false
  is_unguarded_source pod source none (some ref) secret =
      is_unguarded ref (s.get_config_map ref.name pod.metadata.namespace)
  is_unguarded_source pod source none none (some ref) =
      is_unguarded ref (s.get_secret ref.name pod.metadata.namespace)
  is_unguarded_source pod source none none none = false

  of_field-panics : (r : Error ⊎ Str) → is_panic (of_field r) ≡ false
  of_field-panics (inl e) = refl
  of_field-panics (inr v) = refl

  if-panics :
      (b : Bool) (x y : Result Str)
      → is_panic x ≡ false
      → is_panic y ≡ false
      → is_panic (if b then x else y) ≡ false
  if-panics true x y p q = p
  if-panics false x y p q = q

  deref-panics : (o : Option Bool) (e : Error) → is_panic (deref_optional o e) ≡ (not (is_some o))
  deref-panics none e = refl
  deref-panics (some true) e = refl
  deref-panics (some false) e = refl

  and_true : (a : Bool) → (a && true) ≡ a
  and_true true = refl
  and_true false = refl

  and_false : (a : Bool) → (a && false) ≡ false
  and_false true = refl
  and_false false = refl

  not_found-panics :
      (b : Bool) (o : Option Bool) (e : Error)
      → is_panic (if b then deref_optional o e else err e) ≡ (not (is_some o) && b)
  not_found-panics true o e = deref-panics o e ∙ sym (and_true (not (is_some o)))
  not_found-panics false o e = sym (and_false (not (is_some o)))

  key_in-panics :
      (v : Option Str) (o : Option Bool) (e : Error)
      → is_panic (key_in v o e) ≡ (not (is_some o) && not (is_some v))
  key_in-panics none o e = deref-panics o e ∙ sym (and_true (not (is_some o)))
  key_in-panics (some v) o e = sym (and_false (not (is_some o)))

  from_object-panics :
      (format : Str) (ref : KeySelector) (ns : Str) (object : Error ⊎ Dict Str)
      → is_panic (from_object s format ref ns object) ≡ is_unguarded ref object
  from_object-panics format ref ns (inl e) = not_found-panics (s.is_not_found e) ref.optional e
  from_object-panics format ref ns (inr data') = key_in-panics (lookup ref.key data') ref.optional _

  from_resource-panics : (r : Option Str) → is_panic (from_resource s r) ≡ false
  from_resource-panics none = refl
  from_resource-panics (some r) = refl

  from_source-panics :
      (pod : Pod) (source : EnvVarSource) (f : Option FieldSelector) (c k : Option KeySelector)
      → source.field_ref ≡ f
      → source.config_map_key_ref ≡ c
      → source.secret_key_ref ≡ k
      → is_panic (build_env_entry s pod source) ≡ is_unguarded_source pod source f c k
  unfolding build_env_entry
  from_source-panics pod source (some f) c k p q r = rw p (
      if-panics (is_node_path f.field_path) _ _ refl
        (of_field-panics (s.extract_field_path pod f.field_path)))
  from_source-panics pod source none (some ref) k p q r = rw (p, q) (from_object-panics _ ref _ _)
  from_source-panics pod source none none (some ref) p q r =
      rw (p, q, r) (from_object-panics _ ref _ _)
  from_source-panics pod source none none none p q r =
      rw (p, q, r) (from_resource-panics source.resource_field_ref)

  -- Reading the value of a variable from its source panics exactly when it is a key of a configmap, or
  -- else of a secret, with no field reference before it, that reference leaves `optional` out, and the
  -- object was not found or does not have the key.
  pub build_env_entry-panics :
      (pod : Pod) (source : EnvVarSource)
      → is_panic (build_env_entry s pod source)
        ≡ is_unguarded_source pod source source.field_ref source.config_map_key_ref
            source.secret_key_ref
  build_env_entry-panics pod source = from_source-panics pod source _ _ _ refl refl refl
