-- ===== src/Podutils/Laws.antt =====
-- What a populated pod looks like, and which source of a variable wins.
use native_kubelet.Base.{
  Str, str_eq, str_eq_iff, Dict, lookup, insert, lookup-insert, lookup-insert_self, if◌then◌else◌,
  is_some, false, Option, none, some, Option-cases, List, [], ◌∷◌, ◌++◌, All, ◌≡◌, refl, ap, ◌∙◌,
  inl, inr, arith,
}
use native_kubelet.Expansion.{mapping_func_for, expand}
use native_kubelet.Result.{Result, ok, err, panic, ok-injective}
use native_kubelet.Podutils.Sources.{
  make_environment_map_based_on_env_from, get_service_env_var_map,
}
use native_kubelet.Podutils.Values.{get_environment_variable_value}
use native_kubelet.Kube.{EnvVar, Container, Pod}
use native_kubelet.Podutils.Output.{Output, ◌>>=◌, Cluster}
use native_kubelet.Podutils.Populate.{
  append_missing, env_vars, set_value, env_loop, make_environment_map,
  populate_container_environment, populate_containers, populate_environment_variables,
  service_links,
}

-- Inversion of a successful step.
pub >>=-eq-ok :
    {A B : Type 0} (m : Output A) (f : A → Output B) {b : B}
    → (m >>= f).0 ≡ ok b
    → (a : A) × (m.0 ≡ ok a) × ((f a).0 ≡ ok b)
>>=-eq-ok (ok a, es) f h = (a, refl, h)
>>=-eq-ok (err e, es) f h = ground arith
>>=-eq-ok (panic, es) f h = ground arith

lookup-set_value :
    (j k : Str) (val : Option Str) (res : Dict Str)
    → str_eq j k ≡ false
    → lookup k (set_value j val res) ≡ lookup k res
lookup-set_value j k none res h = refl
lookup-set_value j k (some v) res h = rw (lookup-insert, h)

-- A first step that succeeds, and what follows.
pub bind-ok :
    {A B : Type 0} (m : Output A) (f : A → Output B) {a : A} {r : Result B}
    → m.0 ≡ ok a
    → (f a).0 ≡ r
    → (m >>= f).0 ≡ r
bind-ok (ok x, es) f p q = ap (λ y. (f y).0) (ok-injective p) ∙ q
bind-ok (err e, es) f p q = absurd (ground arith)
bind-ok (panic, es) f p q = absurd (ground arith)

abbrev pub or_else : Option Str → Option Str → Option Str
or_else none o = o
or_else (some s) o = some s

-- A name of the merged environment has the value that the container's own sources give it, and
-- where they give none, the value of the service variables.
pub lookup-append_missing :
    (k : Str) (svc_env res : Dict Str)
    → lookup k (append_missing svc_env res) ≡ or_else (lookup k res) (lookup k svc_env)
unfolding append_missing lookup
lookup-append_missing k [] res = ground arith
lookup-append_missing k ((j, v) ∷ svc_env) res = ground (
  arith,
  lookup-append_missing k svc_env (if is_some (lookup j res) then res else insert j v res),
  lookup-insert j k v res,
  str_eq_iff j k,
)

-- What one populated container is.
abbrev pub IsPlain : EnvVar → Type 0
IsPlain v = v.value_from ≡ none

env_vars-IsPlain : (m : Dict Str) → All IsPlain (env_vars m)
unfolding env_vars
env_vars-IsPlain [] = tt
env_vars-IsPlain ((k, v) ∷ m) = (refl, env_vars-IsPlain m)

pub record IsPopulated (before after : Container) : Type 0 where
  pub no_sources : after.env_from ≡ []
  pub plain : All IsPlain after.env
  pub same_name : after.name ≡ before.name
  pub same_image : after.image ≡ before.image
  pub same_rest : after.rest ≡ before.rest

-- Two lists of containers, one by one.
pub data AllPopulated : List Container → List Container → Type 0 where
  nil : AllPopulated [] []
  cons :
      {b a : Container} {bs as' : List Container}
      → IsPopulated b a
      → AllPopulated bs as'
      → AllPopulated (b ∷ bs) (a ∷ as')

module _ (c : Cluster) (pod : Pod) where
  container-IsPopulated :
      (container : Container) {after : Container}
      → (populate_container_environment c pod container).0 ≡ ok after
      → IsPopulated container after
  unfolding populate_container_environment
  container-IsPopulated container {after} h =
      let (m, _, h') = >>=-eq-ok (make_environment_map_based_on_env_from c pod container) _ h in
      let (m', _, h'') = >>=-eq-ok (make_environment_map c pod container m) _ h' in
      rw (← ok-injective h'') (record {
        no_sources = refl;
        plain = env_vars-IsPlain m';
        same_name = refl;
        same_image = refl;
        same_rest = refl;
      })

  containers-AllPopulated :
      (containers : List Container) {after : List Container}
      → (populate_containers c pod containers).0 ≡ ok after
      → AllPopulated containers after
  unfolding populate_containers
  containers-AllPopulated [] h = rw (← ok-injective h) nil
  containers-AllPopulated (x ∷ xs) h =
      let (x', p, h') = >>=-eq-ok (populate_container_environment c pod x) _ h in
      let (xs', q, h'') = >>=-eq-ok (populate_containers c pod xs) _ h' in
      rw (← ok-injective h'') (cons (container-IsPopulated x p) (containers-AllPopulated xs q))

-- When PopulateEnvironmentVariables returns no error, the metadata and the status of the pod are
-- unchanged, and each container and init container keeps its place, name, image and other fields,
-- refers to no configmap or secret in `.envFrom`, and has in `.env` plain values only.
pub populate-AllPopulated :
    (c : Cluster) (pod : Pod) {after : Pod}
    → (populate_environment_variables c pod).0 ≡ ok after
    → (after.metadata ≡ pod.metadata)
      × (after.status ≡ pod.status)
      × AllPopulated pod.spec.init_containers after.spec.init_containers
      × AllPopulated pod.spec.containers after.spec.containers
unfolding populate_environment_variables
populate-AllPopulated c pod h =
    let (is, p, h') = >>=-eq-ok (populate_containers c pod pod.spec.init_containers) _ h in
    let (cs, q, h'') = >>=-eq-ok (populate_containers c pod pod.spec.containers) _ h' in
    rw (← ok-injective h'') (
      refl,
      refl,
      containers-AllPopulated c pod pod.spec.init_containers p,
      containers-AllPopulated c pod pod.spec.containers q,
    )

-- Where a variable of a container comes from.
module _ (c : Cluster) (pod : Pod) where
  -- A variable with a plain value wins over every earlier source of its name: after it was read,
  -- and as long as no later variable has its name, the map gives its name the expanded value.
  env_loop_keeps :
      (svc_env : Dict Str) (envs : List EnvVar) (k : Str) (res : Dict Str) {out : Dict Str}
      → All (λ (e : EnvVar). str_eq e.name k ≡ false) envs
      → (env_loop c pod svc_env envs res).0 ≡ ok out
      → lookup k out ≡ lookup k res
  unfolding env_loop
  env_loop_keeps svc_env [] k res a h = rw (ok-injective h)
  env_loop_keeps svc_env (e ∷ es) k res a h =
      let (val, p, h') =
        >>=-eq-ok (get_environment_variable_value c pod e (mapping_func_for (res ∷ svc_env ∷ []))) _
          h in
      env_loop_keeps svc_env es k (set_value e.name val res) a.1 h'
      ∙ lookup-set_value e.name k val res a.0

  env_loop-cons :
      (svc_env : Dict Str) (e : EnvVar) (es : List EnvVar) (res : Dict Str) {out : Dict Str}
      → (env_loop c pod svc_env (e ∷ es) res).0 ≡ ok out
      → (val : Option Str) × ((get_environment_variable_value c pod e
            (mapping_func_for (res ∷ svc_env ∷ []))).0
          ≡ ok val)
        × ((env_loop c pod svc_env es (set_value e.name val res)).0 ≡ ok out)
  unfolding env_loop
  env_loop-cons svc_env e es res h =
      >>=-eq-ok (get_environment_variable_value c pod e (mapping_func_for (res ∷ svc_env ∷ []))) _ h

  env_loop-append :
      (svc_env : Dict Str) (before later : List EnvVar) (res : Dict Str) {out : Dict Str}
      → (env_loop c pod svc_env (before ++ later) res).0 ≡ ok out
      → (mid : Dict Str) × ((env_loop c pod svc_env before res).0 ≡ ok mid)
        × ((env_loop c pod svc_env later mid).0 ≡ ok out)
  unfolding env_loop
  env_loop-append svc_env [] later res h = (res, refl, h)
  env_loop-append svc_env (e ∷ es) later res h =
      let (val, p, h') =
        >>=-eq-ok (get_environment_variable_value c pod e (mapping_func_for (res ∷ svc_env ∷ []))) _
          h in
      let (mid, q, r) = env_loop-append svc_env es later (set_value e.name val res) h' in
      (
        mid,
        bind-ok (get_environment_variable_value c pod e (mapping_func_for (res ∷ svc_env ∷ []))) _ p
            q,
        r,
      )

  plain_value :
      (env : EnvVar) (mapping_func : Str → Str) {val : Option Str}
      → IsPlain env
      → (get_environment_variable_value c pod env mapping_func).0 ≡ ok val
      → (s : Str) × (expand env.value mapping_func ≡ some s) × (val ≡ some s)
  unfolding get_environment_variable_value
  plain_value env mapping_func h r = elim (Option-cases (expand env.value mapping_func)) [
    | inl e ↦ absurd (ground arith)
    | inr (s, e) ↦ (s, e, ground arith)
  ]

  -- In a successful makeEnvironmentMap, a plain variable that no later variable of the container
  -- shadows has its value with the references expanded by the variables before it, then by the
  -- service variables. A name that no variable of the container has is taken from the map of
  -- `.envFrom`, or else from the service variables.
  pub make_environment_map_precedence :
      (container : Container) (res : Dict Str) {out : Dict Str}
      → (make_environment_map c pod container res).0 ≡ ok out
      → (svc_env : Dict Str) × ((get_service_env_var_map c pod.metadata.namespace
            (service_links c pod pod.spec.enable_service_links)).0
          ≡ ok svc_env)
        × ((before later : List EnvVar) (env : EnvVar)
            → container.env ≡ before ++ env ∷ later
            → IsPlain env
            → All (λ (e : EnvVar). str_eq e.name env.name ≡ false) later
            → (seen : Dict Str) × (s : Str) × ((env_loop c pod svc_env before res).0 ≡ ok seen)
              × (expand env.value (mapping_func_for (seen ∷ svc_env ∷ [])) ≡ some s)
              × (lookup env.name out ≡ some s))
        × ((k : Str)
            → All (λ (e : EnvVar). str_eq e.name k ≡ false) container.env
            → lookup k out ≡ or_else (lookup k res) (lookup k svc_env))
  unfolding make_environment_map
  make_environment_map_precedence container res h =
      let (svc_env, p, h') =
        >>=-eq-ok
          (get_service_env_var_map c pod.metadata.namespace
            (service_links c pod pod.spec.enable_service_links))
          _ h in
      let (out', q, h'') = >>=-eq-ok (env_loop c pod svc_env container.env res) _ h' in
      let e = ok-injective h'' in
      (
        svc_env,
        p,
        (λ before later env shape plain fresh.
            rw (← e) (shadowed svc_env before later env res plain fresh (rw shape at q))),
        (λ k fresh. rw (
          ← e,
          lookup-append_missing k svc_env out',
          env_loop_keeps svc_env container.env k res fresh q,
        )),
      )
    where
      shadowed :
          (svc_env : Dict Str) (before later : List EnvVar) (env : EnvVar) (res : Dict Str)
          {out' : Dict Str}
          → IsPlain env
          → All (λ (e : EnvVar). str_eq e.name env.name ≡ false) later
          → (env_loop c pod svc_env (before ++ env ∷ later) res).0 ≡ ok out'
          → (seen : Dict Str) × (s : Str) × ((env_loop c pod svc_env before res).0 ≡ ok seen)
            × (expand env.value (mapping_func_for (seen ∷ svc_env ∷ [])) ≡ some s)
            × (lookup env.name (append_missing svc_env out') ≡ some s)
      shadowed svc_env before later env res plain fresh h =
          let (seen, p, q) = env_loop-append svc_env before (env ∷ later) res h in
          let (val, r, q') = env_loop-cons svc_env env later seen q in
          let (s, x, v) = plain_value env (mapping_func_for (seen ∷ svc_env ∷ [])) plain r in
          (
            seen,
            s,
            p,
            x,
            rw (
              lookup-append_missing env.name svc_env,
              env_loop_keeps svc_env later env.name _ fresh q',
              v,
              lookup-insert_self,
            ),
          )
