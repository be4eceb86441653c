-- ===== src/Native/Chain.antt =====
-- The chain of a pod, the order in which the loop runs it, and when a container is restarted.
use native_kubelet.Base.{Str, map, Bool, true, false, List, [], ◌∷◌, ◌++◌, ◌≡◌, refl, ap, ◌∙◌}
use mathlib.Core.Path.{subst}
use native_kubelet.Result.{Result, ok, err, panic, ◌>>=◌, Holds}
use native_kubelet.Kube.{Container, Pod}
use native_kubelet.Native.Process.{
  ContainerProcess, PodProcess, new_process, Paths, get_process_work_dir,
  get_container_process_work_dir, convert_containers, convert_pod2process,
}

>>=-Holds :
    {A B : Type 0} (P : B → Type 0) (m : Result A) (f : A → Result B)
    → ((a : A) → m ≡ ok a → Holds P (f a))
    → Holds P (m >>= f)
>>=-Holds P (ok a) f h = h a refl
>>=-Holds P (err e) f h = tt
>>=-Holds P panic f h = tt

Holds-ok : {A : Type 0} (P : A → Type 0) (m : Result A) {a : A} → Holds P m → m ≡ ok a → P a
Holds-ok P m {a} h e = subst (Holds P) e h

-- The containers of the processes, and their flags.
abbrev containers_of : List ContainerProcess → List Container
containers_of cps = map (λ (cp : ContainerProcess). cp.container) cps

abbrev flags_of : List ContainerProcess → List Bool
flags_of cps = map (λ (cp : ContainerProcess). cp.is_sync) cps

record Converts (sync : Bool) (cs : List Container) (cps : List ContainerProcess) : Type 0 where
  containers : containers_of cps ≡ cs
  flags : flags_of cps ≡ map (λ (c : Container). sync) cs

convert-Converts :
    (paths : Paths) (workdir : Str) (pod : Pod) (sync : Bool) (cs : List Container)
    → Holds (Converts sync cs) (convert_containers paths workdir pod sync cs)
unfolding convert_containers new_process
convert-Converts paths workdir pod sync [] = record { containers = refl; flags = refl }
convert-Converts paths workdir pod sync (c ∷ cs) =
    >>=-Holds (Converts sync (c ∷ cs)) (get_container_process_work_dir paths workdir pod c) _
      (λ dir e.
        >>=-Holds (Converts sync (c ∷ cs)) (convert_containers paths workdir pod sync cs) _
          (λ rest q.
            let h =
              Holds-ok (Converts sync cs) (convert_containers paths workdir pod sync cs)
                (convert-Converts paths workdir pod sync cs) q in
            record {
              containers = ap (λ l. c ∷ l) h.containers;
              flags = ap (λ l. sync ∷ l) h.flags;
            }))

map-append : {A B : Type 0} (f : A → B) (xs ys : List A) → map f (xs ++ ys) ≡ map f xs ++ map f ys
map-append f [] ys = refl
map-append f (x ∷ xs) ys = ap (λ l. f x ∷ l) (map-append f xs ys)

-- A chain that has the init containers of the pod, run one after another, and then its containers,
-- run side by side, in the order of the spec.
pub record IsChainOf (pod : Pod) (p : PodProcess) : Type 0 where
  pub containers :
      map (λ (cp : ContainerProcess). cp.container) p.process_chain
      ≡ pod.spec.init_containers ++ pod.spec.containers
  pub flags :
      map (λ (cp : ContainerProcess). cp.is_sync) p.process_chain
      ≡ map (λ (c : Container). true) pod.spec.init_containers
        ++ map (λ (c : Container). false) pod.spec.containers
  pub pod_kept : p.pod ≡ pod
  pub index_zero : p.index ≡ 0

-- A chain that convertPod2Process makes of a pod has the init containers of the pod, each to be
-- waited for, and then its containers, none to be waited for, in the order of the spec, and starts
-- at the first.
pub convert_pod2process-IsChainOf :
    (paths : Paths) (workdir : Str) (pod : Pod)
    → Holds (IsChainOf pod) (convert_pod2process paths workdir pod)
unfolding convert_pod2process
convert_pod2process-IsChainOf paths workdir pod =
    >>=-Holds (IsChainOf pod) (get_process_work_dir paths workdir pod) _ (λ dir e.
      >>=-Holds (IsChainOf pod) (convert_containers paths workdir pod true pod.spec.init_containers)
        _
        (λ inits i.
          >>=-Holds (IsChainOf pod) (convert_containers paths workdir pod false pod.spec.containers)
            _
            (λ mains m.
              let a =
                Holds-ok (Converts true pod.spec.init_containers)
                  (convert_containers paths workdir pod true pod.spec.init_containers)
                  (convert-Converts paths workdir pod true pod.spec.init_containers) i in
              let b =
                Holds-ok (Converts false pod.spec.containers)
                  (convert_containers paths workdir pod false pod.spec.containers)
                  (convert-Converts paths workdir pod false pod.spec.containers) m in
              record {
                containers =
                    map-append _ inits mains
                    ∙ (ap (λ l. l ++ containers_of mains) a.containers
                        ∙ ap (λ l. pod.spec.init_containers ++ l) b.containers);
                flags =
                    map-append _ inits mains
                    ∙ (ap (λ l. l ++ flags_of mains) a.flags
                        ∙ ap (λ l. map (λ (c : Container). true) pod.spec.init_containers ++ l)
                            b.flags);
                pod_kept = refl;
                index_zero = refl;
              })))
