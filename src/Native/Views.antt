-- ===== src/Native/Views.antt =====
-- The database of the processes as a map from namespaces and names to pods.
use native_kubelet.Base.{
  Str, str_eq, str_eq_iff, Bool, true, false, ◌&&◌, if◌then◌else◌, Option, none, some, ◌⊎◌, inl,
  inr, ◌≡◌, refl, sym, ap, ◌∙◌, arith,
}
use native_kubelet.Result.{Result, ok, err, panic, is_ok, ok-injective, Holds, bind-Holds}
use native_kubelet.Errdefs.{Error}
use native_kubelet.Kube.{Pod}
use native_kubelet.Native.Process.{
  PodProcess, Paths, convert_pod2process, convert_containers, get_process_work_dir, Found, found,
  key_not_found, failed, get_pod, get_pod_key,
}
use native_kubelet.Native.Manager.{
  Stored, value, missing, Database, Host, Manager, key_of, decoded, found_of, lookup_process,
  get_found, result_of, put_bytes, put, run_pod, update_pod, delete_pod,
}
use native_kubelet.Native.Keys.{has_colon, same, get_pod_key-same}

-- A database that keeps what was put, and JSON that decodes what it encodes.
pub record IsDatabase {D B : Type 0} (database : Database D B) : Type 0 where
  pub get_put :
      (d e : D) (k j : Str) (bytes : B)
      → database.put d k bytes ≡ (e, none)
      → database.get e j ≡ (if str_eq k j then value bytes else database.get d j)
  pub get_delete :
      (d e : D) (k j : Str)
      → database.delete d k ≡ (e, none)
      → database.get e j ≡ (if str_eq k j then missing else database.get d j)
  pub decode_encode :
      (p : PodProcess) (bytes : B) → database.encode p ≡ inr bytes → database.decode bytes ≡ inr p

-- What the manager answers for a namespace and a name.
abbrev pub View : Type 0
View = Str → Str → Result (Option Pod)

module _ {D B : Type 0} (database : Database D B) where
  -- getPod
  abbrev pub view : D → View
  view d ns name = get_pod (lookup_process database d (get_pod_key ns name))

  -- Every process is kept under its own key.
  abbrev pub IsKeyed : D → Type 0
  IsKeyed d =
      (ns name : Str) (p : PodProcess)
      → has_colon ns ≡ false
      → lookup_process database d (get_pod_key ns name) ≡ found p
      → (p.namespace ≡ ns) × (p.pod_name ≡ name)

pub result_of-ok :
    {D B : Type 0} (database : Database D B) (r : D × Option Error) (e : D)
    → result_of database r ≡ (e, ok tt)
    → r ≡ (e, none)
result_of-ok database (d, none) e p = ap (λ t. (t.0, none)) p
result_of-ok database (d, some x) e p = absurd (ground (arith, ap (λ t. is_ok t.1) p))

module _ {D B : Type 0} (database : Database D B) (lawful : IsDatabase database) where
  -- After a put, the key of the process finds it, and no other key changes.
  abbrev pub Written : D → D → PodProcess → Type 0
  Written d e p =
      (j : Str)
      → lookup_process database e j
        ≡ (if str_eq (key_of p) j then found p else lookup_process database d j)

  found_of-if :
      (b : Bool) (bytes : B) (s : Stored B) (p : PodProcess)
      → database.decode bytes ≡ inr p
      → found_of database (if b then value bytes else s)
        ≡ (if b then found p else found_of database s)
  found_of-if true bytes s p h = ap (decoded database) h
  found_of-if false bytes s p h = refl

  put_bytes-Written :
      (d e : D) (p : PodProcess) (r : Error ⊎ B)
      → database.encode p ≡ r
      → put_bytes database d (key_of p) r ≡ (e, ok tt)
      → Written d e p
  unfolding lookup_process
  put_bytes-Written d e p (inl x) h q = absurd (ground (arith, ap (λ t. is_ok t.1) q))
  put_bytes-Written d e p (inr bytes) h q = λ j.
      ap (found_of database) (
        lawful.get_put d e (key_of p) j bytes
          (result_of-ok database (database.put d (key_of p) bytes) e q))
      ∙ found_of-if (str_eq (key_of p) j) bytes (database.get d j) p
          (lawful.decode_encode p bytes h)

  pub put-Written : (d e : D) (p : PodProcess) → put database d p ≡ (e, ok tt) → Written d e p
  unfolding put
  put-Written d e p q = put_bytes-Written d e p (database.encode p) refl q

-- A process for this pod
abbrev pub IsFor : Pod → PodProcess → Type 0
IsFor pod p =
    (p.namespace ≡ pod.metadata.namespace) × (p.pod_name ≡ pod.metadata.name) × (p.pod ≡ pod)

pub convert_pod2process-IsFor :
    (paths : Paths) (workdir : Str) (pod : Pod)
    → Holds (IsFor pod) (convert_pod2process paths workdir pod)
unfolding convert_pod2process
convert_pod2process-IsFor paths workdir pod =
    bind-Holds (λ _. Unit {0}) (IsFor pod) (get_process_work_dir paths workdir pod) _ (anything _)
      (λ dir h.
        bind-Holds (λ _. Unit {0}) (IsFor pod)
          (convert_containers paths workdir pod true pod.spec.init_containers) _ (anything _)
          (λ i h2.
            bind-Holds (λ _. Unit {0}) (IsFor pod)
              (convert_containers paths workdir pod false pod.spec.containers) _ (anything _)
              (λ c h3. (refl, refl, refl))))
  where
    anything : {A : Type 0} (r : Result A) → Holds (λ _. Unit {0}) r
    anything (ok a) = tt
    anything (err e) = tt
    anything panic = tt

-- The operations, and what they make of a map.
pub data Op : Type 0 where
  ran updated deleted : Pod → Op

abbrev pub target : Op → Pod
target (ran pod) = pod
target (updated pod) = pod
target (deleted pod) = pod

abbrev pub written : Op → Option Pod
written (ran pod) = some pod
written (updated pod) = some pod
written (deleted pod) = none

abbrev pub spec : Op → View → View
spec op v ns name =
    if same (target op).metadata.namespace (target op).metadata.name ns name
    then ok (written op)
    else v ns name

module _ {D B W : Type 0} (database : Database D B) (host : Host W) (paths : Paths)
    (workdir : Str) where
  abbrev pub operate : Op → Manager D W → Manager D W × Result (Unit {0})
  operate (ran pod) m = run_pod database host paths workdir pod m
  operate (updated pod) m = update_pod database host pod m
  operate (deleted pod) m = delete_pod database host pod m

process_or : PodProcess → Found → PodProcess
process_or p (found q) = q
process_or p key_not_found = p
process_or p (failed e) = p

get_pod-if :
    (b : Bool) (p : PodProcess) (f : Found)
    → get_pod (if b then found p else f) ≡ (if b then ok (some p.pod) else get_pod f)
unfolding get_pod
get_pod-if true p f = refl
get_pod-if false p f = refl

and_true : (a b : Bool) → (a && b) ≡ true → (a ≡ true) × (b ≡ true)
and_true true true p = (refl, refl)
and_true true false p = absurd (ground arith)
and_true false b p = absurd (ground arith)

module _ {D B : Type 0} (database : Database D B) where
  -- The second database shows what the operation makes of the view of the first.
  abbrev pub Refined : Op → D → D → Type 0
  Refined op d e =
      ((ns name : Str)
        → has_colon ns ≡ false
        → view database e ns name ≡ spec op (view database d) ns name)
      × IsKeyed database e

  found-IsKeyed :
      (b : Bool) (ns name : Str) (p q : PodProcess) (f : Found)
      → (b ≡ true → (p.namespace ≡ ns) × (p.pod_name ≡ name))
      → (f ≡ found q → (q.namespace ≡ ns) × (q.pod_name ≡ name))
      → (if b then found p else f) ≡ found q
      → (q.namespace ≡ ns) × (q.pod_name ≡ name)
  unfolding process_or
  found-IsKeyed true ns name p q f h k e =
      let is_p = ap (process_or p) e in
      (ap (λ t. t.namespace) (sym is_p) ∙ (h refl).0, ap (λ t. t.pod_name) (sym is_p) ∙ (h refl).1)
  found-IsKeyed false ns name p q f h k e = k e

  key_of-same :
      (pod : Pod) (p : PodProcess) (ns name : Str)
      → IsFor pod p
      → has_colon pod.metadata.namespace ≡ false
      → has_colon ns ≡ false
      → str_eq (key_of p) (get_pod_key ns name)
        ≡ same pod.metadata.namespace pod.metadata.name ns name
  key_of-same pod p ns name (i, j, k) h l =
      ap (λ t. str_eq (get_pod_key t p.pod_name) (get_pod_key ns name)) i
      ∙ ap (λ t. str_eq (get_pod_key pod.metadata.namespace t) (get_pod_key ns name)) j
      ∙ get_pod_key-same pod.metadata.namespace pod.metadata.name ns name h l

  same-is :
      (pod : Pod) (p : PodProcess) (ns name : Str)
      → IsFor pod p
      → same pod.metadata.namespace pod.metadata.name ns name ≡ true
      → (p.namespace ≡ ns) × (p.pod_name ≡ name)
  same-is pod p ns name (i, j, k) h =
      let (a, b) = and_true _ _ h in
      (i ∙ (str_eq_iff pod.metadata.namespace ns).0 a, j ∙ (str_eq_iff pod.metadata.name name).0 b)

  pub Written-Refined :
      (op : Op) (pod : Pod) (d e : D) (p : PodProcess)
      → target op ≡ pod
      → written op ≡ some pod
      → IsFor pod p
      → has_colon pod.metadata.namespace ≡ false
      → ((j : Str)
          → lookup_process database e j
            ≡ (if str_eq (key_of p) j then found p else lookup_process database d j))
      → IsKeyed database d
      → Refined op d e
  Written-Refined op pod d e p t w f h puts keyed = (
    (λ ns name l.
        ap get_pod (puts (get_pod_key ns name))
        ∙ get_pod-if (str_eq (key_of p) (get_pod_key ns name)) p
            (lookup_process database d (get_pod_key ns name))
        ∙ rw (key_of-same pod p ns name f h l, t, w, f.2) refl),
    (λ ns name q l g.
        found-IsKeyed (str_eq (key_of p) (get_pod_key ns name)) ns name p q
          (lookup_process database d (get_pod_key ns name))
          (λ s. same-is pod p ns name f (sym (key_of-same pod p ns name f h l) ∙ s))
          (keyed ns name q l) (sym (puts (get_pod_key ns name)) ∙ g)),
  )

  -- The key of the pod is gone, and no other key changes.
  abbrev pub Removed : Pod → D → D → Type 0
  Removed pod d e =
      (j : Str)
      → lookup_process database e j ≡ (
          if str_eq (get_pod_key pod.metadata.namespace pod.metadata.name) j
          then key_not_found
          else lookup_process database d j)

  missing-if :
      (b : Bool) (f : Found)
      → get_pod (if b then key_not_found else f) ≡ (if b then ok none else get_pod f)
  unfolding get_pod
  missing-if true f = refl
  missing-if false f = refl

  missing-IsKeyed :
      (b : Bool) (ns name : Str) (q : PodProcess) (f : Found)
      → (f ≡ found q → (q.namespace ≡ ns) × (q.pod_name ≡ name))
      → (if b then key_not_found else f) ≡ found q
      → (q.namespace ≡ ns) × (q.pod_name ≡ name)
  missing-IsKeyed true ns name q f k e = absurd (ground arith)
  missing-IsKeyed false ns name q f k e = k e

  pub Removed-Refined :
      (pod : Pod) (d e : D)
      → has_colon pod.metadata.namespace ≡ false
      → Removed pod d e
      → IsKeyed database d
      → Refined (deleted pod) d e
  Removed-Refined pod d e h removed keyed =
      let key = get_pod_key pod.metadata.namespace pod.metadata.name in
      (
        (λ ns name l.
            ap get_pod (removed (get_pod_key ns name))
            ∙ missing-if (str_eq key (get_pod_key ns name))
                (lookup_process database d (get_pod_key ns name))
            ∙ rw (get_pod_key-same pod.metadata.namespace pod.metadata.name ns name h l) refl),
        (λ ns name q l g.
            missing-IsKeyed (str_eq key (get_pod_key ns name)) ns name q
              (lookup_process database d (get_pod_key ns name)) (keyed ns name q l)
              (sym (removed (get_pod_key ns name)) ∙ g)),
      )

  pub absent-if :
      (key j : Str) (d : D)
      → lookup_process database d key ≡ key_not_found
      → (str_eq key j ≡ true) ⊎ (str_eq key j ≡ false)
      → lookup_process database d j
        ≡ (if str_eq key j then key_not_found else lookup_process database d j)
  absent-if key j d h (inl e) =
      ap (lookup_process database d) (sym ((str_eq_iff key j).0 e)) ∙ h ∙ rw e refl
  absent-if key j d h (inr e) = rw e refl

  pub found_of-missing_if :
      (b : Bool) (s : Stored B)
      → found_of database (if b then missing else s)
        ≡ (if b then key_not_found else found_of database s)
  found_of-missing_if true s = refl
  found_of-missing_if false s = refl

  pub get_found-ok : (f : Found) (p : PodProcess) → get_found database f ≡ ok p → f ≡ found p
  get_found-ok (found q) p h = ap found (ok-injective h)
  get_found-ok key_not_found p h = absurd (ground arith)
  get_found-ok (failed e) p h = absurd (ground arith)
