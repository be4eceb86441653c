-- ===== src/Native/Keys.antt =====
-- The keys of the pods in the database.
use native_kubelet.Base.{
  ◌==◌, Str, str_eq, codes, Bool, false, ◌&&◌, ◌||◌, append-cons, [], ◌∷◌, ◌++◌, ◌≡◌, refl, ap, ◌∙◌,
  arith,
}
use native_kubelet.Native.Process.{get_pod_key}

-- The names of the API have no colon in them.
abbrev pub has_colon : Str → Bool
has_colon [] = false
has_colon (c ∷ s) = (c == 58) || has_colon s

abbrev pub same : Str → Str → Str → Str → Bool
same ns name ns' name' = str_eq ns ns' && str_eq name name'

prefix_eq : (p s t : Str) → str_eq (p ++ s) (p ++ t) ≡ str_eq s t
unfolding str_eq
prefix_eq [] s t = refl
prefix_eq (c ∷ p) s t = ground (arith, prefix_eq p s t)

split_eq :
    (ns name ns' name' : Str)
    → has_colon ns ≡ false
    → has_colon ns' ≡ false
    → str_eq (ns ++ 58 ∷ name) (ns' ++ 58 ∷ name') ≡ same ns name ns' name'
unfolding str_eq
split_eq [] name [] name' h k = ground arith
split_eq [] name (c ∷ s) name' h k = ground (arith, k)
split_eq (c ∷ s) name [] name' h k = ground (arith, h)
split_eq (c ∷ s) name (b ∷ t) name' h k = ground (arith, split_eq s name t name', h, k)

get_pod_key_lem : (ns name : Str) → get_pod_key ns name ≡ codes "pod://" ++ (ns ++ 58 ∷ name)
unfolding get_pod_key
get_pod_key_lem ns name = ap (λ t. codes "pod://" ++ t) (append-cons ns 58 name)

pub get_pod_key-same :
    (ns name ns' name' : Str)
    → has_colon ns ≡ false
    → has_colon ns' ≡ false
    → str_eq (get_pod_key ns name) (get_pod_key ns' name') ≡ same ns name ns' name'
get_pod_key-same ns name ns' name' h k =
    rw (get_pod_key_lem ns name, get_pod_key_lem ns' name')
      (prefix_eq (codes "pod://") (ns ++ 58 ∷ name) (ns' ++ 58 ∷ name')
        ∙ split_eq ns name ns' name' h k)
