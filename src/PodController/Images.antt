-- ===== src/PodController/Images.antt =====
-- What the comparison of images sees.
use native_kubelet.Base.{
  ℕ, Str, str_eq, str_eq_iff, Dict, true, false, Bool-cases, Option, none, some, List, [], ◌∷◌,
  ◌++◌, All, All-append, All-map, ◌≡◌, ◌↔◌, refl, inl, inr, arith,
}
use native_kubelet.Kube.{Container, Pod}
use native_kubelet.PodController.Compare.{
  Cmp, image_exists, containers_image_equal, pods_equal, pod_should_enqueue,
  delete_grace_time_equal, time_equal,
}

-- Some container of the list has the image.
pub data Uses (image : Str) : List Container → Type 0 where
  here : {c : Container} {cs : List Container} → image ≡ c.image → Uses image (c ∷ cs)
  there : {c : Container} {cs : List Container} → Uses image cs → Uses image (c ∷ cs)

image_exists_sound :
    (image : Str) (cs : List Container) → image_exists image cs ≡ true → Uses image cs
unfolding image_exists
image_exists_sound image [] h = absurd (ground arith)
image_exists_sound image (c ∷ cs) h = elim (Bool-cases (str_eq image c.image)) [
  | inl e ↦ here ((str_eq_iff image c.image).0 e)
  | inr n ↦ there (image_exists_sound image cs (ground (arith, h, n)))
]

image_exists_complete :
    (image : Str) {cs : List Container} → Uses image cs → image_exists image cs ≡ true
unfolding image_exists
image_exists_complete image (here {c = c} e) = ground (arith, (str_eq_iff image c.image).1 e)
image_exists_complete image (there {c = c} u) = ground (arith, image_exists_complete image u)

equal_sound :
    (cs1 cs2 : List Container)
    → containers_image_equal cs1 cs2 ≡ true
    → All (λ (c : Container). Uses c.image cs2) cs1
unfolding containers_image_equal
equal_sound [] cs2 h = tt
equal_sound (c ∷ cs) cs2 h = elim (Bool-cases (image_exists c.image cs2)) [
  | inl e ↦ (image_exists_sound c.image cs2 e, equal_sound cs cs2 (ground (arith, h, e)))
  | inr n ↦ absurd (ground (arith, h, n))
]

equal_complete :
    (cs1 cs2 : List Container)
    → All (λ (c : Container). Uses c.image cs2) cs1
    → containers_image_equal cs1 cs2 ≡ true
unfolding containers_image_equal
equal_complete [] cs2 h = refl
equal_complete (c ∷ cs) cs2 h =
    ground (arith, image_exists_complete c.image h.0, equal_complete cs cs2 h.1)

-- containersImageEqual holds exactly when the image of each container of the first list is the
-- image of some container of the second list, whatever their names and their order.
pub containers_image_equal_iff :
    (cs1 cs2 : List Container)
    → (containers_image_equal cs1 cs2 ≡ true) ↔ All (λ (c : Container). Uses c.image cs2) cs1
containers_image_equal_iff cs1 cs2 = (equal_sound cs1 cs2, equal_complete cs1 cs2)

Uses-append_right :
    {image : Str} (xs : List Container) {ys : List Container}
    → Uses image ys
    → Uses image (xs ++ ys)
Uses-append_right [] u = u
Uses-append_right (x ∷ xs) u = there (Uses-append_right xs u)

Uses-replace :
    {image : Str} (pre : List Container) (c : Container) (post : List Container)
    → Uses image (pre ++ post)
    → Uses image (pre ++ c ∷ post)
Uses-replace [] c post u = there u
Uses-replace (x ∷ pre) c post (here e) = here e
Uses-replace (x ∷ pre) c post (there u) = there (Uses-replace pre c post u)

Uses-append_left :
    {image : Str} {xs : List Container} (ys : List Container)
    → Uses image xs
    → Uses image (xs ++ ys)
Uses-append_left ys (here e) = here e
Uses-append_left ys (there u) = there (Uses-append_left ys u)

-- Each container of the list uses an image of it.
own_images : (xs : List Container) → All (λ (c : Container). Uses c.image xs) xs
own_images [] = tt
own_images (x ∷ xs) = (here refl, All-map xs (λ c u. there u) (own_images xs))

-- The parts of two pods that go-cmp compares are equal when they are the same.
pub record IsReflexive (cmp : Cmp) : Type 0 where
  pub seconds : (x : Option ℕ) → cmp.equal_seconds x x ≡ true
  pub tolerations : (x : List Str) → cmp.equal_tolerations x x ≡ true
  pub maps : (x : Dict Str) → cmp.equal_maps x x ≡ true

abbrev pub with_containers : List Container → Pod → Pod
with_containers cs pod = record pod { spec = record (pod.spec) { containers = cs } }

-- Every image of `pre ++ c ∷ post` is in use once `c` is replaced, when the others use c's image.
replaced_equal :
    (pre : List Container) (c d : Container) (post : List Container)
    → Uses c.image (pre ++ post)
    → All (λ (x : Container). Uses x.image (pre ++ d ∷ post)) (pre ++ c ∷ post)
replaced_equal pre c d post u =
    All-append (λ x. Uses x.image (pre ++ d ∷ post)) pre (c ∷ post)
      (All-map pre (λ x. Uses-append_left (d ∷ post)) (own_images pre))
      (
        Uses-replace pre d post u,
        All-map post (λ x v. Uses-append_right pre (there v)) (own_images post),
      )

grace_refl : (x : Option ℕ) → delete_grace_time_equal x x ≡ true
unfolding delete_grace_time_equal
grace_refl none = refl
grace_refl (some x) = ground arith

time_refl : (x : Option ℕ) → time_equal x x ≡ true
time_refl none = refl
time_refl (some x) = ground arith

-- An update of the image of one container is not enqueued when another container of the pod uses
-- the image that it had, whatever the new image is: with a go-cmp that finds a thing equal to
-- itself, podShouldEnqueue answers false for that pod and its update.
pub image_change_missed :
    (cmp : Cmp) (pod : Pod) (pre : List Container) (c d : Container) (post : List Container)
    → IsReflexive cmp
    → Uses c.image (pre ++ post)
    → pod_should_enqueue cmp
        (with_containers (pre ++ c ∷ post) pod)
        (with_containers (pre ++ d ∷ post) pod)
      ≡ false
unfolding pod_should_enqueue pods_equal
image_change_missed cmp pod pre c d post r u =
    rw
      (
        equal_complete (pre ++ c ∷ post) (pre ++ d ∷ post) (replaced_equal pre c d post u),
        equal_complete pod.spec.init_containers pod.spec.init_containers
            (own_images pod.spec.init_containers),
        r.seconds pod.spec.active_deadline_seconds,
        r.tolerations pod.spec.tolerations,
        r.maps pod.metadata.labels,
        r.maps pod.metadata.annotations,
        grace_refl pod.metadata.deletion_grace_period_seconds,
        time_refl pod.metadata.deletion_timestamp,
      )
      refl
