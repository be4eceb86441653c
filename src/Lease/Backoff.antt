-- ===== src/Lease/Backoff.antt =====
-- The sleeps of the backoff, in order.
use native_kubelet.Base.{
  ℕ, zero, suc, ◌+◌, ◌*◌, ◌^◌, ◌<◌, ◌≤◌, leb, ◌≡◌, refl, sym, ap, ◌∙◌, length, get_elem?,
  append_assoc, append-nil, arith, Bool, true, false, if◌then◌else◌, Option, none, some, ◌⊎◌, inl,
  inr, List, [], ◌∷◌, ◌++◌,
}
use mathlib.Core.Path.{subst}
use native.Mathlib.Nat.{pow-suc}
use native.Mathlib.Numerals.{unary_clauses}
use native_kubelet.Errdefs.{Error}
use native_kubelet.Kube.{Node}
use native_kubelet.Lease.{
  Lease, LeaseClient, LeaseController, min_duration, ensure_lease, after_get, after_create,
  create_lease, lease_now, is_empty, backoff_loop, after_ensure, after_wait, backoff_ensure_lease,
}

-- The length of the sleep after `i` other sleeps.
abbrev pub delay : ℕ → ℕ
delay i = if leb (200 * 2 ^ i) 7000 then 200 * 2 ^ i else 7000

-- The new sleeps are those of the schedule from `i` on, `n` of them at most.
abbrev pub FollowsFrom : ℕ → ℕ → List ℕ → List ℕ → Type 0
FollowsFrom i n before after =
    (new : List ℕ) × (after ≡ before ++ new)
    × (length new ≤ n)
    × ((j : ℕ) → j < length new → get_elem? new j ≡ some (delay (i + j)))

FollowsFrom-same : (i n : ℕ) (before : List ℕ) → FollowsFrom i n before before
FollowsFrom-same i n before =
    ([], sym (append-nil before), omega arith, λ j h. absurd (omega arith))

FollowsFrom-cons_get :
    (i : ℕ) (new : List ℕ)
    → ((j : ℕ) → j < length new → get_elem? new j ≡ some (delay (suc i + j)))
    → (j : ℕ) → j < suc (length new)
    → get_elem? (delay i ∷ new) j ≡ some (delay (i + j))
FollowsFrom-cons_get i new h zero l = simp unary_clauses refl
FollowsFrom-cons_get i new h (suc j) l = h j (omega arith) ∙ ap (λ k. some (delay k)) (omega arith)

FollowsFrom-cons :
    (i n : ℕ) (before after : List ℕ)
    → FollowsFrom (suc i) n (before ++ delay i ∷ []) after
    → FollowsFrom i (suc n) before after
FollowsFrom-cons i n before after (new, p, l, h) = (
  delay i ∷ new,
  p ∙ append_assoc before (delay i ∷ []) new,
  omega arith,
  FollowsFrom-cons_get i new h,
)

two_power : (n : ℕ) → 2 ^ suc n ≡ 2 * 2 ^ n
two_power n = omega (arith, pow-suc 2 n)

-- Doubling a sleep gives the next one.
delay-next : (i : ℕ) → min_duration (2 * delay i) 7000 ≡ delay (suc i)
unfolding min_duration
delay-next i = ground (arith, two_power i)

if-slept :
    {W A : Type 0} (b : Bool) (x y : LeaseController W × A) (l : List ℕ)
    → x.0.slept ≡ l
    → y.0.slept ≡ l
    → (if b then x else y).0.slept ≡ l
if-slept true x y l p q = p
if-slept false x y l p q = q

module _ {W : Type 0} (client : LeaseClient W) (node : Node) (seconds : ℕ) where
  after_create-slept :
      (c : LeaseController W) (r : W × (Error ⊎ Lease))
      → (after_create client node seconds c r).0.slept ≡ c.slept
  after_create-slept c (w, inl e) = refl
  after_create-slept c (w, inr l) = refl

  create_lease-slept :
      (c : LeaseController W) (lease : Lease)
      → (create_lease client node seconds c lease).0.slept ≡ c.slept
  create_lease-slept c lease =
      after_create-slept (record c { sent_creates = c.sent_creates ++ lease ∷ [] })
        (client.create c.world lease)

  after_get-slept :
      (c : LeaseController W) (r : W × (Error ⊎ Lease))
      → (after_get client node seconds c r).0.slept ≡ c.slept
  after_get-slept c (w, inr l) = refl
  after_get-slept c (w, inl e) =
      let d = record c { world = w } in
      if-slept (client.is_not_found e) _ _ _
        (if-slept (is_empty (lease_now client node seconds d none).owner_references) _ _ _ refl
          (create_lease-slept d (lease_now client node seconds d none)))
        refl

  ensure_lease-slept :
      (c : LeaseController W) → (ensure_lease client node seconds c).0.slept ≡ c.slept
  unfolding ensure_lease
  ensure_lease-slept c = after_get-slept c (client.get c.world node.metadata.name)

  after_wait-FollowsFrom :
      (i n : ℕ) (before : List ℕ) (c : LeaseController W) (r : W × Bool)
      (again : LeaseController W → LeaseController W × Option (Option Lease × Bool))
      → ((d : LeaseController W) → FollowsFrom (suc i) n d.slept (again d).0.slept)
      → c.slept ≡ before ++ delay i ∷ []
      → FollowsFrom i (suc n) before (after_wait client node seconds c r again).0.slept
  after_wait-FollowsFrom i n before c (w, true) again h p = FollowsFrom-cons i n before _ (
      subst (λ t. FollowsFrom (suc i) n t (again (record c { world = w })).0.slept) p
        (h (record c { world = w })))
  after_wait-FollowsFrom i n before c (w, false) again h p =
      FollowsFrom-cons i n before _
        (subst (λ t. FollowsFrom (suc i) n t c.slept) p (FollowsFrom-same (suc i) n c.slept))

  after_ensure-FollowsFrom :
      (i n sleep : ℕ) (before : List ℕ) (c : LeaseController W) (r : Error ⊎ (Option Lease × Bool))
      (again : LeaseController W → LeaseController W × Option (Option Lease × Bool))
      → sleep ≡ delay i
      → ((d : LeaseController W) → FollowsFrom (suc i) n d.slept (again d).0.slept)
      → c.slept ≡ before
      → FollowsFrom i (suc n) before (after_ensure client node seconds sleep (c, r) again).0.slept
  after_ensure-FollowsFrom i n sleep before c (inr answer) again e h p =
      subst (λ t. FollowsFrom i (suc n) before t) (sym p) (FollowsFrom-same i (suc n) before)
  after_ensure-FollowsFrom i n sleep before c (inl x) again e h p =
      let w = client.sleep c.world sleep in
      after_wait-FollowsFrom i n before (record c { world = w; slept = c.slept ++ sleep ∷ [] })
        (client.wait w sleep) again h (ap (λ t. t ++ sleep ∷ []) p ∙ ap (λ t. before ++ t ∷ []) e)

  backoff_loop-FollowsFrom :
      (fuel i sleep : ℕ) (c : LeaseController W)
      → min_duration (2 * sleep) 7000 ≡ delay i
      → FollowsFrom i fuel c.slept (backoff_loop client node seconds fuel sleep c).0.slept
  unfolding backoff_loop
  backoff_loop-FollowsFrom zero i sleep c p = FollowsFrom-same i 0 c.slept
  backoff_loop-FollowsFrom (suc fuel) i sleep c p =
      let next = min_duration (2 * sleep) 7000 in
      after_ensure-FollowsFrom i fuel next c.slept (ensure_lease client node seconds c).0
        (ensure_lease client node seconds c).1 (backoff_loop client node seconds fuel next) p
        (λ d.
          backoff_loop-FollowsFrom fuel (suc i) next d
            (ap (λ t. min_duration (2 * t) 7000) p ∙ delay-next i))
        (ensure_lease-slept c)

  -- The backoff is exponential: its sleeps, in order, are 200 milliseconds and then each twice the
  -- one before, no longer than 7000; `j` sleeps came before the `j`-th. There is at most one sleep
  -- for each round. The timer of the same length after each sleep is not counted.
  pub backoff_ensure_lease-FollowsFrom :
      (fuel : ℕ) (c : LeaseController W)
      → FollowsFrom 0 fuel c.slept (backoff_ensure_lease client node seconds fuel c).0.slept
  unfolding backoff_ensure_lease min_duration
  backoff_ensure_lease-FollowsFrom fuel c = backoff_loop-FollowsFrom fuel 0 100 c refl
