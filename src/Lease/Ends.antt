-- ===== src/Lease/Ends.antt =====
-- sync comes to an end when the API server recovers.
use native_kubelet.Base.{
  ℕ, zero, suc, ◌*◌, ◌≤◌, ◌<◌, ◌≡◌, refl, ap, Str, is_some, arith, Bool, true, false, if◌then◌else◌,
  Option, none, some, ◌⊎◌, inl, inr, [], ◌∷◌, ◌++◌,
}
use native_kubelet.Result.{ok}
use native_kubelet.Errdefs.{Error}
use native_kubelet.Kube.{Node}
use native_kubelet.Lease.{
  Lease, LeaseClient, LeaseController, min_duration, max_backoff, ended, ensure_lease, after_get,
  after_create, create_lease, lease_now, is_empty, backoff_loop, after_ensure, after_wait,
  backoff_ensure_lease, retry_loop, retry_update_lease, after_update, after_conflict, Updated,
  ensure_and_update, after_backoff, after_latest, with_latest, renew, sync,
}

-- `patience` counts the failures of the API server that may still come. A failed Get, unless the
-- lease was not found, and a failed Create take one from it, and nothing raises it.
pub record Recovers {W : Type 0} (client : LeaseClient W) (patience : W → ℕ) : Type 0 where
  pub get : (w : W) (n : Str) → patience (client.get w n).0 ≤ patience w
  pub get_fails :
      (w : W) (n : Str) (e : Error)
      → (client.get w n).1 ≡ inl e
      → client.is_not_found e ≡ false
      → patience (client.get w n).0 < patience w
  pub create : (w : W) (l : Lease) → patience (client.create w l).0 ≤ patience w
  pub create_fails :
      (w : W) (l : Lease) (e : Error)
      → (client.create w l).1 ≡ inl e
      → patience (client.create w l).0 < patience w
  pub update : (w : W) (l : Lease) → patience (client.update w l).0 ≤ patience w
  pub sleep : (w : W) (n : ℕ) → patience (client.sleep w n) ≤ patience w
  pub wait : (w : W) (n : ℕ) → patience (client.wait w n).0 ≤ patience w

is_some-tt : (o : Option (Unit {0})) → is_some o ≡ true → o ≡ some tt
is_some-tt none p = absurd (ground arith)
is_some-tt (some tt) p = refl

module _ {W : Type 0} (client : LeaseClient W) (patience : W → ℕ)
    (recovers : Recovers client patience) (node : Node) (seconds : ℕ) where
  -- There is an answer, and no more failures are to come than `n`.
  abbrev Ends : {A : Type 0} → ℕ → LeaseController W × Option A → Type 0
  Ends n (d, o) = (is_some o ≡ true) × (patience d.world ≤ n)

  -- An error has taken a failure.
  abbrev Ensures : {A : Type 0} → ℕ → LeaseController W × (Error ⊎ A) → Type 0
  Ensures n (d, inl e) = patience d.world < n
  Ensures n (d, inr a) = patience d.world ≤ n

  if-Ensures :
      {A : Type 0} (n : ℕ) (b : Bool) (x y : LeaseController W × (Error ⊎ A))
      → (b ≡ true → Ensures n x)
      → (b ≡ false → Ensures n y)
      → Ensures n (if b then x else y)
  if-Ensures n true x y p q = p refl
  if-Ensures n false x y p q = q refl

  after_create-Ensures :
      (n : ℕ) (c : LeaseController W) (r : W × (Error ⊎ Lease))
      → patience r.0 ≤ n
      → ((e : Error) → r.1 ≡ inl e → patience r.0 < n)
      → Ensures n (after_create client node seconds c r)
  after_create-Ensures n c (w, inl e) h f = f e refl
  after_create-Ensures n c (w, inr l) h f = h

  create_lease-Ensures :
      (n : ℕ) (c : LeaseController W) (l : Lease)
      → patience c.world ≤ n
      → Ensures n (create_lease client node seconds c l)
  create_lease-Ensures n c l h =
      after_create-Ensures n (record c { sent_creates = c.sent_creates ++ l ∷ [] })
        (client.create c.world l) (omega (arith, recovers.create c.world l))
        (λ e p. omega (arith, recovers.create_fails c.world l e p))

  after_get-Ensures :
      (n : ℕ) (c : LeaseController W) (r : W × (Error ⊎ Lease))
      → patience r.0 ≤ n
      → ((e : Error) → r.1 ≡ inl e → client.is_not_found e ≡ false → patience r.0 < n)
      → Ensures n (after_get client node seconds c r)
  after_get-Ensures n c (w, inr l) h f = h
  after_get-Ensures n c (w, inl e) h f =
      let d = record c { world = w } in
      let l = lease_now client node seconds d none in
      if-Ensures n (client.is_not_found e) _ _
        (λ p.
          if-Ensures n (is_empty l.owner_references) _ _ (λ q. h)
            (λ q. create_lease-Ensures n d l h))
        (f e refl)

  ensure_lease-Ensures :
      (c : LeaseController W) → Ensures (patience c.world) (ensure_lease client node seconds c)
  unfolding ensure_lease
  ensure_lease-Ensures c =
      after_get-Ensures (patience c.world) c (client.get c.world node.metadata.name)
        (recovers.get _ _) (recovers.get_fails _ _)

  Ends-more :
      {A : Type 0} (m n : ℕ) (r : LeaseController W × Option A) → m ≤ n → Ends m r → Ends n r
  Ends-more m n r h (p, q) = (p, omega arith)

  after_wait-Ends :
      (n : ℕ) (c : LeaseController W) (r : W × Bool)
      (again : LeaseController W → LeaseController W × Option (Option Lease × Bool))
      → patience r.0 < n
      → ((d : LeaseController W) → patience d.world < n → Ends n (again d))
      → Ends n (after_wait client node seconds c r again)
  after_wait-Ends n c (w, true) again h f = f (record c { world = w }) h
  after_wait-Ends n c (w, false) again h f = (refl, omega arith)

  after_ensure-Ends :
      (n sleep : ℕ) (r : LeaseController W × (Error ⊎ (Option Lease × Bool)))
      (again : LeaseController W → LeaseController W × Option (Option Lease × Bool))
      → Ensures n r
      → ((d : LeaseController W) → patience d.world < n → Ends n (again d))
      → Ends n (after_ensure client node seconds sleep r again)
  after_ensure-Ends n sleep (c, inr answer) again h f = (refl, h)
  after_ensure-Ends n sleep (c, inl e) again h f =
      let w = client.sleep c.world sleep in
      after_wait-Ends n (record c { world = w; slept = c.slept ++ sleep ∷ [] })
        (client.wait w sleep) again
        (omega (arith, recovers.sleep c.world sleep, recovers.wait w sleep)) f

  backoff_loop-Ends :
      (fuel sleep : ℕ) (c : LeaseController W)
      → patience c.world < fuel
      → Ends (patience c.world) (backoff_loop client node seconds fuel sleep c)
  unfolding backoff_loop
  backoff_loop-Ends zero sleep c h = absurd (omega arith)
  backoff_loop-Ends (suc fuel) sleep c h =
      let next = min_duration (2 * sleep) max_backoff in
      after_ensure-Ends (patience c.world) next (ensure_lease client node seconds c)
        (backoff_loop client node seconds fuel next) (ensure_lease-Ensures c)
        (λ d q.
          Ends-more (patience d.world) (patience c.world)
            (backoff_loop client node seconds fuel next d) (omega arith)
            (backoff_loop-Ends fuel next d (omega arith)))

  backoff_ensure_lease-Ends :
      (fuel : ℕ) (c : LeaseController W)
      → patience c.world < fuel
      → Ends (patience c.world) (backoff_ensure_lease client node seconds fuel c)
  unfolding backoff_ensure_lease
  backoff_ensure_lease-Ends fuel c h = backoff_loop-Ends fuel 100 c h

  after_conflict-Ends :
      (n : ℕ) (r : LeaseController W × Option (Option Lease × Bool))
      (again : Option Lease → LeaseController W → Updated client node seconds)
      → Ends n r
      → ((b : Option Lease) (d : LeaseController W) → patience d.world ≤ n → Ends n (again b d))
      → Ends n (after_conflict client node seconds r again)
  after_conflict-Ends n (c, none) again (p, q) f = absurd (ground arith)
  after_conflict-Ends n (c, some (base, created)) again (p, q) f = f base c q

  if-Ends :
      {A : Type 0} (n : ℕ) (b : Bool) (x y : LeaseController W × Option A)
      → Ends n x
      → Ends n y
      → Ends n (if b then x else y)
  if-Ends n true x y p q = p
  if-Ends n false x y p q = q

  after_update-Ends :
      (n fuel : ℕ) (base : Option Lease) (c : LeaseController W) (r : W × (Error ⊎ Lease))
      (again : Option Lease → LeaseController W → Updated client node seconds)
      → n < fuel
      → patience r.0 ≤ n
      → ((b : Option Lease) (d : LeaseController W) → patience d.world ≤ n → Ends n (again b d))
      → Ends n (after_update client node seconds fuel base c r again)
  after_update-Ends n fuel base c (w, inr l) again h p f = (refl, p)
  after_update-Ends n fuel base c (w, inl e) again h p f =
      let d = record c { world = w } in
      if-Ends n (client.is_cancelled e) _ _ (refl, p)
        (if-Ends n (client.is_conflict e) _ _
          (after_conflict-Ends n (backoff_ensure_lease client node seconds fuel d) again
            (Ends-more (patience w) n (backoff_ensure_lease client node seconds fuel d) p
              (backoff_ensure_lease-Ends fuel d (omega arith)))
            f)
          (f base d p))

  retry_loop-Ends :
      (n fuel attempts : ℕ) (base : Option Lease) (c : LeaseController W)
      → n < fuel
      → patience c.world ≤ n
      → Ends n (retry_loop client node seconds fuel attempts base c)
  unfolding retry_loop
  retry_loop-Ends n fuel zero base c h p = (refl, p)
  retry_loop-Ends n fuel (suc attempts) base c h p =
      let lease = lease_now client node seconds c base in
      after_update-Ends n fuel base (record c { sent_updates = c.sent_updates ++ lease ∷ [] })
        (client.update c.world lease) (retry_loop client node seconds fuel attempts) h
        (omega (arith, recovers.update c.world lease))
        (λ b d q. retry_loop-Ends n fuel attempts b d h q)

  retry_update_lease-Ends :
      (n fuel : ℕ) (base : Option Lease) (c : LeaseController W)
      → n < fuel
      → patience c.world ≤ n
      → Ends n (retry_update_lease client node seconds fuel base c)
  unfolding retry_update_lease
  retry_update_lease-Ends n fuel base c h p = retry_loop-Ends n fuel 5 base c h p

  ended-some : (r : Option (Option Error)) → is_some r ≡ true → is_some (ended r) ≡ true
  ended-some none p = absurd (ground arith)
  ended-some (some e) p = refl

  after_backoff-Ends :
      (n fuel : ℕ) (r : LeaseController W × Option (Option Lease × Bool))
      → n < fuel
      → Ends n r
      → Ends n (after_backoff client node seconds fuel r)
  after_backoff-Ends n fuel (c, none) h p = absurd (ground arith)
  after_backoff-Ends n fuel (c, some (none, created)) h p = p
  after_backoff-Ends n fuel (c, some (some l, true)) h p = p
  after_backoff-Ends n fuel (c, some (some l, false)) h (p, q) =
      let t = retry_update_lease-Ends n fuel (some l) (record c { latest_lease = some l }) h q in
      (ended-some _ t.0, t.1)

  ensure_and_update-Ends :
      (n fuel : ℕ) (c : LeaseController W)
      → n < fuel
      → patience c.world ≤ n
      → Ends n (ensure_and_update client node seconds fuel c)
  unfolding ensure_and_update
  ensure_and_update-Ends n fuel c h p =
      after_backoff-Ends n fuel (backoff_ensure_lease client node seconds fuel c) h (
        Ends-more (patience c.world) n (backoff_ensure_lease client node seconds fuel c) p
          (backoff_ensure_lease-Ends fuel c (omega arith)))

  after_latest-Ends :
      (n fuel : ℕ) (r : Updated client node seconds)
      → n < fuel
      → Ends n r
      → Ends n (after_latest client node seconds fuel r)
  after_latest-Ends n fuel (c, none) h p = absurd (ground arith)
  after_latest-Ends n fuel (c, some none) h p = p
  after_latest-Ends n fuel (c, some (some e)) h (p, q) = ensure_and_update-Ends n fuel c h q

  with_latest-Ends :
      (n fuel : ℕ) (latest : Option Lease) (c : LeaseController W)
      → n < fuel
      → patience c.world ≤ n
      → Ends n (with_latest client node seconds fuel latest c)
  with_latest-Ends n fuel none c h p = ensure_and_update-Ends n fuel c h p
  with_latest-Ends n fuel (some l) c h p =
      after_latest-Ends n fuel _ h
        (retry_update_lease-Ends n fuel (some (lease_now client node seconds c (some l))) c h p)

  renew-some :
      (fuel : ℕ) (c : LeaseController W)
      → patience c.world < fuel
      → (renew client node seconds fuel c).1 ≡ some tt
  unfolding renew
  renew-some fuel c h =
      is_some-tt _ (with_latest-Ends (patience c.world) fuel c.latest_lease c h (omega arith)).0

  -- With a clean ping and a node, sync finishes without a panic when the API server recovers:
  -- when the failures among its answers to Get and Create that are still to come are limited by
  -- a number that each of them lowers and nothing raises, that many rounds and one in each
  -- backoff are enough, whatever the updates answer.
  pub sync-ends :
      (fuel : ℕ) (c : LeaseController W)
      → patience c.world < fuel
      → (sync client seconds fuel (inr none) (inr node) c).1 ≡ ok (some tt)
  unfolding sync
  sync-ends fuel c h = ap ok (renew-some fuel c h)
