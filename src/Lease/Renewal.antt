-- ===== src/Lease/Renewal.antt =====
-- sync renews the lease when the API server is well.
use native_kubelet.Base.{
  ℕ, suc, Str, ◌≡◌, refl, ap, ◌∙◌, arith, Bool, true, false, if◌then◌else◌, Option, none, some, ◌⊎◌,
  inl, inr, [], ◌∷◌, ◌++◌,
}
use mathlib.Core.Sum.{inl-injective, inr-injective}
use native_kubelet.Errdefs.{Error}
use native_kubelet.Kube.{Node}
use native_kubelet.Lease.{
  Lease, LeaseClient, LeaseController, ensure_lease, after_get, after_create, lease_now, new_lease,
  backoff_loop, after_ensure, backoff_ensure_lease, retry_loop, retry_update_lease, after_update,
  Updated, ensure_and_update, after_backoff, with_latest, renew, sync,
}

-- Get finds the lease or says that there is none, and Create and Update do not fail.
pub record IsHealthy {W : Type 0} (client : LeaseClient W) : Type 0 where
  pub get :
      (w : W) (n : Str)
      → ((l : Lease) × ((client.get w n).1 ≡ inr l))
        ⊎ ((e : Error) × ((client.get w n).1 ≡ inl e) × (client.is_not_found e ≡ true))
  pub create : (w : W) (l : Lease) → (k : Lease) × ((client.create w l).1 ≡ inr k)
  pub update : (w : W) (l : Lease) → (k : Lease) × ((client.update w l).1 ≡ inr k)

-- One lease was sent, in an update or a create, and the answer to it is the latest lease. There was
-- no sleep.
pub data Renewed {W : Type 0} (client : LeaseClient W) (c d : LeaseController W) : Type 0 where
  updated :
      (w : W) (sent answer : Lease)
      → (client.update w sent).1 ≡ inr answer
      → d.latest_lease ≡ some answer
      → d.sent_updates ≡ c.sent_updates ++ sent ∷ []
      → d.sent_creates ≡ c.sent_creates
      → d.slept ≡ c.slept
      → Renewed client c d
  created :
      (w : W) (sent answer : Lease)
      → (client.create w sent).1 ≡ inr answer
      → d.latest_lease ≡ some answer
      → d.sent_updates ≡ c.sent_updates
      → d.sent_creates ≡ c.sent_creates ++ sent ∷ []
      → d.slept ≡ c.slept
      → Renewed client c d

if-true : {A : Type 0} (b : Bool) (x y : A) → b ≡ true → (if b then x else y) ≡ x
if-true true x y p = refl
if-true false x y p = absurd (ground arith)

module _ {W : Type 0} (client : LeaseClient W) (healthy : IsHealthy client) (node : Node)
    (seconds : ℕ) where
  after_update-inr :
      (fuel : ℕ) (base : Option Lease) (c : LeaseController W) (r : W × (Error ⊎ Lease)) (l : Lease)
      (again : Option Lease → LeaseController W → Updated client node seconds)
      → r.1 ≡ inr l
      → after_update client node seconds fuel base c r again
        ≡ (record c { world = r.0; latest_lease = some l }, some none)
  after_update-inr fuel base c (w, inl e) l again p = absurd (ground arith)
  after_update-inr fuel base c (w, inr k) l again p =
      ap (λ t. (record c { world = w; latest_lease = some t }, some none)) (inr-injective k l p)

  -- The first attempt is the only one.
  retry_update_lease-once :
      (fuel : ℕ) (base : Option Lease) (c : LeaseController W)
      → let sent = lease_now client node seconds c base in
        let r = client.update c.world sent in
        retry_update_lease client node seconds fuel base c ≡ (
          record c {
            world = r.0;
            latest_lease = some (healthy.update c.world sent).0;
            sent_updates = c.sent_updates ++ sent ∷ [];
          },
          some none,
        )
  unfolding retry_update_lease retry_loop
  retry_update_lease-once fuel base c =
      let sent = lease_now client node seconds c base in
      after_update-inr fuel base (record c { sent_updates = c.sent_updates ++ sent ∷ [] })
        (client.update c.world sent) (healthy.update c.world sent).0 _
        (healthy.update c.world sent).1

  -- The lease was found, or it was created.
  abbrev Answers :
      (LeaseController W × (Error ⊎ (Option Lease × Bool))) → LeaseController W → Type 0
  Answers r c =
      ((w : W) × (l : Lease) × (r ≡ (record c { world = w }, inr (some l, false))))
      ⊎ ((v : W) × (w : W) × (sent : Lease) × (l : Lease) × ((client.create v sent).1 ≡ inr l)
          × (r ≡ (
            record c { world = w; sent_creates = c.sent_creates ++ sent ∷ [] },
            inr (some l, true),
          )))

  after_create-inr :
      (c : LeaseController W) (r : W × (Error ⊎ Lease)) (l : Lease)
      → r.1 ≡ inr l
      → after_create client node seconds c r ≡ (record c { world = r.0 }, inr (some l, true))
  after_create-inr c (w, inl e) l p = absurd (ground arith)
  after_create-inr c (w, inr k) l p =
      ap (λ t. (record c { world = w }, inr (some t, true))) (inr-injective k l p)

  after_get-Answers :
      (c : LeaseController W) (r : W × (Error ⊎ Lease))
      → ((l : Lease) × (r.1 ≡ inr l))
        ⊎ ((e : Error) × (r.1 ≡ inl e) × (client.is_not_found e ≡ true))
      → Answers (after_get client node seconds c r) c
  unfolding new_lease
  after_get-Answers c (w, inr l) h = inl (w, l, refl)
  after_get-Answers c (w, inl e) (inl (l, p)) = absurd (ground arith)
  after_get-Answers c (w, inl e) (inr (x, p, q)) =
      let sent = new_lease node seconds (client.now w) none in
      let k = healthy.create w sent in
      inr (
        w,
        (client.create w sent).0,
        sent,
        k.0,
        k.1,
        if-true (client.is_not_found e) _ _ (ap client.is_not_found (inl-injective e x p) ∙ q)
            ∙ after_create-inr (record c { world = w; sent_creates = c.sent_creates ++ sent ∷ [] })
                (client.create w sent) k.0 k.1,
      )

  ensure_lease-Answers : (c : LeaseController W) → Answers (ensure_lease client node seconds c) c
  unfolding ensure_lease
  ensure_lease-Answers c =
      after_get-Answers c (client.get c.world node.metadata.name)
        (healthy.get c.world node.metadata.name)

  after_backoff-Renewed :
      (fuel : ℕ) (c : LeaseController W) (r : LeaseController W × (Error ⊎ (Option Lease × Bool)))
      (again : LeaseController W → LeaseController W × Option (Option Lease × Bool)) (sleep : ℕ)
      → Answers r c
      → Renewed client c
          (after_backoff client node seconds fuel
            (after_ensure client node seconds sleep r again)).0
  after_backoff-Renewed fuel c r again sleep (inl (w, l, p)) = rw p (
      rw (retry_update_lease-once fuel (some l) (record c { world = w; latest_lease = some l }))
        (updated w _ _ (healthy.update w _).1 refl refl refl refl))
  after_backoff-Renewed fuel c r again sleep (inr (v, w, sent, l, q, p)) =
      rw p (created v sent l q refl refl refl refl)

  ensure_and_update-Renewed :
      (fuel : ℕ) (c : LeaseController W)
      → Renewed client c (ensure_and_update client node seconds (suc fuel) c).0
  unfolding ensure_and_update backoff_ensure_lease backoff_loop
  ensure_and_update-Renewed fuel c =
      after_backoff-Renewed (suc fuel) c (ensure_lease client node seconds c) _ _
        (ensure_lease-Answers c)

  with_latest-Renewed :
      (fuel : ℕ) (latest : Option Lease) (c : LeaseController W)
      → Renewed client c (with_latest client node seconds (suc fuel) latest c).0
  with_latest-Renewed fuel none c = ensure_and_update-Renewed fuel c
  with_latest-Renewed fuel (some l) c =
      rw (retry_update_lease-once (suc fuel) (some (lease_now client node seconds c (some l))) c)
        (updated c.world _ _ (healthy.update c.world _).1 refl refl refl refl)

  -- With a clean ping, a node and a healthy API server, sync sends exactly one lease, in an update or
  -- a create, does not sleep, and the latest lease is then what the server answered to it. This holds
  -- with and without a latest lease before, and one round of backoff is enough.
  pub sync-Renewed :
      (fuel : ℕ) (c : LeaseController W)
      → Renewed client c (sync client seconds (suc fuel) (inr none) (inr node) c).0
  unfolding sync renew
  sync-Renewed fuel c = with_latest-Renewed fuel c.latest_lease c
