-- ===== src/Lease/Bounds.antt =====
-- What the lease controller sends and how long it sleeps, over a whole sync.
use native_kubelet.Base.{
  ℕ, zero, suc, ◌*◌, ◌≤◌, ◌≢◌, refl, arith, Bool, true, false, if◌then◌else◌, Option, none, some,
  ◌⊎◌, inl, inr, List, [], ◌∷◌, ◌++◌,
}
use native_kubelet.Errdefs.{Error}
use native_kubelet.Kube.{Node, OwnerReference}
use native_kubelet.Lease.{
  Lease, LeaseClient, LeaseController, new_lease, or_node, base_lease, min_duration, max_backoff,
  max_update_retries, ensure_lease, after_get, after_create, create_lease, lease_now, is_empty,
  backoff_loop, after_ensure, after_wait, backoff_ensure_lease, retry_loop, retry_update_lease,
  after_update, after_conflict, Updated, ensure_and_update, after_backoff, after_latest,
  with_latest, renew, with_node, sync,
}
use native_kubelet.Lease.Spends.{
  IsRenewed, IsDelay, Spends, Adds-same, Adds-one, Spends-trans, Spends-more, Spends-other,
  sent-Spends, slept-Spends,
}

module _ {W : Type 0} (client : LeaseClient W) (node : Node) (seconds : ℕ) where
  or_node-cons : (os : List OwnerReference) → or_node node os ≢ []
  or_node-cons [] e = absurd (ground arith)
  or_node-cons (o ∷ os) e = absurd (ground arith)

  new_lease-IsRenewed :
      (now : ℕ) (base : Option Lease) → IsRenewed (new_lease node seconds now base)
  unfolding new_lease
  new_lease-IsRenewed now base =
      (or_node-cons (base_lease node seconds base).owner_references, (now, refl))

  after_create-Spends :
      (c d : LeaseController W) (r : W × (Error ⊎ Lease))
      → Spends 0 c d
      → Spends 0 c (after_create client node seconds d r).0
  after_create-Spends c d (w, inl e) s = Spends-trans c d _ s (Spends-other d w d.latest_lease)
  after_create-Spends c d (w, inr l) s = Spends-trans c d _ s (Spends-other d w d.latest_lease)

  create_lease-Spends :
      (c : LeaseController W) (lease : Lease)
      → IsRenewed lease
      → Spends 0 c (create_lease client node seconds c lease).0
  create_lease-Spends c lease h =
      after_create-Spends c (record c { sent_creates = c.sent_creates ++ lease ∷ [] })
        (client.create c.world lease)
        record {
          count = omega arith;
          updates = Adds-same IsRenewed _;
          creates = Adds-one IsRenewed _ lease h;
          sleeps = Adds-same IsDelay _;
        }

  if-Spends :
      {A : Type 0} {n : ℕ} {c : LeaseController W} (b : Bool) (x y : LeaseController W × A)
      → Spends n c x.0
      → Spends n c y.0
      → Spends n c (if b then x else y).0
  if-Spends true x y hx hy = hx
  if-Spends false x y hx hy = hy

  after_get-Spends :
      (c : LeaseController W) (r : W × (Error ⊎ Lease))
      → Spends 0 c (after_get client node seconds c r).0
  after_get-Spends c (w, inr l) = Spends-other c w c.latest_lease
  after_get-Spends c (w, inl e) =
      let d = record c { world = w } in
      let s = Spends-other c w c.latest_lease in
      if-Spends (client.is_not_found e) _ _
        (if-Spends (is_empty (lease_now client node seconds d none).owner_references) _ _ s
          (Spends-trans c d _ s (create_lease-Spends d _ (new_lease-IsRenewed _ none))))
        s

  ensure_lease-Spends : (c : LeaseController W) → Spends 0 c (ensure_lease client node seconds c).0
  unfolding ensure_lease
  ensure_lease-Spends c = after_get-Spends c (client.get c.world node.metadata.name)

  min_duration-IsDelay : (s : ℕ) → 100 ≤ s → IsDelay (min_duration (2 * s) max_backoff)
  unfolding min_duration
  min_duration-IsDelay s h = (ground arith, ground arith)

  after_wait-Spends :
      (c d : LeaseController W) (r : W × Bool)
      (again : LeaseController W → LeaseController W × Option (Option Lease × Bool))
      → ((e : LeaseController W) → Spends 0 e (again e).0)
      → Spends 0 c d
      → Spends 0 c (after_wait client node seconds d r again).0
  after_wait-Spends c d (w, true) again h s =
      let e = record d { world = w } in
      Spends-trans c e _ (Spends-trans c d e s (Spends-other d w d.latest_lease)) (h e)
  after_wait-Spends c d (w, false) again h s =
      Spends-trans c d _ s (Spends-other d w d.latest_lease)

  after_ensure-Spends :
      (c d : LeaseController W) (n : ℕ) (r : Error ⊎ (Option Lease × Bool))
      (again : LeaseController W → LeaseController W × Option (Option Lease × Bool))
      → IsDelay n
      → ((e : LeaseController W) → Spends 0 e (again e).0)
      → Spends 0 c d
      → Spends 0 c (after_ensure client node seconds n (d, r) again).0
  after_ensure-Spends c d n (inr answer) again p h s = s
  after_ensure-Spends c d n (inl e) again p h s =
      let w = client.sleep d.world n in
      after_wait-Spends c (record d { world = w; slept = d.slept ++ n ∷ [] }) (client.wait w n)
        again h (Spends-trans c d _ s (slept-Spends d w n p))

  backoff_loop-Spends :
      (fuel sleep : ℕ) (c : LeaseController W)
      → 100 ≤ sleep
      → Spends 0 c (backoff_loop client node seconds fuel sleep c).0
  unfolding backoff_loop
  backoff_loop-Spends zero sleep c h = Spends-other c c.world c.latest_lease
  backoff_loop-Spends (suc fuel) sleep c h =
      let p = min_duration-IsDelay sleep h in
      after_ensure-Spends c _ _ _ _ p
        (λ e.
          backoff_loop-Spends fuel (min_duration (2 * sleep) max_backoff) e (omega (arith, p.0)))
        (ensure_lease-Spends c)

  backoff_ensure_lease-Spends :
      (fuel : ℕ) (c : LeaseController W)
      → Spends 0 c (backoff_ensure_lease client node seconds fuel c).0
  unfolding backoff_ensure_lease
  backoff_ensure_lease-Spends fuel c = backoff_loop-Spends fuel 100 c (omega arith)

  after_conflict-Spends :
      {n : ℕ} (c d : LeaseController W) (r : Option (Option Lease × Bool))
      (again : Option Lease → LeaseController W → Updated client node seconds)
      → ((b : Option Lease) (e : LeaseController W) → Spends n e (again b e).0)
      → Spends 0 c d
      → Spends n c (after_conflict client node seconds (d, r) again).0
  after_conflict-Spends c d none again h s = Spends-more c d (omega arith) s
  after_conflict-Spends c d (some (base, created)) again h s =
      Spends-more c _ (omega arith) (Spends-trans c d _ s (h base d))

  after_update-Spends :
      {n : ℕ} (fuel : ℕ) (base : Option Lease) (c d : LeaseController W) (r : W × (Error ⊎ Lease))
      (again : Option Lease → LeaseController W → Updated client node seconds)
      → ((b : Option Lease) (e : LeaseController W) → Spends n e (again b e).0)
      → Spends 1 c d
      → Spends (suc n) c (after_update client node seconds fuel base d r again).0
  after_update-Spends fuel base c d (w, inr l) again h s =
      Spends-more c _ (omega arith) (Spends-trans c d _ s (Spends-other d w (some l)))
  after_update-Spends fuel base c d (w, inl x) again h s =
      let e = record d { world = w } in
      let t = Spends-trans c d e s (Spends-other d w d.latest_lease) in
      if-Spends (client.is_cancelled x) _ _ (Spends-more c e (omega arith) t) (
        Spends-more c _ (omega arith) (
          Spends-trans c e _ t (
            if-Spends (client.is_conflict x) _ _
              (after_conflict-Spends e _ _ again h (backoff_ensure_lease-Spends fuel e))
              (h base e))))

  retry_loop-Spends :
      (fuel attempts : ℕ) (base : Option Lease) (c : LeaseController W)
      → Spends attempts c (retry_loop client node seconds fuel attempts base c).0
  unfolding retry_loop
  retry_loop-Spends fuel zero base c = Spends-other c c.world c.latest_lease
  retry_loop-Spends fuel (suc attempts) base c =
      let lease = lease_now client node seconds c base in
      after_update-Spends fuel base c (record c { sent_updates = c.sent_updates ++ lease ∷ [] })
        (client.update c.world lease) _ (retry_loop-Spends fuel attempts)
        (sent-Spends c lease (new_lease-IsRenewed (client.now c.world) base))

  retry_update_lease-Spends :
      (fuel : ℕ) (base : Option Lease) (c : LeaseController W)
      → Spends max_update_retries c (retry_update_lease client node seconds fuel base c).0
  unfolding retry_update_lease
  retry_update_lease-Spends fuel base c = retry_loop-Spends fuel 5 base c

  after_backoff-Spends :
      (fuel : ℕ) (c d : LeaseController W) (r : Option (Option Lease × Bool))
      → Spends 0 c d
      → Spends 5 c (after_backoff client node seconds fuel (d, r)).0
  after_backoff-Spends fuel c d none s = Spends-more c d (omega arith) s
  after_backoff-Spends fuel c d (some (none, created)) s =
      Spends-more c _ (omega arith) (Spends-trans c d _ s (Spends-other d d.world none))
  after_backoff-Spends fuel c d (some (some l, true)) s =
      Spends-more c _ (omega arith) (Spends-trans c d _ s (Spends-other d d.world (some l)))
  after_backoff-Spends fuel c d (some (some l, false)) s =
      let e = record d { latest_lease = some l } in
      Spends-trans c e _ (Spends-trans c d e s (Spends-other d d.world (some l)))
        (retry_update_lease-Spends fuel (some l) e)

  ensure_and_update-Spends :
      (fuel : ℕ) (c : LeaseController W)
      → Spends 5 c (ensure_and_update client node seconds fuel c).0
  unfolding ensure_and_update
  ensure_and_update-Spends fuel c =
      after_backoff-Spends fuel c _ _ (backoff_ensure_lease-Spends fuel c)

  after_latest-Spends :
      (fuel : ℕ) (c d : LeaseController W) (r : Option (Option Error))
      → Spends 5 c d
      → Spends 10 c (after_latest client node seconds fuel (d, r)).0
  after_latest-Spends fuel c d none s = Spends-more c d (omega arith) s
  after_latest-Spends fuel c d (some none) s = Spends-more c d (omega arith) s
  after_latest-Spends fuel c d (some (some e)) s =
      Spends-trans c d _ s (ensure_and_update-Spends fuel d)

  with_latest-Spends :
      (fuel : ℕ) (latest : Option Lease) (c : LeaseController W)
      → Spends 10 c (with_latest client node seconds fuel latest c).0
  with_latest-Spends fuel none c = Spends-more c _ (omega arith) (ensure_and_update-Spends fuel c)
  with_latest-Spends fuel (some l) c =
      after_latest-Spends fuel c _ _ (retry_update_lease-Spends fuel _ c)

  pub renew-Spends :
      (fuel : ℕ) (c : LeaseController W) → Spends 10 c (renew client node seconds fuel c).0
  unfolding renew
  renew-Spends fuel c = with_latest-Spends fuel c.latest_lease c

module _ {W : Type 0} (client : LeaseClient W) (seconds : ℕ) where
  with_node-Spends :
      (fuel : ℕ) (node : Error ⊎ Node) (c : LeaseController W)
      → Spends 10 c (with_node client seconds fuel node c).0
  with_node-Spends fuel (inl e) c =
      Spends-more c _ (omega arith) (Spends-other c c.world c.latest_lease)
  with_node-Spends fuel (inr node) c = renew-Spends client node seconds fuel c

  -- Whatever the API server answers, one run of sync sends ten updates at most; every lease
  -- sent, in an update or a create, has an owner and a renew time; and each sleep between two attempts
  -- takes from 200 to 7000 milliseconds.
  pub sync-Spends :
      (fuel : ℕ) (ping : Error ⊎ Option Error) (node : Error ⊎ Node) (c : LeaseController W)
      → Spends 10 c (sync client seconds fuel ping node c).0
  unfolding sync
  sync-Spends fuel (inl e) node c =
      Spends-more c _ (omega arith) (Spends-other c c.world c.latest_lease)
  sync-Spends fuel (inr (some e)) node c =
      Spends-more c _ (omega arith) (Spends-other c c.world c.latest_lease)
  sync-Spends fuel (inr none) node c = with_node-Spends fuel node c
