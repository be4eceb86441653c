-- ===== src/Lease/Examples.antt =====
-- An API server that fails once and then serves the lease, and the theorems of the modules beside
-- at it.
use native_kubelet.Base.{
  ℕ, pos, negsuc, zero, suc, ◌<◌, ◌≤◌, Str, codes, length, true, false, Option, none, some, ◌⊎◌,
  inl, inr, [], ◌∷◌, ◌≡◌, refl, arith,
}
use mathlib.Core.Path.{ap}
use mathlib.Core.Sum.{inl-injective}
use native_kubelet.Result.{ok, panic}
use native_kubelet.Errdefs.{Error, message, not_found_error, is_not_found_error}
use native_kubelet.Kube.{Node}
use native_kubelet.Samples.{meta}
use native_kubelet.Lease.{
  Lease, LeaseClient, LeaseController, sync, backoff_ensure_lease,
  new_lease_controller_with_renew_interval,
}
use native_kubelet.Lease.Spends.{Spends}
use native_kubelet.Lease.Bounds.{sync-Spends}
use native_kubelet.Lease.Backoff.{FollowsFrom, backoff_ensure_lease-FollowsFrom}
use native_kubelet.Lease.Ends.{Recovers, sync-ends}
use native_kubelet.Lease.Renewal.{IsHealthy, Renewed, sync-Renewed}

abbrev node : Node
node = record { metadata = meta; taints = []; status = record { conditions = []; rest = [] } }

-- The failures that are to come, and the lease that the server has.
abbrev Server : Type 0
Server = ℕ × Option Lease

abbrev refused : Error
refused = message (codes "connection refused") []

abbrev get : Server → Str → Server × (Error ⊎ Lease)
get (suc n, l) name = ((n, l), inl refused)
get (zero, none) name = ((zero, none), inl (not_found_error (message (codes "lease") [])))
get (zero, some l) name = ((zero, some l), inr l)

abbrev write : Server → Lease → Server × (Error ⊎ Lease)
write (n, l) lease = ((n, some lease), inr lease)

abbrev client : LeaseClient Server
client = record {
  get = get;
  create = write;
  update = write;
  is_not_found = is_not_found_error;
  is_conflict = λ e. false;
  is_cancelled = λ e. false;
  now = λ w. 7;
  sleep = λ w n. w;
  wait = λ w n. (w, true);
}

abbrev controller : ℕ → LeaseController Server
controller failures = record {
  world = (failures, none);
  latest_lease = none;
  sent_updates = [];
  sent_creates = [];
  slept = [];
}

-- Three failures: three sleeps, and then one create.
sleeps_thrice :
    (sync client 40 4 (inr none) (inr node) (controller 3)).0.slept ≡ 200 ∷ 400 ∷ 800 ∷ []
unfolding sync is_not_found_error
sleeps_thrice = refl

creates_once : length (sync client 40 4 (inr none) (inr node) (controller 3)).0.sent_creates ≡ 1
unfolding sync is_not_found_error
creates_once = refl

accepts_interval :
    new_lease_controller_with_renew_interval (pos 40) (pos 10000) ≡ ok (40, pos 10000)
unfolding new_lease_controller_with_renew_interval
accepts_interval = refl

-- A negative interval passes the checks.
accepts_negative_interval :
    new_lease_controller_with_renew_interval (pos 40) (negsuc 0) ≡ ok (40, negsuc 0)
unfolding new_lease_controller_with_renew_interval
accepts_negative_interval = refl

-- An error of getResult leaves a nil result, whose error is read.
ping_error_panics : (sync client 40 4 (inl refused) (inr node) (controller 3)).1 ≡ panic
unfolding sync
ping_error_panics = refl

sync-Spends_example :
    Spends 10 (controller 3) (sync client 40 4 (inr none) (inr node) (controller 3)).0
sync-Spends_example = sync-Spends client 40 4 (inr none) (inr node) (controller 3)

backoff_ensure_lease-FollowsFrom_example :
    FollowsFrom 0 4 [] (backoff_ensure_lease client node 40 4 (controller 3)).0.slept
backoff_ensure_lease-FollowsFrom_example =
    backoff_ensure_lease-FollowsFrom client node 40 4 (controller 3)

abbrev patience : Server → ℕ
patience (n, l) = n

get-patience : (w : Server) (n : Str) → patience (get w n).0 ≤ patience w
get-patience (suc k, l) n = omega arith
get-patience (zero, none) n = omega arith
get-patience (zero, some l) n = omega arith

get-fails :
    (w : Server) (n : Str) (e : Error)
    → (get w n).1 ≡ inl e
    → is_not_found_error e ≡ false
    → patience (get w n).0 < patience w
unfolding is_not_found_error
get-fails (suc k, l) n e p q = omega arith
get-fails (zero, none) n e p q =
    absurd (ground (arith, ap is_not_found_error (inl-injective _ _ p)))
get-fails (zero, some l) n e p q = absurd (ground arith)

recovers : Recovers client patience
recovers = record {
  get = get-patience;
  get_fails = get-fails;
  create = λ w l. omega arith;
  create_fails = λ w l e p. absurd (ground arith);
  update = λ w l. omega arith;
  sleep = λ w n. omega arith;
  wait = λ w n. omega arith;
}

sync-ends_example : (sync client 40 4 (inr none) (inr node) (controller 3)).1 ≡ ok (some tt)
sync-ends_example = sync-ends client patience recovers node 40 4 (controller 3) (omega arith)

-- The same server without its failures.
abbrev find : Option Lease → Str → Option Lease × (Error ⊎ Lease)
find none name = (none, inl (not_found_error (message (codes "lease") [])))
find (some l) name = (some l, inr l)

abbrev well : LeaseClient (Option Lease)
well = record {
  get = find;
  create = λ w l. (some l, inr l);
  update = λ w l. (some l, inr l);
  is_not_found = is_not_found_error;
  is_conflict = λ e. false;
  is_cancelled = λ e. false;
  now = λ w. 7;
  sleep = λ w n. w;
  wait = λ w n. (w, true);
}

find-answers :
    (w : Option Lease) (n : Str)
    → ((l : Lease) × ((find w n).1 ≡ inr l))
      ⊎ ((e : Error) × ((find w n).1 ≡ inl e) × (is_not_found_error e ≡ true))
unfolding is_not_found_error
find-answers none n = inr (_, refl, refl)
find-answers (some l) n = inl (l, refl)

well-IsHealthy : IsHealthy well
well-IsHealthy = record { get = find-answers; create = λ w l. (l, refl); update = λ w l. (l, refl) }

abbrev fresh : LeaseController (Option Lease)
fresh = record {
  world = none;
  latest_lease = none;
  sent_updates = [];
  sent_creates = [];
  slept = [];
}

sync-Renewed_example : Renewed well fresh (sync well 40 1 (inr none) (inr node) fresh).0
sync-Renewed_example = sync-Renewed well well-IsHealthy node 40 0 fresh
