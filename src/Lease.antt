-- ===== src/Lease.antt =====
-- node/lease_controller_v1.go: the controller that keeps the lease of the node. The API server and
-- the clock are parameters; a duration is a number of milliseconds. The state has, besides the
-- latest lease, what the controller sent and how long it slept, in order. Each sleep is followed by a
-- timer of the same length, which is `wait` here and is not among the recorded sleeps: the pause between
-- two attempts is twice the sleep. The errors of the constructor leave out the numbers among their
-- arguments.
use native_kubelet.Base.{
  ℕ, ℤ, pos, negsuc, zero, suc, ◌*◌, ◌+◌, ltb, leb, ◌==◌, Str, codes, length, Bool, true, false,
  not, ◌&&◌, ◌||◌, if◌then◌else◌, Option, none, some, ◌⊎◌, inl, inr, List, [], ◌∷◌, ◌++◌,
}
use native_kubelet.Result.{Result, ok, err, panic}
use native_kubelet.Errdefs.{Error, message, formatted, wrapped}
use native_kubelet.Kube.{Node, OwnerReference}
pub mod Backoff
pub mod Bounds
pub mod Ends
pub mod Spends
pub mod Renewal
mod Examples

abbrev pub max_update_retries : ℕ
max_update_retries = 5

abbrev pub max_backoff : ℕ
max_backoff = 7000

abbrev pub default_lease_duration : ℕ
default_lease_duration = 40

pub record Lease : Type 0 where
  pub name : Str
  pub namespace : Str
  pub owner_references : List OwnerReference
  pub holder_identity : Option Str
  pub lease_duration_seconds : Option ℕ
  pub renew_time : Option ℕ
  pub resource_version : Str

-- coordclientset.LeaseInterface, the tests of its errors, and the clock.
pub record LeaseClient (W : Type 0) : Type 0 where
  pub get : W → Str → W × (Error ⊎ Lease)
  pub create : W → Lease → W × (Error ⊎ Lease)
  pub update : W → Lease → W × (Error ⊎ Lease)
  pub is_not_found : Error → Bool
  pub is_conflict : Error → Bool
  -- errors.Is with context.Canceled or context.DeadlineExceeded
  pub is_cancelled : Error → Bool
  pub now : W → ℕ
  pub sleep : W → ℕ → W
  -- a timer against the context: true when the timer comes first
  pub wait : W → ℕ → W × Bool

pub record LeaseController (W : Type 0) : Type 0 where
  pub world : W
  pub latest_lease : Option Lease
  pub sent_updates : List Lease
  pub sent_creates : List Lease
  pub slept : List ℕ

-- The checks of the constructor: a duration in seconds and an interval in milliseconds.
abbrev pub invalid_duration : Error
invalid_duration = message (codes "Lease duration seconds %d is invalid, it must be > 0") []

abbrev pub check_interval : ℕ → ℤ → Result (ℕ × ℤ)
check_interval seconds (pos zero) =
    err (message (codes "Lease renew interval %s is invalid, it must be > 0") [])
check_interval seconds (pos (suc i)) =
    if leb (seconds * 1000) (suc i)
    then err (
        message
          (codes
            "Lease renew interval %s is invalid, it must be less than lease duration seconds %d")
          [])
    else ok (seconds, pos (suc i))
check_interval seconds (negsuc i) = ok (seconds, negsuc i)

unfoldable pub new_lease_controller_with_renew_interval : ℤ → ℤ → Result (ℕ × ℤ)
new_lease_controller_with_renew_interval (pos zero) renew_interval = err invalid_duration
new_lease_controller_with_renew_interval (pos (suc s)) renew_interval =
    check_interval (suc s) renew_interval
new_lease_controller_with_renew_interval (negsuc s) renew_interval = err invalid_duration

unfoldable pub min_duration : ℕ → ℕ → ℕ
min_duration a b = if ltb a b then a else b

unfoldable pub node_owner : Node → OwnerReference
node_owner node = record {
  api_version = codes "v1";
  kind = codes "Node";
  name = node.metadata.name;
  uid = node.metadata.uid;
}

abbrev pub base_lease : Node → ℕ → Option Lease → Lease
base_lease node lease_duration_seconds none = record {
  name = node.metadata.name;
  namespace = codes "kube-node-lease";
  owner_references = [];
  holder_identity = some node.metadata.name;
  lease_duration_seconds = some lease_duration_seconds;
  renew_time = none;
  resource_version = [];
}
base_lease node lease_duration_seconds (some base) = base

abbrev pub or_node : Node → List OwnerReference → List OwnerReference
or_node node [] = node_owner node ∷ []
or_node node (o ∷ os) = o ∷ os

unfoldable pub new_lease : Node → ℕ → ℕ → Option Lease → Lease
unfolding node_owner
new_lease node lease_duration_seconds now base =
    record (base_lease node lease_duration_seconds base) {
      renew_time = some now;
      owner_references =
          or_node node (base_lease node lease_duration_seconds base).owner_references;
    }

abbrev pub is_empty : List OwnerReference → Bool
is_empty [] = true
is_empty (o ∷ os) = false

-- An error of an update is only logged.
abbrev pub ended : Option (Option Error) → Option (Unit {0})
ended none = none
ended (some e) = some tt

module _ {W : Type 0} (client : LeaseClient W) (node : Node) (lease_duration_seconds : ℕ) where
  abbrev pub Ensured : Type 0
  Ensured = Error ⊎ (Option Lease × Bool)

  abbrev pub lease_now : LeaseController W → Option Lease → Lease
  lease_now c base = new_lease node lease_duration_seconds (client.now c.world) base

  abbrev pub after_create : LeaseController W → W × (Error ⊎ Lease) → LeaseController W × Ensured
  after_create c (w, inl e) = (record c { world = w }, inl e)
  after_create c (w, inr lease) = (record c { world = w }, inr (some lease, true))

  abbrev pub create_lease : LeaseController W → Lease → LeaseController W × Ensured
  create_lease c lease =
      after_create (record c { sent_creates = c.sent_creates ++ lease ∷ [] })
        (client.create c.world lease)

  abbrev pub after_get : LeaseController W → W × (Error ⊎ Lease) → LeaseController W × Ensured
  after_get c (w, inr lease) = (record c { world = w }, inr (some lease, false))
  after_get c (w, inl e) =
      let d = record c { world = w } in
      if client.is_not_found e
      then (if is_empty (lease_now d none).owner_references
          then (d, inr (none, false))
          else create_lease d (lease_now d none))
      else (d, inl e)

  unfoldable pub ensure_lease : LeaseController W → LeaseController W × Ensured
  unfolding new_lease
  ensure_lease c = after_get c (client.get c.world node.metadata.name)

  abbrev pub after_wait :
      LeaseController W
      → W × Bool
      → (LeaseController W → LeaseController W × Option (Option Lease × Bool))
      → LeaseController W × Option (Option Lease × Bool)
  after_wait c (w, true) again = again (record c { world = w })
  after_wait c (w, false) again = (record c { world = w }, some (none, false))

  -- Sleep, and then a timer of the same length.
  abbrev pub after_ensure :
      ℕ
      → LeaseController W × Ensured
      → (LeaseController W → LeaseController W × Option (Option Lease × Bool))
      → LeaseController W × Option (Option Lease × Bool)
  after_ensure next_sleep (c, inr answer) again = (c, some answer)
  after_ensure next_sleep (c, inl e) again =
      let slept = record c {
        world = client.sleep c.world next_sleep;
        slept = c.slept ++ next_sleep ∷ [];
      } in
      after_wait slept (client.wait slept.world next_sleep) again

  -- `none`: the rounds given have run out.
  unfoldable pub backoff_loop :
      ℕ → ℕ → LeaseController W → LeaseController W × Option (Option Lease × Bool)
  unfolding ensure_lease min_duration
  backoff_loop zero sleep c = (c, none)
  backoff_loop (suc fuel) sleep c =
      let next_sleep = min_duration (2 * sleep) max_backoff in
      after_ensure next_sleep (ensure_lease c) (backoff_loop fuel next_sleep)

  unfoldable pub backoff_ensure_lease :
      ℕ → LeaseController W → LeaseController W × Option (Option Lease × Bool)
  unfolding backoff_loop
  backoff_ensure_lease fuel c = backoff_loop fuel 100 c

  -- How an update ended: with an error or without, or not within the rounds of a backoff.
  abbrev pub Updated : Type 0
  Updated = LeaseController W × Option (Option Error)

  abbrev pub after_conflict :
      LeaseController W × Option (Option Lease × Bool)
      → (Option Lease → LeaseController W → Updated)
      → Updated
  after_conflict (c, none) again = (c, none)
  after_conflict (c, some (base, created)) again = again base c

  abbrev pub after_update :
      ℕ
      → Option Lease
      → LeaseController W
      → W × (Error ⊎ Lease)
      → (Option Lease → LeaseController W → Updated)
      → Updated
  after_update fuel base c (w, inr lease) again =
      (record c { world = w; latest_lease = some lease }, some none)
  after_update fuel base c (w, inl e) again =
      let d = record c { world = w } in
      if client.is_cancelled e
      then (
        d,
        some (
            some (
              formatted (codes "failed after %d attempts to update node lease: %w") (codes "5" ∷ [])
                e)),
      )
      else if client.is_conflict e
      then after_conflict (backoff_ensure_lease fuel d) again
      else again base d

  -- The loop over the attempts that are left.
  unfoldable pub retry_loop : ℕ → ℕ → Option Lease → LeaseController W → Updated
  unfolding backoff_ensure_lease new_lease
  retry_loop fuel zero base c = (
    c,
    some (some (message (codes "failed after %d attempts to update node lease") (codes "5" ∷ []))),
  )
  retry_loop fuel (suc attempts) base c =
      let again = retry_loop fuel attempts in
      let lease = lease_now c base in
      after_update fuel base (record c { sent_updates = c.sent_updates ++ lease ∷ [] })
        (client.update c.world lease) again

  unfoldable pub retry_update_lease : ℕ → Option Lease → LeaseController W → Updated
  unfolding retry_loop
  retry_update_lease fuel base c = retry_loop fuel max_update_retries base c

  -- A lease that was found, and not just created, is updated.
  abbrev pub after_backoff :
      ℕ → LeaseController W × Option (Option Lease × Bool) → LeaseController W × Option (Unit {0})
  after_backoff fuel (c, none) = (c, none)
  after_backoff fuel (c, some (none, created)) = (record c { latest_lease = none }, some tt)
  after_backoff fuel (c, some (some lease, true)) =
      (record c { latest_lease = some lease }, some tt)
  after_backoff fuel (c, some (some lease, false)) =
      let (d, r) = retry_update_lease fuel (some lease) (record c { latest_lease = some lease }) in
      (d, ended r)

  unfoldable pub ensure_and_update : ℕ → LeaseController W → LeaseController W × Option (Unit {0})
  unfolding retry_update_lease backoff_ensure_lease
  ensure_and_update fuel c = after_backoff fuel (backoff_ensure_lease fuel c)

  -- After the update that starts from the latest lease: without an error sync is done.
  abbrev pub after_latest : ℕ → Updated → LeaseController W × Option (Unit {0})
  after_latest fuel (c, none) = (c, none)
  after_latest fuel (c, some none) = (c, some tt)
  after_latest fuel (c, some (some e)) = ensure_and_update fuel c

  abbrev pub with_latest :
      ℕ → Option Lease → LeaseController W → LeaseController W × Option (Unit {0})
  with_latest fuel none c = ensure_and_update fuel c
  with_latest fuel (some latest) c =
      after_latest fuel (retry_update_lease fuel (some (lease_now c (some latest))) c)

  -- sync with a node and a clean ping.
  unfoldable pub renew : ℕ → LeaseController W → LeaseController W × Option (Unit {0})
  unfolding ensure_and_update retry_update_lease new_lease
  renew fuel c = with_latest fuel c.latest_lease c

module _ {W : Type 0} (client : LeaseClient W) (lease_duration_seconds : ℕ) where
  abbrev pub with_node :
      ℕ → Error ⊎ Node → LeaseController W → LeaseController W × Result (Option (Unit {0}))
  with_node fuel (inl e) c = (c, ok (some tt))
  with_node fuel (inr node) c =
      let (d, r) = renew client node lease_duration_seconds fuel c in (d, ok r)

  -- `ping` is what getResult of the ping controller returned, an error or the error of the last
  -- ping, and `node` what getServerNode did. After an error of getResult its nil result is
  -- dereferenced.
  unfoldable pub sync :
      ℕ
      → Error ⊎ Option Error
      → Error ⊎ Node
      → LeaseController W
      → LeaseController W × Result (Option (Unit {0}))
  unfolding renew
  sync fuel (inl e) node c = (c, panic)
  sync fuel (inr (some e)) node c = (c, ok (some tt))
  sync fuel (inr none) node c = with_node fuel node c
