-- ===== src/Monitor.antt =====
-- internal/lock/monitor.go: a variable whose changes close channels. A channel is an index into the
-- list of all channels, which says whether it is closed. Each method runs under the mutex.
use native_kubelet.Base.{
  ℕ, ◌+◌, ◌%◌, ◌^◌, ltb, length, get_elem?, set, Bool, true, false, ◌&&◌, if◌then◌else◌, Option,
  none, some, List, [], ◌∷◌, ◌++◌,
}
use native_kubelet.Result.{Result, ok, err, panic}
pub mod Ready
mod Examples

-- make(chan struct{}), with its index
unfoldable pub make_chan : List Bool → List Bool × ℕ
make_chan chans = (chans ++ false ∷ [], length chans)

-- close(c): a panic when it is closed already.
unfoldable pub close : List Bool → ℕ → Result (List Bool)
close chans c = elim (get_elem? chans c) [
  | some false ↦ ok (set chans c true)
  | some true ↦ panic
  | none ↦ panic
]

-- `currentVersion > 0` of an int64
unfoldable pub is_set : ℕ → Bool
is_set version = ltb 0 version && ltb version (2 ^ 63)

-- A version is an int64, kept modulo 2^64; 0 stands for no value.
pub record MonitorVariable (V : Type 0) : Type 0 where
  pub current_value : Option V
  pub current_version : ℕ
  pub version_invalidation_channel : ℕ
  pub chans : List Bool

pub record Subscription : Type 0 where
  pub last_version_read : ℕ
  pub last_version_read_invalidation_channel : ℕ

module _ {V : Type 0} where
  unfoldable pub new_monitor_variable : MonitorVariable V
  unfolding make_chan
  new_monitor_variable =
      let (chans, c) = make_chan [] in
      record {
        current_value = none;
        current_version = 0;
        version_invalidation_channel = c;
        chans = chans;
      }

  abbrev pub renew : V → MonitorVariable V → Result (List Bool) → Result (MonitorVariable V)
  renew v m (ok closed) =
      let (chans, c) = make_chan closed in
      ok (record {
        current_value = some v;
        current_version = (m.current_version + 1) % (2 ^ 64);
        version_invalidation_channel = c;
        chans = chans;
      })
  renew v m (err e) = err e
  renew v m panic = panic

  unfoldable pub set_value : V → MonitorVariable V → Result (MonitorVariable V)
  unfolding close make_chan
  set_value v m = renew v m (close m.chans m.version_invalidation_channel)

  -- A new channel that is closed at once when a value has been set.
  unfoldable pub subscribe : MonitorVariable V → Subscription × MonitorVariable V
  unfolding is_set
  subscribe m =
      if is_set m.current_version
      then (
        record { last_version_read = 0; last_version_read_invalidation_channel = length m.chans },
        record m { chans = m.chans ++ true ∷ [] },
      )
      else (
        record {
          last_version_read = 0;
          last_version_read_invalidation_channel = m.version_invalidation_channel;
        },
        m,
      )

  -- NewValueReady, and a look whether that channel is closed.
  unfoldable pub is_ready : MonitorVariable V → Subscription → Bool
  is_ready m sub = elim (get_elem? m.chans sub.last_version_read_invalidation_channel) [
    | some closed ↦ closed
    | none ↦ false
  ]

  unfoldable pub value : MonitorVariable V → Subscription → (Option V × ℕ) × Subscription
  value m sub = (
    (m.current_value, m.current_version),
    record {
      last_version_read = m.current_version;
      last_version_read_invalidation_channel = m.version_invalidation_channel;
    },
  )
