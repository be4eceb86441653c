-- ===== src/Monitor/Examples.antt =====
-- A variable with one subscription that is set once, and the theorems of the module beside at it.
use native_kubelet.Base.{ℕ, ◌+◌, ltb, true, false, some, [], ◌∷◌, ◌≡◌, refl, arith}
use native_kubelet.Result.{ok}
use native_kubelet.Monitor.{
  make_chan, close, MonitorVariable, Subscription, new_monitor_variable, set_value, is_set,
  subscribe, is_ready,
}
use native_kubelet.Monitor.Ready.{
  Reach, start, assigned, subscribed, ready_iff_unread, set_value_total,
}

abbrev once : MonitorVariable ℕ
once = record {
  current_value = some 7;
  current_version = 1;
  version_invalidation_channel = 1;
  chans = true ∷ false ∷ [];
}

abbrev first_sub : Subscription
first_sub = record { last_version_read = 0; last_version_read_invalidation_channel = 0 }

once_reached : Reach once (first_sub ∷ [])
unfolding new_monitor_variable make_chan close set_value subscribe is_set
once_reached = assigned 7 (subscribed start) (omega arith) refl

ready_iff_unread_example : is_ready once first_sub ≡ ltb 0 1
ready_iff_unread_example = ready_iff_unread 0 first_sub once_reached refl

set_value_total_example :
    (n : MonitorVariable ℕ) × (set_value 9 once ≡ ok n)
    × (n.current_value ≡ some 9)
    × (n.current_version ≡ once.current_version + 1)
set_value_total_example = set_value_total 9 once_reached (omega arith)
