-- ===== src/NodePing.antt =====
-- node/node_ping_controller.go: the controller that pings the provider and keeps the last result in
-- a monitor variable. What the `select` of a check takes, the end of its context or the answer of
-- the ping in flight, is an argument. A duration is a number of milliseconds.
use native_kubelet.Base.{
  ℕ, ℤ, pos, negsuc, zero, suc, Bool, true, false, if◌then◌else◌, Option, none, some, List, [], ◌∷◌,
}
use native_kubelet.Result.{Result, ok, err, panic, ◌>>=◌}
use native_kubelet.Errdefs.{Error}
use native_kubelet.Monitor.{
  MonitorVariable, new_monitor_variable, set_value, subscribe, is_ready, value,
}
pub mod Results
mod Examples

-- The time is the zero time when the context ended first.
pub record PingResult : Type 0 where
  pub time : Option ℕ
  pub error : Option Error

pub record NodePingController : Type 0 where
  pub ping_interval : ℤ
  pub ping_timeout : Option ℤ
  pub cond : MonitorVariable PingResult

abbrev pub is_zero : ℤ → Bool
is_zero (pos zero) = true
is_zero (pos (suc n)) = false
is_zero (negsuc n) = false

abbrev pub is_zero_timeout : Option ℤ → Bool
is_zero_timeout none = false
is_zero_timeout (some d) = is_zero d

unfoldable pub new_node_ping_controller : ℤ → Option ℤ → Result NodePingController
unfolding new_monitor_variable
new_node_ping_controller ping_interval timeout =
    if is_zero ping_interval
    then panic
    else if is_zero_timeout timeout
    then panic
    else ok (record {
      ping_interval = ping_interval;
      ping_timeout = timeout;
      cond = new_monitor_variable;
    })

-- `context_done`: the context ended with this error. `answered`: the time at which the ping started,
-- and what it returned.
pub data Taken : Type 0 where
  context_done : Error → Taken
  answered : ℕ → Option Error → Taken

abbrev pub result_of : Taken → PingResult
result_of (context_done e) = record { time = none; error = some e }
result_of (answered now e) = record { time = some now; error = e }

abbrev pub with_cond :
    NodePingController → Result (MonitorVariable PingResult) → Result NodePingController
with_cond npc (ok m) = ok (record npc { cond = m })
with_cond npc (err e) = err e
with_cond npc panic = panic

unfoldable pub check_func : Taken → NodePingController → Result NodePingController
unfolding set_value
check_func taken npc = with_cond npc (set_value (result_of taken) npc.cond)

-- What getResult comes to: it waits for the first result, the context ended, the last result, or
-- a panic on a value that is no result.
pub data GetResult : Type 0 where
  blocks : GetResult
  failed : Error → GetResult
  result : PingResult → GetResult
  panics : GetResult

abbrev pub cast_result : Option PingResult → GetResult
cast_result none = panics
cast_result (some r) = result r

-- The `select` takes the end of the context when it is given an error.
unfoldable pub get_result : Option Error → NodePingController → GetResult × NodePingController
unfolding subscribe is_ready value
get_result (some e) npc = let (sub, m) = subscribe npc.cond in (failed e, record npc { cond = m })
get_result none npc =
    let (sub, m) = subscribe npc.cond in
    let ((v, version), read) = value m sub in
    (if is_ready m sub then cast_result v else blocks, record npc { cond = m })

-- A check of Run or a getResult of another goroutine.
pub data PingEvent : Type 0 where
  checked : Taken → PingEvent
  asked : Option Error → PingEvent

unfoldable pub ping_event : PingEvent → NodePingController → Result NodePingController
unfolding check_func get_result
ping_event (checked taken) npc = check_func taken npc
ping_event (asked ended) npc = ok (get_result ended npc).1

unfoldable pub ping_events : List PingEvent → NodePingController → Result NodePingController
unfolding ping_event
ping_events [] npc = ok npc
ping_events (e ∷ es) npc = ping_event e npc >>= ping_events es
