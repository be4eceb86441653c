-- ===== src/NodePing/Examples.antt =====
-- A provider that answers once and then hangs, and the theorem of the module beside at it.
use native_kubelet.Base.{pos, none, some, List, [], ◌∷◌, ◌≡◌, refl, codes, arith}
use native_kubelet.Result.{ok, ◌>>=◌}
use native_kubelet.Errdefs.{Error, message}
use native_kubelet.NodePing.{
  NodePingController, new_node_ping_controller, result, get_result, PingEvent, checked, asked,
  context_done, answered, ping_events,
}
use native_kubelet.NodePing.Results.{get_result-last}

abbrev deadline : Error
deadline = message (codes "context deadline exceeded") []

abbrev events : List PingEvent
events = asked none ∷ checked (answered 5 none) ∷ asked none ∷ checked (context_done deadline) ∷ []

get_result-last_example :
    (npc : NodePingController) × ((new_node_ping_controller (pos 10000) none >>= ping_events events)
      ≡ ok npc)
    × ((get_result none npc).0 ≡ result (record { time = none; error = some deadline }))
get_result-last_example = get_result-last (pos 10000) none events refl refl (omega arith)
