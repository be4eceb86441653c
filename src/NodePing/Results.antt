-- ===== src/NodePing/Results.antt =====
-- What getResult returns after any sequence of checks and calls of getResult.
use native_kubelet.Base.{
  ℕ, ℤ, suc, ◌+◌, ◌^◌, ◌<◌, ltb, ◌≡◌, refl, ap, ◌∙◌, arith, length, get_elem?-append_self, true,
  false, if◌then◌else◌, Option, none, some, List, [], ◌∷◌, ◌++◌,
}
use mathlib.Core.Path.{subst}
use native_kubelet.Errdefs.{Error}
use native_kubelet.Result.{ok, ◌>>=◌}
use native_kubelet.Monitor.{
  MonitorVariable, Subscription, new_monitor_variable, subscribe, is_ready, value,
}
use native_kubelet.Monitor.Ready.{
  Reach, start, assigned, subscribed, ready_iff_unread, set_value_total,
}
use native_kubelet.NodePing.{
  PingResult, NodePingController, new_node_ping_controller, is_zero, is_zero_timeout, Taken,
  result_of, check_func, with_cond, GetResult, blocks, result, cast_result, get_result, PingEvent,
  checked, asked, ping_event, ping_events,
}

-- The result of the last check, if there was one.
abbrev pub last_result : List PingEvent → Option PingResult → Option PingResult
last_result [] r = r
last_result (checked taken ∷ es) r = last_result es (some (result_of taken))
last_result (asked ended ∷ es) r = last_result es r

abbrev pub count_checks : List PingEvent → ℕ
count_checks [] = 0
count_checks (checked taken ∷ es) = suc (count_checks es)
count_checks (asked ended ∷ es) = count_checks es

abbrev pub expected : Option PingResult → GetResult
expected none = blocks
expected (some r) = result r

-- After `n` checks, the last of them with this result.
pub record IsPinged (n : ℕ) (last : Option PingResult) (npc : NodePingController) : Type 0 where
  pub subs : List Subscription
  pub reach : Reach npc.cond subs
  pub version : npc.cond.current_version ≡ n
  pub current : npc.cond.current_value ≡ last
  pub matches : ltb 0 n ≡ (elim last [ none ↦ false | some r ↦ true ])

subscribe-unread : (m : MonitorVariable PingResult) → (subscribe m).0.last_version_read ≡ 0
unfolding subscribe
subscribe-unread m = ground arith

subscribe-value :
    (m : MonitorVariable PingResult)
    → ((subscribe m).1.current_value ≡ m.current_value)
      × ((subscribe m).1.current_version ≡ m.current_version)
unfolding subscribe
subscribe-value m = (ground arith, ground arith)

subscribe-ready :
    {m : MonitorVariable PingResult} {subs : List Subscription}
    → Reach m subs
    → is_ready (subscribe m).1 (subscribe m).0 ≡ ltb 0 m.current_version
subscribe-ready {m = m} {subs = subs} r =
    ready_iff_unread (length subs) (subscribe m).0 (subscribed r)
      (get_elem?-append_self subs (subscribe m).0)
    ∙ ap (λ t. ltb t (subscribe m).1.current_version) (subscribe-unread m)
    ∙ ap (λ t. ltb 0 t) (subscribe-value m).1

pub asked-IsPinged :
    (n : ℕ) (last : Option PingResult) (npc : NodePingController) (ended : Option Error)
    → IsPinged n last npc
    → IsPinged n last (get_result ended npc).1
unfolding get_result
asked-IsPinged n last npc none h = record {
  subs = h.subs ++ (subscribe npc.cond).0 ∷ [];
  reach = subscribed h.reach;
  version = (subscribe-value npc.cond).1 ∙ h.version;
  current = (subscribe-value npc.cond).0 ∙ h.current;
  matches = h.matches;
}
asked-IsPinged n last npc (some e) h = record {
  subs = h.subs ++ (subscribe npc.cond).0 ∷ [];
  reach = subscribed h.reach;
  version = (subscribe-value npc.cond).1 ∙ h.version;
  current = (subscribe-value npc.cond).0 ∙ h.current;
  matches = h.matches;
}

pub checked-IsPinged :
    (n : ℕ) (last : Option PingResult) (npc : NodePingController) (taken : Taken)
    → n + 1 < 2 ^ 63
    → IsPinged n last npc
    → (d : NodePingController) × (check_func taken npc ≡ ok d)
      × IsPinged (suc n) (some (result_of taken)) d
unfolding check_func
checked-IsPinged n last npc taken b h =
    let (m, e, v, w) = set_value_total (result_of taken) h.reach (omega (arith, h.version)) in
    (
      record npc { cond = m },
      ap (with_cond npc) e,
      record {
        subs = h.subs;
        reach = assigned (result_of taken) h.reach (omega (arith, h.version)) e;
        version = omega (arith, w, h.version);
        current = v;
        matches = ground arith;
      },
    )

ping_events-IsPinged :
    (es : List PingEvent) (n : ℕ) (last : Option PingResult) (npc : NodePingController)
    → n + count_checks es < 2 ^ 63
    → IsPinged n last npc
    → (d : NodePingController) × (ping_events es npc ≡ ok d)
      × IsPinged (n + count_checks es) (last_result es last) d
unfolding ping_events ping_event
ping_events-IsPinged [] n last npc b h =
    (npc, refl, subst (λ k. IsPinged k last npc) (omega arith) h)
ping_events-IsPinged (asked ended ∷ es) n last npc b h =
    ping_events-IsPinged es n last (get_result ended npc).1 b (asked-IsPinged n last npc ended h)
ping_events-IsPinged (checked taken ∷ es) n last npc b h =
    let (d, e, p) = checked-IsPinged n last npc taken (omega arith) h in
    let (f, q, r) = ping_events-IsPinged es (suc n) (some (result_of taken)) d (omega arith) p in
    (
      f,
      ap (λ t. t >>= ping_events es) e ∙ q,
      subst (λ k. IsPinged k (last_result es (some (result_of taken))) f) (omega arith) r,
    )

pub get_result-IsPinged :
    (n : ℕ) (last : Option PingResult) (npc : NodePingController)
    → IsPinged n last npc
    → (get_result none npc).0 ≡ expected last
unfolding get_result value
get_result-IsPinged n last npc h =
    rw (subscribe-ready h.reach ∙ ap (λ t. ltb 0 t) h.version ∙ h.matches)
      (rw ((subscribe-value npc.cond).0 ∙ h.current) (of_last last))
  where
    of_last :
        (o : Option PingResult)
        → (if (elim o [ none ↦ false | some r ↦ true ]) then cast_result o else blocks) ≡ expected o
    of_last none = refl
    of_last (some r) = refl

new-IsPinged :
    (interval : ℤ) (timeout : Option ℤ)
    → is_zero interval ≡ false
    → is_zero_timeout timeout ≡ false
    → (npc : NodePingController) × (new_node_ping_controller interval timeout ≡ ok npc)
      × IsPinged 0 none npc
unfolding new_node_ping_controller new_monitor_variable
new-IsPinged interval timeout p q = (
  record { ping_interval = interval; ping_timeout = timeout; cond = new_monitor_variable },
  rw p (rw q refl),
  record { subs = []; reach = start; version = refl; current = refl; matches = refl },
)

-- A controller that is made with an interval and a timeout that are not zero, and then any sequence
-- of checks and calls of getResult with fewer than 2^63 checks: nothing panics, and the next
-- getResult whose context does not end waits when there was no check, and otherwise returns the
-- result of the last check.
pub get_result-last :
    (interval : ℤ) (timeout : Option ℤ) (es : List PingEvent)
    → is_zero interval ≡ false
    → is_zero_timeout timeout ≡ false
    → count_checks es < 2 ^ 63
    → (npc : NodePingController) × ((new_node_ping_controller interval timeout >>= ping_events es)
        ≡ ok npc)
      × ((get_result none npc).0 ≡ expected (last_result es none))
get_result-last interval timeout es p q b =
    let (npc, e, h) = new-IsPinged interval timeout p q in
    let (d, f, k) = ping_events-IsPinged es 0 none npc (omega arith) h in
    (d, ap (λ t. t >>= ping_events es) e ∙ f, get_result-IsPinged _ (last_result es none) d k)
