-- ===== src/NodeController/Kept.antt =====
-- What one update keeps and changes.
use native_kubelet.Base.{
  ℕ, Str, ap, ◌≡◌, refl, All, Bool, true, false, if◌then◌else◌, Option, none, some, ◌⊎◌, inl, inr,
  List, [], ◌∷◌, map,
}
use native_kubelet.Result.{Result, ok, err, panic}
use native_kubelet.Errdefs.{Error}
use native_kubelet.Kube.{Node, NodeCondition}
use native_kubelet.NodePing.{PingResult, NodePingController, GetResult, result, failed, get_result}
use native_kubelet.NodePing.Results.{IsPinged, get_result-IsPinged}
use native_kubelet.NodeController.{
  NodeApi, Attempt, NodeController, Outcome, returned, waits, panicked, beat,
  update_node_status_heartbeat, update_node_status, set_server_node, after_handler, handle,
  after_update, update_after_ping, after_ping, update_status,
}
use native_kubelet.NodeController.Update.{Runs, IsPatched, Updates, update_node_status-Updates}

module _ {W : Type 0} (api : NodeApi W) where
  -- After an update without an error the node of the server is one that was patched for `provider`;
  -- after an error it is the one of before.
  abbrev pub Served : NodeController W → Node → NodeController W × Outcome → Type 0
  Served c provider (d, returned none) =
      (node : Node) × (d.server_node ≡ some node) × IsPatched api provider node
  Served c provider (d, returned (some e)) = d.server_node ≡ c.server_node
  Served c provider (d, waits) = ⊥
  Served c provider (d, panicked) = ⊥

  set_server_node-Served :
      (c : NodeController W) (provider : Node) (r : W × Result Node)
      → Updates api provider r.1
      → Served c provider (set_server_node api c r)
  set_server_node-Served c provider (w, ok node) h = (node, refl, h)
  set_server_node-Served c provider (w, err e) h = refl
  set_server_node-Served c provider (w, panic) h = h

  if-Served :
      (c : NodeController W) (provider : Node) (b : Bool) (x y : NodeController W × Outcome)
      → Served c provider x
      → Served c provider y
      → Served c provider (if b then x else y)
  if-Served c provider true x y p q = p
  if-Served c provider false x y p q = q

  -- After an update without an error the heartbeat of every condition is this time.
  abbrev pub Beats : ℕ → Node → Outcome → Type 0
  Beats now provider (returned none) =
      All (λ c. c.last_heartbeat_time ≡ now) provider.status.conditions
  Beats now provider _ = Unit

  -- A condition without the time of its heartbeat
  abbrev pub without_beat : NodeCondition → Str × Str × Str
  without_beat c = (c.condition_type, c.status, c.rest)

  -- What an update keeps and changes: the controller's ping is only asked, and the provider's node
  -- changes in its heartbeats.
  pub record Kept (ended : Option Error) (c : NodeController W) (provider : Node)
      (r : (NodeController W × Node) × Outcome) : Type 0 where
    pub served : Served c r.0.1 (r.0.0, r.1)
    pub ping : r.0.0.ping ≡ (get_result ended c.ping).1
    pub metadata : r.0.1.metadata ≡ provider.metadata
    pub taints : r.0.1.taints ≡ provider.taints
    pub conditions :
        map without_beat r.0.1.status.conditions ≡ map without_beat provider.status.conditions
    pub rest : r.0.1.status.rest ≡ provider.status.rest
    pub beats : Beats (api.now c.world) r.0.1 r.1

  map-without_beat :
      (now : ℕ) (cs : List NodeCondition)
      → map without_beat (map (beat now) cs) ≡ map without_beat cs
  map-without_beat now [] = refl
  map-without_beat now (c ∷ cs) = ap (λ t. without_beat c ∷ t) (map-without_beat now cs)

  map-beats :
      (now : ℕ) (cs : List NodeCondition)
      → All (λ c. c.last_heartbeat_time ≡ now) (map (beat now) cs)
  map-beats now [] = tt
  map-beats now (c ∷ cs) = (refl, map-beats now cs)

  Beats-all :
      (now : ℕ) (provider : Node) (o : Outcome)
      → All (λ c. c.last_heartbeat_time ≡ now) provider.status.conditions
      → Beats now provider o
  Beats-all now provider (returned none) h = h
  Beats-all now provider (returned (some e)) h = tt
  Beats-all now provider waits h = tt
  Beats-all now provider panicked h = tt

-- retry.RetryOnConflict runs the function, perhaps several times, and the last run counts.
module _ {W : Type 0} (api : NodeApi W)
    (retries : (f : Attempt W → Attempt W × Option Error) (s : Attempt W)
      → Runs f s (api.retry_on_conflict f s)) where
  after_handler-Served :
      (c : NodeController W) (provider : Node) (r : W × Option Error)
      → Served api c provider (after_handler api provider c r)
  after_handler-Served c provider (w, some e) = refl
  after_handler-Served c provider (w, none) =
      set_server_node-Served api c provider (update_node_status api provider w)
        (update_node_status-Updates api retries provider w)

  handle-Served :
      (handler : Option (W → Error → W × Option Error)) (c : NodeController W) (provider : Node)
      (w : W) (e : Error)
      → Served api c provider (handle api handler provider c w e)
  handle-Served none c provider w e = refl
  handle-Served (some handler) c provider w e = after_handler-Served c provider (handler w e)

  after_update-Served :
      (skip_error_cb : Bool) (c : NodeController W) (provider : Node) (r : W × Result Node)
      → Updates api provider r.1
      → Served api c provider (after_update api skip_error_cb provider c r)
  after_update-Served skip_error_cb c provider (w, ok node) h =
      set_server_node-Served api c provider (w, ok node) h
  after_update-Served skip_error_cb c provider (w, panic) h = h
  after_update-Served skip_error_cb c provider (w, err e) h =
      if-Served api c provider skip_error_cb _ _ refl
        (handle-Served c.node_status_update_error_handler c provider w e)

  after_update-ping :
      (skip_error_cb : Bool) (c : NodeController W) (provider : Node) (r : W × Result Node)
      → (after_update api skip_error_cb provider c r).0.ping ≡ c.ping
  after_update-ping skip_error_cb c provider (w, ok node) = refl
  after_update-ping skip_error_cb c provider (w, panic) = refl
  after_update-ping true c provider (w, err e) = refl
  after_update-ping false c provider (w, err e) = handled c.node_status_update_error_handler
    where
      set-ping :
          (c : NodeController W) (r : W × Result Node) → (set_server_node api c r).0.ping ≡ c.ping
      set-ping c (w, ok node) = refl
      set-ping c (w, err e) = refl
      set-ping c (w, panic) = refl

      answered-ping : (r : W × Option Error) → (after_handler api provider c r).0.ping ≡ c.ping
      answered-ping (w, some e) = refl
      answered-ping (w, none) = set-ping c (update_node_status api provider w)

      handled :
          (h : Option (W → Error → W × Option Error))
          → (handle api h provider c w e).0.ping ≡ c.ping
      handled none = refl
      handled (some h) = answered-ping (h w e)

  update_after_ping-Kept :
      (skip_error_cb : Bool) (provider : Node) (e : Option Error) (c : NodeController W)
      (ended : Option Error)
      → let d = record c { ping = (get_result ended c.ping).1 } in
        Kept api ended c provider (update_after_ping api skip_error_cb provider e d)
  unfolding update_node_status_heartbeat
  update_after_ping-Kept skip_error_cb provider (some e) c ended = record {
    served = refl;
    ping = refl;
    metadata = refl;
    taints = refl;
    conditions = refl;
    rest = refl;
    beats = tt;
  }
  update_after_ping-Kept skip_error_cb provider none c ended =
      let d = record c { ping = (get_result ended c.ping).1 } in
      let beaten = update_node_status_heartbeat (api.now c.world) provider in
      let r = update_node_status api beaten c.world in
      record {
        served =
            after_update-Served skip_error_cb d beaten r
              (update_node_status-Updates api retries beaten c.world);
        ping = after_update-ping skip_error_cb d beaten r;
        metadata = refl;
        taints = refl;
        conditions = map-without_beat api (api.now c.world) provider.status.conditions;
        rest = refl;
        beats =
            Beats-all api (api.now c.world) beaten _
              (map-beats api (api.now c.world) provider.status.conditions);
      }

  after_ping-Kept :
      (skip_error_cb : Bool) (provider : Node) (c : NodeController W) (ended : Option Error)
      (r : GetResult)
      → (((e : Error) × (r ≡ failed e)) ⊎ ((p : PingResult) × (r ≡ result p)))
      → Kept api ended c provider (
          after_ping api skip_error_cb provider r (record c { ping = (get_result ended c.ping).1 }))
  after_ping-Kept skip_error_cb provider c ended r (inl (e, q)) = rw q (record {
    served = refl;
    ping = refl;
    metadata = refl;
    taints = refl;
    conditions = refl;
    rest = refl;
    beats = tt;
  })
  after_ping-Kept skip_error_cb provider c ended r (inr (p, q)) =
      rw q (update_after_ping-Kept skip_error_cb provider p.error c ended)

  answer_of :
      (n : ℕ) (p : PingResult) (npc : NodePingController) (ended : Option Error)
      → IsPinged n (some p) npc
      → ((e : Error) × ((get_result ended npc).0 ≡ failed e))
        ⊎ ((r : PingResult) × ((get_result ended npc).0 ≡ result r))
  unfolding get_result
  answer_of n p npc none h = inr (p, get_result-IsPinged n (some p) npc h)
  answer_of n p npc (some e) h = inl (e, refl)

  -- With a retry that returns what the last of its runs returned, one update of the status, with
  -- a result of a ping at hand: it does not wait and does not panic. Without an error, the
  -- heartbeats of the provider's node have the time of the update, and the server's node is what
  -- the API server answered to a patch for that node; with any error, of the context, the ping,
  -- the API server or the handler, the server's node is the one of before. The provider's
  -- node keeps its metadata, its taints and its status, but for the times of the heartbeats: the
  -- conditions stay, in order, with all their other fields.
  pub update_status-Kept :
      (n : ℕ) (p : PingResult) (ended : Option Error) (skip_error_cb : Bool) (provider : Node)
      (c : NodeController W)
      → IsPinged n (some p) c.ping
      → Kept api ended c provider (update_status api ended skip_error_cb provider c)
  unfolding update_status
  update_status-Kept n p ended skip_error_cb provider c h =
      after_ping-Kept skip_error_cb provider c ended (get_result ended c.ping).0
        (answer_of n p c.ping ended h)
