-- ===== src/NodeController.antt =====
-- node/node.go: the controller that registers the node and updates its status. The API server, the
-- clock, and client-go's retry are parameters. The state has the node controller, with the ping
-- controller in it; the provider's node, which Run copies and the control loop changes, is passed
-- along. A failed update is only logged by the control loop.
use native_kubelet.Base.{
  ℕ, ℤ, pos, negsuc, ◌+◌, ◌/◌, suc, zero, Str, codes, Bool, true, false, if◌then◌else◌, Option,
  none, some, ◌⊎◌, inl, inr, List, [], ◌∷◌, map,
}
use native_kubelet.Result.{Result, ok, err, panic, ◌>>=◌}
use native_kubelet.Errdefs.{Error, message, formatted, wrapped}
use native_kubelet.Kube.{ObjectMeta, Node, NodeStatus, NodeCondition}
use native_kubelet.Lease.{new_lease_controller_with_renew_interval, default_lease_duration}
use native_kubelet.NodePatch.{Json, wrap, prepare_threeway_patch_bytes_for_node_status}
use native_kubelet.NodePing.{
  PingResult, NodePingController, new_node_ping_controller, is_zero, Taken, check_func, GetResult,
  blocks, failed, result, panics, get_result,
}
pub mod Update
pub mod Kept
pub mod Loop
pub mod Options
pub mod Configured
mod Examples

-- The captured variable of the retried function, with the world.
abbrev pub Attempt : Type 0 → Type 0
Attempt W = W × Option Node

pub record NodeApi (W : Type 0) : Type 0 where
  pub get : W → Str → W × (Error ⊎ Node)
  pub create : W → Node → W × (Error ⊎ Node)
  -- Patch of the status, with the bytes of the patch
  pub patch : W → Str → Str → W × (Error ⊎ Node)
  pub is_not_found : Error → Bool
  pub now : W → ℕ
  -- retry.RetryOnConflict with retry.DefaultRetry
  pub retry_on_conflict :
      (Attempt W → Attempt W × Option Error) → Attempt W → Attempt W × Option Error
  pub json : Json

pub record NodeController (W : Type 0) : Type 0 where
  pub world : W
  pub ping : NodePingController
  pub server_node : Option Node
  pub node_status_update_error_handler : Option (W → Error → W × Option Error)

-- What a call came to: it returned an error or none, it waits for the first ping, or it panicked.
pub data Outcome : Type 0 where
  returned : Option Error → Outcome
  waits : Outcome
  panicked : Outcome

abbrev pub beat : ℕ → NodeCondition → NodeCondition
beat now c = record c { last_heartbeat_time = now }

-- getServerNode, given serverNode
unfoldable pub get_server_node : Option Node → Error ⊎ Node
get_server_node none = inl (message (codes "Server node does not yet exist") [])
get_server_node (some node) = inr node

unfoldable pub update_node_status_heartbeat : ℕ → Node → Node
update_node_status_heartbeat now n = record n {
  status = record n.status { conditions = map (beat now) n.status.conditions };
}

-- What the loop's select takes, or a check of the ping controller's goroutine between two rounds.
-- Each update comes with the error that its wait for the ping may take.
pub data LoopEvent : Type 0 where
  stopped : LoopEvent
  status_updated : Option Error → Node → LoopEvent
  timer : Option Error → LoopEvent
  pinged : Taken → LoopEvent

abbrev pub with_update : Node → Node → Node
with_update updated provider = record provider {
  metadata = record provider.metadata {
    annotations = updated.metadata.annotations;
    labels = updated.metadata.labels;
  };
  status = updated.status;
}

module _ {W : Type 0} (api : NodeApi W) where
  abbrev pub after_patch : W × (Error ⊎ Node) → Attempt W × Option Error
  after_patch (w, inl e) = ((w, none), some e)
  after_patch (w, inr node) = ((w, some node), none)

  abbrev pub after_prepare : Str → W → Option Node → Error ⊎ Str → Attempt W × Option Error
  after_prepare name w updated (inl e) = ((w, updated), some e)
  after_prepare name w updated (inr bytes) = after_patch (api.patch w name bytes)

  abbrev pub after_get : Node → Option Node → W × (Error ⊎ Node) → Attempt W × Option Error
  after_get provider updated (w, inl e) = ((w, updated), some e)
  after_get provider updated (w, inr server) = after_prepare provider.metadata.name w updated (
      wrap (codes "Cannot generate patch") []
        (prepare_threeway_patch_bytes_for_node_status api.json provider server))

  -- The function that is retried.
  unfoldable pub attempt : Node → Attempt W → Attempt W × Option Error
  unfolding prepare_threeway_patch_bytes_for_node_status
  attempt provider (w, updated) = after_get provider updated (api.get w provider.metadata.name)

  -- Without an error the updated node is read.
  abbrev pub after_retry : Attempt W × Option Error → W × Result Node
  after_retry ((w, updated), some e) = (w, err e)
  after_retry ((w, some node), none) = (w, ok node)
  after_retry ((w, none), none) = (w, panic)

  unfoldable pub update_node_status : Node → W → W × Result Node
  unfolding attempt
  update_node_status provider w = after_retry (api.retry_on_conflict (attempt provider) (w, none))

  abbrev pub set_server_node : NodeController W → W × Result Node → NodeController W × Outcome
  set_server_node c (w, ok node) = (record c { world = w; server_node = some node }, returned none)
  set_server_node c (w, err e) = (record c { world = w }, returned (some e))
  set_server_node c (w, panic) = (record c { world = w }, panicked)

  abbrev pub after_handler : Node → NodeController W → W × Option Error → NodeController W × Outcome
  after_handler provider c (w, some e) = (record c { world = w }, returned (some e))
  after_handler provider c (w, none) = set_server_node c (update_node_status provider w)

  abbrev pub handle :
      Option (W → Error → W × Option Error)
      → Node
      → NodeController W
      → W
      → Error
      → NodeController W × Outcome
  handle none provider c w e = (record c { world = w }, returned (some e))
  handle (some handler) provider c w e = after_handler provider c (handler w e)

  abbrev pub after_update :
      Bool → Node → NodeController W → W × Result Node → NodeController W × Outcome
  after_update skip_error_cb provider c (w, ok node) = set_server_node c (w, ok node)
  after_update skip_error_cb provider c (w, panic) = set_server_node c (w, panic)
  after_update skip_error_cb provider c (w, err e) =
      if skip_error_cb
      then (record c { world = w }, returned (some e))
      else handle c.node_status_update_error_handler provider c w e

  abbrev pub update_after_ping :
      Bool → Node → Option Error → NodeController W → (NodeController W × Node) × Outcome
  update_after_ping skip_error_cb provider (some e) c = (
    (c, provider),
    returned
        (some (formatted (codes "Not updating node status because node ping failed: %w") [] e)),
  )
  update_after_ping skip_error_cb provider none c =
      let beaten = update_node_status_heartbeat (api.now c.world) provider in
      let (d, outcome) = after_update skip_error_cb beaten c (update_node_status beaten c.world) in
      ((d, beaten), outcome)

  abbrev pub after_ping :
      Bool → Node → GetResult → NodeController W → (NodeController W × Node) × Outcome
  after_ping skip_error_cb provider blocks c = ((c, provider), waits)
  after_ping skip_error_cb provider (failed e) c = ((c, provider), returned (some e))
  after_ping skip_error_cb provider panics c = ((c, provider), panicked)
  after_ping skip_error_cb provider (result r) c =
      update_after_ping skip_error_cb provider r.error c

  -- `ended` is the error of the context when the wait for the ping takes its end.
  unfoldable pub update_status :
      Option Error → Bool → Node → NodeController W → (NodeController W × Node) × Outcome
  unfolding get_result update_node_status update_node_status_heartbeat
  update_status ended skip_error_cb provider c =
      let (r, ping) = get_result ended c.ping in
      after_ping skip_error_cb provider r (record c { ping = ping })

  -- The name, the namespace and the uid that the API server gave.
  abbrev pub adopt : Node → Node → Node
  adopt node provider = record provider {
    metadata = record provider.metadata {
      name = node.metadata.name;
      namespace = node.metadata.namespace;
      uid = node.metadata.uid;
    };
  }

  abbrev pub after_create :
      Node → NodeController W → W × (Error ⊎ Node) → (NodeController W × Node) × Outcome
  after_create provider c (w, inl e) = (
    (record c { world = w }, provider),
    returned (some (wrapped (codes "error registering node with kubernetes") [] e)),
  )
  after_create provider c (w, inr node) =
      ((record c { world = w; server_node = some node }, adopt node provider), returned none)

  -- NewNodeController is given a node, so that there is one to create.
  abbrev pub register : Option Node → Node → NodeController W → (NodeController W × Node) × Outcome
  register none provider c = ((c, provider), panicked)
  register (some node) provider c = after_create provider c (api.create c.world node)

  abbrev pub after_first : (NodeController W × Node) × Outcome → (NodeController W × Node) × Outcome
  after_first ((c, provider), returned (some e)) =
      if api.is_not_found e
      then register c.server_node provider c
      else ((c, provider), returned (some e))
  after_first ((c, provider), returned none) = ((c, provider), returned none)
  after_first ((c, provider), waits) = ((c, provider), waits)
  after_first ((c, provider), panicked) = ((c, provider), panicked)

  unfoldable pub ensure_node :
      Option Error → Node → NodeController W → (NodeController W × Node) × Outcome
  unfolding update_status
  ensure_node ended provider c = after_first (update_status ended true provider c)

  abbrev pub after_check :
      NodeController W → Node → Result NodePingController → Result (NodeController W × Node)
  after_check c provider (ok ping) = ok (record c { ping = ping }, provider)
  after_check c provider (err e) = err e
  after_check c provider panic = panic

  -- The error of an update is only logged.
  abbrev pub logged : (NodeController W × Node) × Outcome → Result (NodeController W × Node)
  logged (s, panicked) = panic
  logged (s, waits) = ok s
  logged (s, returned e) = ok s

  unfoldable pub loop : LoopEvent → NodeController W → Node → Result (NodeController W × Node)
  unfolding update_status check_func
  loop stopped c provider = ok (c, provider)
  loop (status_updated ended updated) c provider =
      logged (update_status ended false (with_update updated provider) c)
  loop (timer ended) c provider = logged (update_status ended false provider c)
  loop (pinged taken) c provider = after_check c provider (check_func taken c.ping)

  -- The rounds, up to the end of the context.
  unfoldable pub control_loop :
      List LoopEvent → NodeController W → Node → Result (NodeController W × Node)
  unfolding loop
  control_loop [] c provider = ok (c, provider)
  control_loop (stopped ∷ es) c provider = ok (c, provider)
  control_loop (e ∷ es) c provider = loop e c provider >>= (λ s. control_loop es s.0 s.1)

  -- Run, once the ping controller has its first result or the context ends: an error of ensureNode
  -- ends it.
  abbrev pub after_ensure :
      List LoopEvent → (NodeController W × Node) × Outcome → Result (NodeController W × Node)
  after_ensure es ((c, provider), returned none) = control_loop es c provider
  after_ensure es ((c, provider), returned (some e)) = err e
  after_ensure es ((c, provider), waits) = ok (c, provider)
  after_ensure es ((c, provider), panicked) = panic

  -- The provider's node is the copy of the node that NewNodeController was given.
  unfoldable pub run :
      Option Error → List LoopEvent → Node → NodeController W → Result (NodeController W × Node)
  unfolding ensure_node control_loop
  run ended es provider c = after_ensure es (ensure_node ended provider c)
