-- ===== src/NodeController/Examples.antt =====
-- A server that keeps one node and takes every patch, and the theorems of the modules beside at it.
use native_kubelet.Base.{
  ℕ, pos, zero, suc, Str, codes, lookup, Dict, Bool, Bool-cases, true, false, Option, none, some,
  ◌⊎◌, inl, inr, List, [], ◌∷◌, ◌++◌, ◌≡◌, refl, sym, ap, ◌∙◌, arith,
}
use mathlib.Core.Sum.{inr-injective}
use native_kubelet.Result.{ok}
use native_kubelet.Errdefs.{Error, message}
use native_kubelet.Kube.{ObjectMeta, Node, NodeStatus, NodeCondition}
use native_kubelet.Monitor.{new_monitor_variable, set_value}
use native_kubelet.Monitor.Ready.{start, assigned}
use native_kubelet.NodePatch.{
  Json, empty_meta, empty_node, last_applied_node_status, last_applied_object_meta, new_node,
  old_node, simplest_object_metadata,
}
use native_kubelet.NodePatch.RoundTrip.{old_node-new_node}
use native_kubelet.NodePing.{PingResult, NodePingController, answered}
use native_kubelet.NodePing.Results.{IsPinged}
use native_kubelet.NodeController.{
  NodeApi, NodeController, returned, update_status, LoopEvent, status_updated, timer, pinged,
  stopped, control_loop,
}
use native_kubelet.NodeController.Update.{last}
use native_kubelet.NodeController.Kept.{Kept, update_status-Kept}
use native_kubelet.NodeController.Loop.{IsLive, Stays, control_loop-Stays}

abbrev unsupported : Error
unsupported = message (codes "unsupported") []

-- Metadata that has a name only
abbrev is_plain : Str → Str → Str → Dict Str → Dict Str → ℕ → Option ℕ → Option ℕ → Bool
is_plain [] [] [] [] [] zero none none = true
is_plain _ _ _ _ _ _ _ _ = false

abbrev is_plain_meta : ObjectMeta → Bool
is_plain_meta m =
    is_plain m.namespace m.uid m.resource_version m.labels m.annotations m.creation_timestamp
      m.deletion_timestamp m.deletion_grace_period_seconds

abbrev plain : Str → ObjectMeta
plain name = record empty_meta { name = name }

is_plain-plain :
    (name ns uid rv : Str) (ls ns2 : Dict Str) (ct : ℕ) (dt dg : Option ℕ)
    → is_plain ns uid rv ls ns2 ct dt dg ≡ true
    → let m : ObjectMeta = record {
      namespace = ns;
      name = name;
      uid = uid;
      resource_version = rv;
      labels = ls;
      annotations = ns2;
      creation_timestamp = ct;
      deletion_timestamp = dt;
      deletion_grace_period_seconds = dg;
    } in
      plain name ≡ m
is_plain-plain name [] [] [] [] [] zero none none p = refl
is_plain-plain name (a ∷ s) uid rv ls ns2 ct dt dg p = absurd (ground arith)
is_plain-plain name [] (a ∷ s) rv ls ns2 ct dt dg p = absurd (ground arith)
is_plain-plain name [] [] (a ∷ s) ls ns2 ct dt dg p = absurd (ground arith)
is_plain-plain name [] [] [] (a ∷ s) ns2 ct dt dg p = absurd (ground arith)
is_plain-plain name [] [] [] [] (a ∷ s) ct dt dg p = absurd (ground arith)
is_plain-plain name [] [] [] [] [] (suc n) dt dg p = absurd (ground arith)
is_plain-plain name [] [] [] [] [] zero (some d) dg p = absurd (ground arith)
is_plain-plain name [] [] [] [] [] zero none (some d) p = absurd (ground arith)

abbrev encode_if : Bool → Str → Error ⊎ Str
encode_if true s = inr s
encode_if false s = inl unsupported

abbrev encode_status : NodeStatus → Error ⊎ Str
encode_status t = elim t.conditions [ [] ↦ inr t.rest | c ∷ cs ↦ inl unsupported ]

abbrev json : Json
json = record {
  encode_meta = λ m. encode_if (is_plain_meta m) m.name;
  encode_status = encode_status;
  encode_node = λ n. inr n.metadata.name;
  decode_meta = λ s. inr (plain s);
  decode_status = λ s. inr (record { conditions = []; rest = s });
  schema_error = none;
  create_three_way_merge_patch = λ a b c. inr (a ++ b ++ c);
}

decode-encode_meta :
    (m : ObjectMeta) (s : Str) → json.encode_meta m ≡ inr s → json.decode_meta s ≡ inr m
decode-encode_meta m s p = of_test (Bool-cases (is_plain_meta m)) p
  where
    of_test :
        (is_plain_meta m ≡ true) ⊎ (is_plain_meta m ≡ false)
        → encode_if (is_plain_meta m) m.name ≡ inr s
        → json.decode_meta s ≡ inr m
    of_test (inl e) q =
        ap (λ t. inr (plain t))
          (sym (inr-injective m.name s (ap (λ b. encode_if b m.name) (sym e) ∙ q)))
        ∙ ap inr (
            is_plain-plain m.name m.namespace m.uid m.resource_version m.labels m.annotations
              m.creation_timestamp m.deletion_timestamp m.deletion_grace_period_seconds e)
    of_test (inr e) q = absurd (ground (arith, ap (λ b. encode_if b m.name) (sym e) ∙ q))

decode-encode_conditions :
    (conditions : List NodeCondition) (rest s : Str)
    → encode_status (record { conditions = conditions; rest = rest }) ≡ inr s
    → json.decode_status s ≡ inr (record { conditions = conditions; rest = rest })
decode-encode_conditions [] rest s p =
    ap (λ t. inr (record { conditions = []; rest = t })) (sym (inr-injective rest s p))
decode-encode_conditions (c ∷ cs) rest s p = absurd (ground arith)

-- The provider has kept an annotation of a patch, and the server has taken the patch.
abbrev provider : Node
provider = record empty_node {
  metadata = record empty_meta {
    name = codes "n1";
    annotations = (last_applied_node_status, codes "old") ∷ [];
  };
  status = record { conditions = []; rest = codes "ready" };
}

abbrev patched : Node
patched = record empty_node {
  metadata = record empty_meta {
    name = codes "n1";
    annotations =
        (last_applied_object_meta, codes "n1") ∷ (last_applied_node_status, codes "ready") ∷ [];
  };
  status = record { conditions = []; rest = codes "ready" };
}

old_node-new_node_example :
    let meta = simplest_object_metadata (plain (codes "n1")) (some provider.metadata) in
    (old_node json patched ≡ inr (record empty_node { metadata = meta; status = provider.status }))
    × (lookup last_applied_object_meta meta.annotations ≡ none)
    × (lookup last_applied_node_status meta.annotations ≡ none)
unfolding new_node lookup
old_node-new_node_example =
    old_node-new_node json decode-encode_meta
      (λ t s p. decode-encode_conditions t.conditions t.rest s p) provider
      (record empty_node { metadata = plain (codes "n1") }) patched patched refl refl refl

-- The world is the server's node.
abbrev api : NodeApi Node
api = record {
  get = λ w name. (w, inr w);
  create = λ w node. (node, inr node);
  patch = λ w name bytes.
      let v = record w { metadata = record w.metadata { resource_version = bytes } } in (v, inr v);
  is_not_found = λ e. false;
  now = λ w. 12;
  retry_on_conflict = λ f s. f s;
  json = record json { encode_meta = λ m. inr m.name; encode_status = λ t. inr t.rest };
}

-- A node with a condition, whose heartbeat is to be set
abbrev ready : Node
ready = record provider {
  status = record {
    conditions =
        record {
          condition_type = codes "Ready";
          status = codes "True";
          last_heartbeat_time = 1;
          rest = [];
        }
        ∷ [];
    rest = codes "ready";
  };
}

abbrev clean : PingResult
clean = record { time = some 5; error = none }

abbrev ping : NodePingController
ping = record {
  ping_interval = pos 10000;
  ping_timeout = none;
  cond = record {
    current_value = some clean;
    current_version = 1;
    version_invalidation_channel = 1;
    chans = true ∷ false ∷ [];
  };
}

ping-IsPinged : IsPinged 1 (some clean) ping
unfolding set_value new_monitor_variable
ping-IsPinged = record {
  subs = [];
  reach = assigned clean start (omega arith) refl;
  version = refl;
  current = refl;
  matches = refl;
}

abbrev controller : NodeController Node
controller = record {
  world = record empty_node { metadata = plain (codes "n1") };
  ping = ping;
  server_node = some provider;
  node_status_update_error_handler = none;
}

update_status-Kept_example :
    Kept api none controller ready (update_status api none false ready controller)
update_status-Kept_example =
    update_status-Kept api (λ f s. last s) 1 clean none false ready controller ping-IsPinged

abbrev rounds : List LoopEvent
rounds =
    timer none
    ∷ pinged (answered 9 none)
    ∷ status_updated none (record empty_node { metadata = plain (codes "n2") })
    ∷ stopped
    ∷ []

live : IsLive 1 controller
live = record { checks = 1; last = clean; is_pinged = ping-IsPinged; below = omega arith }

control_loop-Stays_example :
    (s : NodeController Node × Node) × (control_loop api rounds controller ready ≡ ok s)
    × Stays api 0 controller ready s
control_loop-Stays_example = control_loop-Stays api (λ f s. last s) rounds controller ready live

-- The update goes through, with the time of the server's clock in the heartbeat.
updates : (update_status api none false ready controller).1 ≡ returned none
unfolding update_status
updates = refl
