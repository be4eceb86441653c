-- ===== src/NodeController/Loop.antt =====
-- The control loop: what stays over any sequence of rounds.
use native_kubelet.Base.{
  ℕ, suc, ◌+◌, ◌^◌, ◌<◌, Str, ◌≡◌, refl, sym, ap, ◌∙◌, arith, false, Option, none, some, ◌⊎◌, inl,
  inr, List, [], ◌∷◌,
}
use mathlib.Core.Path.{subst}
use native_kubelet.Result.{Result, ok, ◌>>=◌}
use native_kubelet.Errdefs.{Error}
use native_kubelet.Kube.{Node}
use native_kubelet.NodePing.{PingResult, Taken, result_of, check_func}
use native_kubelet.NodePing.Results.{IsPinged, asked-IsPinged, checked-IsPinged}
use native_kubelet.NodeController.{
  NodeApi, Attempt, NodeController, Outcome, returned, waits, panicked, update_status, LoopEvent,
  stopped, status_updated, timer, pinged, with_update, logged, after_check, loop, control_loop,
}
use native_kubelet.NodeController.Update.{Runs}
use native_kubelet.NodeController.Kept.{Served, Kept, update_status-Kept}

-- The checks of the ping controller among the rounds.
abbrev pub count_pings : List LoopEvent → ℕ
count_pings [] = 0
count_pings (pinged taken ∷ es) = suc (count_pings es)
count_pings (_ ∷ es) = count_pings es

-- A result of a ping is at hand, and `b` more checks keep below the bound of the version.
pub record IsLive {W : Type 0} (b : ℕ) (c : NodeController W) : Type 0 where
  pub checks : ℕ
  pub last : PingResult
  pub is_pinged : IsPinged checks (some last) c.ping
  pub below : checks + b < 2 ^ 63

abbrev pub SameIdentity : Node → Node → Type 0
SameIdentity a b =
    (b.metadata.name ≡ a.metadata.name)
    × (b.metadata.namespace ≡ a.metadata.namespace)
    × (b.metadata.uid ≡ a.metadata.uid)
    × (b.taints ≡ a.taints)

-- The server's node is the one of before, or what the API server answered to a patch of this name.
abbrev pub FromServer :
    {W : Type 0} → NodeApi W → Str → NodeController W → NodeController W → Type 0
FromServer {W = W} api name c d =
    (d.server_node ≡ c.server_node)
    ⊎ ((node : Node) × (w : W) × (bytes : Str) × (d.server_node ≡ some node)
        × ((api.patch w name bytes).1 ≡ inr node))

module _ {W : Type 0} (api : NodeApi W) where
  pub record Stays (b : ℕ) (c : NodeController W) (provider : Node) (s : NodeController W × Node)
      : Type 0 where
    pub live : IsLive b s.0
    pub server : FromServer api provider.metadata.name c s.0
    pub identity : SameIdentity provider s.1

  FromServer-trans :
      (name : Str) (c d e : NodeController W)
      → FromServer api name c d
      → FromServer api name d e
      → FromServer api name c e
  FromServer-trans name c d e h (inr k) = inr k
  FromServer-trans name c d e (inl p) (inl q) = inl (q ∙ p)
  FromServer-trans name c d e (inr (node, w, bytes, p, r)) (inl q) = inr (node, w, bytes, q ∙ p, r)

  Stays-trans :
      (a b : ℕ) (c : NodeController W) (provider : Node) (s t : NodeController W × Node)
      → Stays a c provider s
      → Stays b s.0 s.1 t
      → Stays b c provider t
  Stays-trans a b c provider s t h k = record {
    live = k.live;
    server =
        FromServer-trans provider.metadata.name c s.0 t.0 h.server
          (subst (λ n. FromServer api n s.0 t.0) h.identity.0 k.server);
    identity = (
      k.identity.0 ∙ h.identity.0,
      k.identity.1 ∙ h.identity.1,
      k.identity.2 ∙ h.identity.2,
      k.identity.3 ∙ h.identity.3,
    );
  }

  weaker : (b : ℕ) (c : NodeController W) → IsLive b c → IsLive 0 c
  weaker b c live = record {
    checks = live.checks;
    last = live.last;
    is_pinged = live.is_pinged;
    below = omega (arith, live.below);
  }

  here-Stays :
      (c : NodeController W) (provider : Node) → IsLive 0 c → Stays 0 c provider (c, provider)
  here-Stays c provider live = record {
    live = live;
    server = inl refl;
    identity = (refl, refl, refl, refl);
  }

  Served-FromServer :
      (c : NodeController W) (provider : Node) (name : Str) (r : NodeController W × Outcome)
      → provider.metadata.name ≡ name
      → Served api c provider r
      → FromServer api name c r.0
  Served-FromServer c provider name (d, returned none) p (node, e, (v, w, server, bytes, g, h, k)) =
      inr (node, w, bytes, e, ap (λ n. (api.patch w n bytes).1) (sym p) ∙ k)
  Served-FromServer c provider name (d, returned (some x)) p h = inl h
  Served-FromServer c provider name (d, waits) p h = absurd h
  Served-FromServer c provider name (d, panicked) p h = absurd h

module _ {W : Type 0} (api : NodeApi W)
    (retries : (f : Attempt W → Attempt W × Option Error) (s : Attempt W)
      → Runs f s (api.retry_on_conflict f s)) where
  -- Where an update is only logged, and the provider's node of before is `old`.
  logged-Stays :
      (b : ℕ) (ended : Option Error) (c : NodeController W) (old provider : Node)
      (r : (NodeController W × Node) × Outcome)
      → IsLive b c
      → SameIdentity old provider
      → Kept api ended c provider r
      → (s : NodeController W × Node) × (logged api r ≡ ok s) × Stays api b c old s
  logged-Stays b ended c old provider (s, panicked) live same k = absurd k.served
  logged-Stays b ended c old provider (s, waits) live same k = absurd k.served
  logged-Stays b ended c old provider (s, returned e) live same k = (
    s,
    refl,
    record {
      live = record {
        checks = live.checks;
        last = live.last;
        is_pinged =
            subst (λ npc. IsPinged live.checks (some live.last) npc) (sym k.ping)
              (asked-IsPinged live.checks (some live.last) c.ping ended live.is_pinged);
        below = live.below;
      };
      server =
          Served-FromServer api c s.1 old.metadata.name (s.0, returned e)
            (ap (λ m. m.name) k.metadata ∙ same.0) k.served;
      identity = (
        ap (λ m. m.name) k.metadata ∙ same.0,
        ap (λ m. m.namespace) k.metadata ∙ same.1,
        ap (λ m. m.uid) k.metadata ∙ same.2,
        k.taints ∙ same.3,
      );
    },
  )

  updated-Stays :
      (b : ℕ) (ended : Option Error) (c : NodeController W) (old provider : Node)
      → IsLive b c
      → SameIdentity old provider
      → (s : NodeController W × Node) × (logged api (update_status api ended false provider c)
          ≡ ok s)
        × Stays api b c old s
  updated-Stays b ended c old provider live same =
      logged-Stays b ended c old provider _ live same
        (update_status-Kept api retries live.checks live.last ended false provider c live.is_pinged)

  pinged-Stays :
      (b : ℕ) (taken : Taken) (c : NodeController W) (provider : Node)
      → IsLive (suc b) c
      → (s : NodeController W × Node) × (after_check api c provider (check_func taken c.ping)
          ≡ ok s)
        × Stays api b c provider s
  pinged-Stays b taken c provider live =
      let (npc, e, h) =
        checked-IsPinged live.checks (some live.last) c.ping taken (omega (arith, live.below))
          live.is_pinged in
      (
        (record c { ping = npc }, provider),
        ap (after_check api c provider) e,
        record {
          live = record {
            checks = suc live.checks;
            last = result_of taken;
            is_pinged = h;
            below = omega (arith, live.below);
          };
          server = inl refl;
          identity = (refl, refl, refl, refl);
        },
      )

  then-Stays :
      (a b : ℕ) (c : NodeController W) (provider : Node) (es : List LoopEvent)
      (r : Result (NodeController W × Node))
      → (s : NodeController W × Node) × (r ≡ ok s) × Stays api a c provider s
      → ((d : NodeController W) (p : Node)
          → IsLive a d
          → (t : NodeController W × Node) × (control_loop api es d p ≡ ok t) × Stays api b d p t)
      → (t : NodeController W × Node) × ((r >>= (λ s. control_loop api es s.0 s.1)) ≡ ok t)
        × Stays api b c provider t
  then-Stays a b c provider es r (s, e, h) f =
      let (t, q, k) = f s.0 s.1 h.live in
      (
        t,
        ap (λ x. x >>= (λ s. control_loop api es s.0 s.1)) e ∙ q,
        Stays-trans api a b c provider s t h k,
      )

  -- With a retry that returns what the last of its runs returned: any sequence of rounds of the
  -- control loop, status updates of the provider, timers and checks of the ping, from a state
  -- with a result of a ping, as long as there are fewer than 2^63 checks in all. The loop never
  -- panics; the server's node is the one of before or what the API server answered to a patch of
  -- this node; and the name, the namespace, the uid and the taints of the provider's node stay,
  -- whatever the provider's updates say.
  pub control_loop-Stays :
      (es : List LoopEvent) (c : NodeController W) (provider : Node)
      → IsLive (count_pings es) c
      → (s : NodeController W × Node) × (control_loop api es c provider ≡ ok s)
        × Stays api 0 c provider s
  unfolding control_loop loop
  control_loop-Stays [] c provider live = ((c, provider), refl, here-Stays api c provider live)
  control_loop-Stays (stopped ∷ es) c provider live =
      ((c, provider), refl, here-Stays api c provider (weaker api (count_pings es) c live))
  control_loop-Stays (timer ended ∷ es) c provider live =
      then-Stays (count_pings es) 0 c provider es _
        (updated-Stays (count_pings es) ended c provider provider live (refl, refl, refl, refl))
        (control_loop-Stays es)
  control_loop-Stays (status_updated ended updated ∷ es) c provider live =
      then-Stays (count_pings es) 0 c provider es _
        (updated-Stays (count_pings es) ended c provider (with_update updated provider) live
          (refl, refl, refl, refl))
        (control_loop-Stays es)
  control_loop-Stays (pinged taken ∷ es) c provider live =
      then-Stays (count_pings es) 0 c provider es _
        (pinged-Stays (count_pings es) taken c provider live) (control_loop-Stays es)
