-- ===== src/Monitor/Ready.antt =====
-- What the channel of a subscription says, in every state that the methods reach.
use native_kubelet.Base.{
  ℕ, ◌+◌, ◌%◌, ◌^◌, ◌<◌, ◌≤◌, ltb, zero, suc, length, get_elem?, set, get_elem?-set_self,
  get_elem?-append_self, get_elem?-append_left, All, All-append, All-map, All-set, All-get_elem?,
  Bool, Bool-cases, true, false, some, List, [], ◌∷◌, ◌++◌, ◌≡◌, refl, sym, ap, ◌∙◌, inl, inr,
  arith,
}
use native_kubelet.Result.{ok, ok-injective}
use native_kubelet.Monitor.{
  make_chan, close, MonitorVariable, Subscription, new_monitor_variable, set_value, renew, is_set,
  subscribe, is_ready, value,
}

get_elem?-set-true :
    (xs : List Bool) (i j : ℕ)
    → get_elem? xs j ≡ some true
    → get_elem? (set xs i true) j ≡ some true
get_elem?-set-true [] i j h = h
get_elem?-set-true (x ∷ xs) zero zero h = refl
get_elem?-set-true (x ∷ xs) zero (suc j) h = h
get_elem?-set-true (x ∷ xs) (suc i) zero h = h
get_elem?-set-true (x ∷ xs) (suc i) (suc j) h = get_elem?-set-true xs i j h

close_open :
    (chans : List Bool) (c : ℕ)
    → get_elem? chans c ≡ some false
    → close chans c ≡ ok (set chans c true)
unfolding close
close_open chans c h = ground (arith, h)

is_set-positive : (n : ℕ) → is_set n ≡ true → 0 < n
unfolding is_set
is_set-positive n e = ground (arith, e)

not_set_zero : (n : ℕ) → n < 2 ^ 63 → is_set n ≡ false → n ≡ 0
unfolding is_set
not_set_zero n l e = ground (arith, l, e)

module _ {V : Type 0} where
  -- The states of one variable and its subscriptions that the methods reach, by any number of
  -- threads, while fewer than 2^63 values are set.
  pub data Reach : MonitorVariable V → List Subscription → Type 0 where
    start : Reach new_monitor_variable []
    assigned :
        {m n : MonitorVariable V} {subs : List Subscription} (v : V)
        → Reach m subs
        → m.current_version + 1 < 2 ^ 63
        → set_value v m ≡ ok n
        → Reach n subs
    subscribed :
        {m : MonitorVariable V} {subs : List Subscription}
        → Reach m subs
        → Reach (subscribe m).1 (subs ++ (subscribe m).0 ∷ [])
    read :
        {m : MonitorVariable V} {subs : List Subscription} (i : ℕ) (sub : Subscription)
        → Reach m subs
        → get_elem? subs i ≡ some sub
        → Reach m (set subs i (value m sub).1)

  -- A subscription that is behind has a closed channel; one that is not has the current channel.
  record IsTracked (m : MonitorVariable V) (sub : Subscription) : Type 0 where
    bounded : sub.last_version_read ≤ m.current_version
    behind :
        sub.last_version_read < m.current_version
        → get_elem? m.chans sub.last_version_read_invalidation_channel ≡ some true
    level :
        sub.last_version_read ≡ m.current_version
        → sub.last_version_read_invalidation_channel ≡ m.version_invalidation_channel

  record IsSound (m : MonitorVariable V) (subs : List Subscription) : Type 0 where
    small : m.current_version < 2 ^ 63
    open_chan : get_elem? m.chans m.version_invalidation_channel ≡ some false
    tracked : All (IsTracked m) subs

  -- What set_value makes of a variable whose current channel is open.
  abbrev assign : V → MonitorVariable V → MonitorVariable V
  assign v m = record {
    current_value = some v;
    current_version = (m.current_version + 1) % (2 ^ 64);
    version_invalidation_channel = length (set m.chans m.version_invalidation_channel true);
    chans = set m.chans m.version_invalidation_channel true ++ false ∷ [];
  }

  set_value_open :
      (v : V) (m : MonitorVariable V)
      → get_elem? m.chans m.version_invalidation_channel ≡ some false
      → set_value v m ≡ ok (assign v m)
  unfolding set_value make_chan
  set_value_open v m h = ap (renew v m) (close_open m.chans m.version_invalidation_channel h)

  assigned-IsTracked :
      (v : V) (m : MonitorVariable V) (sub : Subscription)
      → m.current_version + 1 < 2 ^ 63
      → get_elem? m.chans m.version_invalidation_channel ≡ some false
      → IsTracked m sub
      → IsTracked (assign v m) sub
  assigned-IsTracked v m sub b o h = record {
    bounded = omega (arith, h.bounded);
    behind = λ l.
        get_elem?-append_left (set m.chans m.version_invalidation_channel true) (false ∷ [])
          sub.last_version_read_invalidation_channel
          (elim (Bool-cases (ltb sub.last_version_read m.current_version)) [
            | inl e ↦
                get_elem?-set-true m.chans m.version_invalidation_channel
                  sub.last_version_read_invalidation_channel (h.behind (ground (arith, e)))
            | inr e ↦
                rw (h.level (ground (arith, e, h.bounded)))
                  (get_elem?-set_self m.chans m.version_invalidation_channel true {w = false} o)
          ]);
    level = λ e. absurd (omega (arith, h.bounded));
  }

  assigned-IsSound :
      (v : V) (m : MonitorVariable V) (subs : List Subscription)
      → m.current_version + 1 < 2 ^ 63
      → IsSound m subs
      → IsSound (assign v m) subs
  assigned-IsSound v m subs b h = record {
    small = omega (arith, h.small);
    open_chan = get_elem?-append_self (set m.chans m.version_invalidation_channel true) false;
    tracked = All-map subs (λ sub t. assigned-IsTracked v m sub b h.open_chan t) h.tracked;
  }

  -- The variable with one more channel.
  abbrev with_chan : MonitorVariable V → MonitorVariable V
  with_chan m = record m { chans = m.chans ++ true ∷ [] }

  with_chan-IsTracked :
      (m : MonitorVariable V) (sub : Subscription) → IsTracked m sub → IsTracked (with_chan m) sub
  with_chan-IsTracked m sub h = record {
    bounded = h.bounded;
    behind = λ l.
        get_elem?-append_left m.chans (true ∷ []) sub.last_version_read_invalidation_channel
          (h.behind l);
    level = h.level;
  }

  set_subscribed-IsSound :
      (m : MonitorVariable V) (subs : List Subscription)
      → 0 < m.current_version
      → IsSound m subs
      → IsSound (with_chan m) (
          subs
          ++ record {
            last_version_read = 0;
            last_version_read_invalidation_channel = length m.chans;
          }
            ∷ [])
  set_subscribed-IsSound m subs p h = record {
    small = h.small;
    open_chan =
        get_elem?-append_left m.chans (true ∷ []) m.version_invalidation_channel h.open_chan;
    tracked =
        All-append (IsTracked (with_chan m)) subs _
          (All-map subs (λ sub t. with_chan-IsTracked m sub t) h.tracked)
          (
            record {
              bounded = omega arith;
              behind = λ l. get_elem?-append_self m.chans true;
              level = λ e. absurd (omega arith);
            },
            tt,
          );
  }

  unset_subscribed-IsSound :
      (m : MonitorVariable V) (subs : List Subscription)
      → m.current_version ≡ 0
      → IsSound m subs
      → IsSound m (
          subs
          ++ record {
            last_version_read = 0;
            last_version_read_invalidation_channel = m.version_invalidation_channel;
          }
            ∷ [])
  unset_subscribed-IsSound m subs z h = record {
    small = h.small;
    open_chan = h.open_chan;
    tracked = All-append (IsTracked m) subs _ h.tracked (
      record { bounded = omega arith; behind = λ l. absurd (omega arith); level = λ e. refl },
      tt,
    );
  }

  subscribed-IsSound :
      (m : MonitorVariable V) (subs : List Subscription)
      → IsSound m subs
      → IsSound (subscribe m).1 (subs ++ (subscribe m).0 ∷ [])
  unfolding subscribe
  subscribed-IsSound m subs h = elim (Bool-cases (is_set m.current_version)) [
    | inl e ↦ rw e (set_subscribed-IsSound m subs (is_set-positive m.current_version e) h)
    | inr e ↦ rw e (unset_subscribed-IsSound m subs (not_set_zero m.current_version h.small e) h)
  ]

  read-IsSound :
      (m : MonitorVariable V) (subs : List Subscription) (i : ℕ) (sub : Subscription)
      → IsSound m subs
      → IsSound m (set subs i (value m sub).1)
  unfolding value
  read-IsSound m subs i sub h = record {
    small = h.small;
    open_chan = h.open_chan;
    tracked =
        All-set (IsTracked m) subs i h.tracked
          (record { bounded = omega arith; behind = λ l. absurd (omega arith); level = λ e. refl });
  }

  assigned_is :
      (v : V) {m n : MonitorVariable V} {subs : List Subscription}
      → IsSound m subs
      → set_value v m ≡ ok n
      → assign v m ≡ n
  assigned_is v {m = m} h e = ok-injective (sym (set_value_open v m h.open_chan) ∙ e)

  Reach-IsSound : {m : MonitorVariable V} {subs : List Subscription} → Reach m subs → IsSound m subs
  unfolding new_monitor_variable make_chan
  Reach-IsSound start = record { small = omega arith; open_chan = refl; tracked = tt }
  Reach-IsSound (assigned {m = m} {subs = subs} v r b e) =
      rw (← assigned_is v (Reach-IsSound r) e) (assigned-IsSound v m subs b (Reach-IsSound r))
  Reach-IsSound (subscribed {m = m} {subs = subs} r) = subscribed-IsSound m subs (Reach-IsSound r)
  Reach-IsSound (read {m = m} {subs = subs} i sub r e) = read-IsSound m subs i sub (Reach-IsSound r)

  ready_lem :
      (m : MonitorVariable V) (sub : Subscription)
      → get_elem? m.chans m.version_invalidation_channel ≡ some false
      → IsTracked m sub
      → is_ready m sub ≡ ltb sub.last_version_read m.current_version
  unfolding is_ready
  ready_lem m sub o h = elim (Bool-cases (ltb sub.last_version_read m.current_version)) [
    | inl e ↦ ground (arith, e, h.behind (ground (arith, e)))
    | inr e ↦ ground (arith, e, h.level (ground (arith, e, h.bounded)), o)
  ]

  -- In every state that is reached from a new variable while fewer than 2^63 values are set: the
  -- channel of a subscription is closed exactly when a value has been set since the subscription
  -- last read one.
  pub ready_iff_unread :
      {m : MonitorVariable V} {subs : List Subscription} (i : ℕ) (sub : Subscription)
      → Reach m subs
      → get_elem? subs i ≡ some sub
      → is_ready m sub ≡ ltb sub.last_version_read m.current_version
  ready_iff_unread {m = m} {subs = subs} i sub r e =
      let h = Reach-IsSound r in
      ready_lem m sub h.open_chan (All-get_elem? (IsTracked m) subs i h.tracked e)

  -- In every state that is reached from a new variable while fewer than 2^63 values are set, Set does
  -- not panic: it stores the value, and one more is the version when that is below 2^63.
  pub set_value_total :
      {m : MonitorVariable V} {subs : List Subscription} (v : V)
      → Reach m subs
      → m.current_version + 1 < 2 ^ 63
      → (n : MonitorVariable V) × (set_value v m ≡ ok n)
        × (n.current_value ≡ some v)
        × (n.current_version ≡ m.current_version + 1)
  set_value_total {m = m} v r b =
      (assign v m, set_value_open v m (Reach-IsSound r).open_chan, refl, omega arith)
