-- ===== src/NodeController/Configured.antt =====
-- What the options of NewNodeController make.
use native_kubelet.Base.{
  ℕ, ℤ, codes, ◌≤◌, pos, negsuc, zero, suc, ◌*◌, ◌/◌, ◌<◌, Bool, true, false, leb, if◌then◌else◌,
  Bool-cases, Option, none, some, inl, inr, ◌⊎◌, List, [], ◌∷◌, ◌≡◌, refl, arith,
}
use native_kubelet.Result.{Result, ok, err, panic, Holds, bind-Holds}
use native_kubelet.Errdefs.{Error, message, formatted, wrapped}
use native_kubelet.Lease.{new_lease_controller_with_renew_interval, check_interval}
use native_kubelet.NodePing.{NodePingController, new_node_ping_controller, is_zero, is_zero_timeout}
use native_kubelet.NodeController.Options.{
  NodeConfig, NodeControllerOpt, with_node_ping_timeout, with_node_ping_interval,
  with_node_status_update_interval, lease_option, with_lease, enable_lease, apply_option,
  wrapped_option, apply_options, or_default, with_defaults, new_node_controller,
}

-- An interval that is positive is shorter than the lease; a negative one passes.
abbrev pub FitsIn : ℕ → ℤ → Type 0
FitsIn seconds (pos i) = (0 < i) × (i < seconds * 1000)
FitsIn seconds (negsuc i) = Unit

abbrev pub LeaseFits : Option (ℕ × ℤ) → Type 0
LeaseFits none = Unit
LeaseFits (some (seconds, interval)) = (0 < seconds) × FitsIn seconds interval

abbrev LeaseOf : NodeConfig → Type 0
LeaseOf n = LeaseFits n.lease_controller

check_interval-FitsIn : (s : ℕ) (i : ℤ) → Holds (λ l. LeaseFits (some l)) (check_interval (suc s) i)
check_interval-FitsIn s (pos zero) = tt
check_interval-FitsIn s (pos (suc i)) = of_test (Bool-cases (leb (suc s * 1000) (suc i)))
  where
    of_test :
        (leb (suc s * 1000) (suc i) ≡ true) ⊎ (leb (suc s * 1000) (suc i) ≡ false)
        → Holds (λ l. LeaseFits (some l)) (check_interval (suc s) (pos (suc i)))
    of_test (inl e) = rw e tt
    of_test (inr e) = rw e (omega arith, (omega arith, ground (arith, e)))
check_interval-FitsIn s (negsuc i) = (omega arith, tt)

new_lease_controller-FitsIn :
    (s i : ℤ) → Holds (λ l. LeaseFits (some l)) (new_lease_controller_with_renew_interval s i)
unfolding new_lease_controller_with_renew_interval
new_lease_controller-FitsIn (pos zero) i = tt
new_lease_controller-FitsIn (pos (suc s)) i = check_interval-FitsIn s i
new_lease_controller-FitsIn (negsuc s) i = tt

with_lease-LeaseOf :
    (n : NodeConfig) (r : Result (ℕ × ℤ))
    → Holds (λ l. LeaseFits (some l)) r
    → Holds LeaseOf (with_lease n r)
with_lease-LeaseOf n (ok l) h = h
with_lease-LeaseOf n (err e) h = tt
with_lease-LeaseOf n panic h = tt

enable_lease-LeaseOf :
    (n : NodeConfig) (l : Option (ℕ × ℤ)) (s i : ℤ) → Holds LeaseOf (enable_lease n l s i)
enable_lease-LeaseOf n none s i = with_lease-LeaseOf n _ (new_lease_controller-FitsIn s i)
enable_lease-LeaseOf n (some l) s i = tt

apply_option-LeaseOf :
    (o : NodeControllerOpt) (n : NodeConfig)
    → LeaseOf n
    → Holds LeaseOf (wrapped_option (apply_option o n))
unfolding apply_option
apply_option-LeaseOf (with_node_ping_timeout d) n h = h
apply_option-LeaseOf (with_node_ping_interval d) n h = h
apply_option-LeaseOf (with_node_status_update_interval d) n h = h
apply_option-LeaseOf (lease_option s i) n h =
    still _ (enable_lease-LeaseOf n n.lease_controller s i)
  where
    still : (r : Result NodeConfig) → Holds LeaseOf r → Holds LeaseOf (wrapped_option r)
    still (ok d) h = h
    still (err e) h = tt
    still panic h = tt

apply_options-LeaseOf :
    (os : List NodeControllerOpt) (n : NodeConfig) → LeaseOf n → Holds LeaseOf (apply_options os n)
unfolding apply_options
apply_options-LeaseOf [] n h = h
apply_options-LeaseOf (o ∷ os) n h =
    bind-Holds LeaseOf LeaseOf _ (apply_options os) (apply_option-LeaseOf o n h)
      (λ d k. apply_options-LeaseOf os d k)

or_default-nonzero : (k : ℕ) (d : ℤ) → is_zero (or_default (suc k) d) ≡ false
or_default-nonzero k (pos zero) = refl
or_default-nonzero k (pos (suc n)) = refl
or_default-nonzero k (negsuc n) = refl

-- What every node controller that is made has: the intervals are not zero, and the ping controller
-- is given its one.
abbrev pub IsConfigured : NodeConfig × NodePingController → Type 0
IsConfigured (n, ping) =
    (is_zero n.ping_interval ≡ false)
    × (is_zero n.status_interval ≡ false)
    × LeaseFits n.lease_controller
    × (ping.ping_interval ≡ n.ping_interval)

made_ping :
    (i : ℤ) (t : Option ℤ) → Holds (λ ping. ping.ping_interval ≡ i) (new_node_ping_controller i t)
unfolding new_node_ping_controller
made_ping i t = of_tests (is_zero i) (is_zero_timeout t) _ refl
  where
    of_tests :
        (b c : Bool) (npc : NodePingController)
        → npc.ping_interval ≡ i
        → Holds (λ ping. ping.ping_interval ≡ i) (if b then panic else if c then panic else ok npc)
    of_tests true c npc p = tt
    of_tests false true npc p = tt
    of_tests false false npc p = p

-- Whatever the options, in whatever order and number: a node controller that is made has intervals
-- that are not zero, and when it has a lease controller, the duration of the lease is positive and
-- the renew interval, unless it is negative, is positive and shorter than the lease.
pub new_node_controller-IsConfigured :
    (opts : List NodeControllerOpt) → Holds IsConfigured (new_node_controller opts)
unfolding new_node_controller
new_node_controller-IsConfigured opts =
    bind-Holds LeaseOf IsConfigured (apply_options opts _) _ (apply_options-LeaseOf opts _ tt)
      (λ n h.
        bind-Holds (λ ping. ping.ping_interval ≡ (with_defaults n).ping_interval) IsConfigured _ _
          (made_ping (with_defaults n).ping_interval n.ping_timeout)
          (λ ping p. (
            or_default-nonzero 9999 n.ping_interval,
            or_default-nonzero 59999 n.status_interval,
            h,
            p,
          )))

-- The error of a refused lease, as NewNodeController returns it
abbrev pub refused : Error → Error
refused e =
    wrapped (codes "error applying node option") []
      (formatted (codes "Unable to configure lease controller: %w") [] e)

-- What NewNodeController returns for the lease option without an interval, alone: the duration and
-- the interval in milliseconds of its lease controller, or its error.
abbrev pub LeaseMade : ℤ → Result (NodeConfig × NodePingController) → Type 0
LeaseMade seconds (ok (n, ping)) =
    ((seconds ≡ pos 0) × (n.lease_controller ≡ some (40, pos 10000)))
    ⊎ ((s : ℕ) × (seconds ≡ pos s) × (4 ≤ s) × (n.lease_controller ≡ some (s, pos (s / 4 * 1000))))
LeaseMade seconds (err e) =
    ((s : ℕ) × (seconds ≡ pos s)
      × (0 < s)
      × (s < 4)
      × (e ≡ refused (message (codes "Lease renew interval %s is invalid, it must be > 0") [])))
    ⊎ ((s : ℕ) × (seconds ≡ negsuc s)
        × (e ≡ refused (message (codes "Lease duration seconds %d is invalid, it must be > 0") [])))
LeaseMade seconds panic = ⊥
