-- ===== src/NodeController/Options.antt =====
-- node/node.go: NewNodeController and its options. The duration of a lease is a number of seconds,
-- any other duration a number of milliseconds.
use native_kubelet.Base.{
  ℕ, ℤ, pos, negsuc, zero, suc, ◌+◌, ◌*◌, ◌/◌, if◌then◌else◌, Option, none, some, List, [], ◌∷◌,
  codes,
}
use native_kubelet.Result.{Result, ok, err, panic, ◌>>=◌}
use native_kubelet.Errdefs.{Error, message, formatted, wrapped}
use native_kubelet.Lease.{new_lease_controller_with_renew_interval, default_lease_duration}
use native_kubelet.NodePing.{NodePingController, new_node_ping_controller, is_zero}

-- What the constructor sets: the lease controller by its duration and interval.
pub record NodeConfig : Type 0 where
  pub ping_interval : ℤ
  pub ping_timeout : Option ℤ
  pub status_interval : ℤ
  pub lease_controller : Option (ℕ × ℤ)

pub data NodeControllerOpt : Type 0 where
  with_node_ping_timeout : ℤ → NodeControllerOpt
  with_node_ping_interval : ℤ → NodeControllerOpt
  with_node_status_update_interval : ℤ → NodeControllerOpt
  -- The two forms of the lease option, after the defaults that they fill in when they are called
  lease_option : ℤ → ℤ → NodeControllerOpt

abbrev pub or_default_lease : ℤ → ℤ
or_default_lease seconds = if is_zero seconds then pos default_lease_duration else seconds

-- int(float64(seconds) * 0.25), which rounds to zero
abbrev pub quarter : ℤ → ℤ
quarter (pos s) = pos (s / 4)
quarter (negsuc s) = negate ((s + 1) / 4)
  where
    negate : ℕ → ℤ
    negate zero = pos 0
    negate (suc n) = negsuc n

abbrev pub milliseconds : ℤ → ℤ
milliseconds (pos s) = pos (s * 1000)
milliseconds (negsuc s) = negsuc (s * 1000 + 999)

unfoldable pub with_node_enable_lease_v1_with_renew_interval : ℤ → ℤ → NodeControllerOpt
with_node_enable_lease_v1_with_renew_interval seconds interval =
    lease_option (or_default_lease seconds) interval

unfoldable pub with_node_enable_lease_v1 : ℤ → NodeControllerOpt
unfolding with_node_enable_lease_v1_with_renew_interval
with_node_enable_lease_v1 seconds =
    let s = or_default_lease seconds in
    with_node_enable_lease_v1_with_renew_interval s (milliseconds (quarter s))

-- ErrConflictingLeaseControllerConfiguration
abbrev pub conflicting_lease : Error
conflicting_lease =
    message (codes "Multiple, conflicting lease configurations have been put into place") []

abbrev pub with_lease : NodeConfig → Result (ℕ × ℤ) → Result NodeConfig
with_lease n (ok l) = ok (record n { lease_controller = some l })
with_lease n (err e) = err (formatted (codes "Unable to configure lease controller: %w") [] e)
with_lease n panic = panic

abbrev pub enable_lease : NodeConfig → Option (ℕ × ℤ) → ℤ → ℤ → Result NodeConfig
enable_lease n (some l) seconds interval = err conflicting_lease
enable_lease n none seconds interval =
    with_lease n (new_lease_controller_with_renew_interval seconds interval)

unfoldable pub apply_option : NodeControllerOpt → NodeConfig → Result NodeConfig
unfolding new_lease_controller_with_renew_interval
apply_option (with_node_ping_timeout d) n = ok (record n { ping_timeout = some d })
apply_option (with_node_ping_interval d) n = ok (record n { ping_interval = d })
apply_option (with_node_status_update_interval d) n = ok (record n { status_interval = d })
apply_option (lease_option seconds interval) n = enable_lease n n.lease_controller seconds interval

abbrev pub wrapped_option : Result NodeConfig → Result NodeConfig
wrapped_option (ok n) = ok n
wrapped_option (err e) = err (wrapped (codes "error applying node option") [] e)
wrapped_option panic = panic

unfoldable pub apply_options : List NodeControllerOpt → NodeConfig → Result NodeConfig
unfolding apply_option
apply_options [] n = ok n
apply_options (o ∷ os) n = wrapped_option (apply_option o n) >>= apply_options os

abbrev pub or_default : ℕ → ℤ → ℤ
or_default default d = if is_zero d then pos default else d

abbrev pub with_defaults : NodeConfig → NodeConfig
with_defaults n = record n {
  ping_interval = or_default 10000 n.ping_interval;
  status_interval = or_default 60000 n.status_interval;
}

-- The configuration of the node controller, and its ping controller.
unfoldable pub new_node_controller :
    List NodeControllerOpt → Result (NodeConfig × NodePingController)
unfolding apply_options new_node_ping_controller
new_node_controller opts =
    apply_options opts (record {
      ping_interval = pos 0;
      ping_timeout = none;
      status_interval = pos 0;
      lease_controller = none;
    })
    >>= (λ n.
        let d = with_defaults n in
        new_node_ping_controller d.ping_interval d.ping_timeout >>= (λ ping. ok (d, ping)))
