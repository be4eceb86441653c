-- ===== src/Errdefs/Examples.antt =====
-- The theorems of Errdefs/Chain.antt at concrete errors.
use native_kubelet.Base.{codes, [], true, some, ◌≡◌, ◌↔◌}
use native_kubelet.Errdefs.{
  Error, message, invalid_input_error, not_found_error, wrapped, is_not_found, as_err_not_found,
}
use native_kubelet.Errdefs.Chain.{Answers, is_not_found_iff}

abbrev lost_pod : Error
lost_pod =
    wrapped (codes "sync") [] (invalid_input_error (not_found_error (message (codes "no pod") [])))

is_not_found_iff_example :
    (is_not_found (some lost_pod) ≡ true) ↔ Answers as_err_not_found lost_pod true
is_not_found_iff_example = is_not_found_iff lost_pod
