-- ===== src/Tests/Names.antt =====
-- Names made from an email address.
use telekom_k8s_breakglass.Prelude.{false, codes, length, ◌≡◌, ◌≤◌, arith}
use telekom_k8s_breakglass.Names.{has_pair, collapse, to_rfc1123_label}
use telekom_k8s_breakglass.Names.Collapse.{has_pair-collapse}
use telekom_k8s_breakglass.Names.Valid.{IsLabelValue, to_rfc1123_label-IsLabelValue}

to_rfc1123_label-IsLabelValue_example : IsLabelValue (to_rfc1123_label (λ c. c) (codes "ann@x..de"))
to_rfc1123_label-IsLabelValue_example = to_rfc1123_label-IsLabelValue (λ c. c) (codes "ann@x..de")

fuel_enough : length (codes "a---b") ≤ 5
fuel_enough = omega arith

has_pair-collapse_example : has_pair b'-' (collapse 5 b'-' (codes "a---b")) ≡ false
has_pair-collapse_example = has_pair-collapse 5 b'-' (codes "a---b") fuel_enough
