-- ===== src/Indices.antt =====
-- cmd/main.go: the values that the field indices give to an object, and the interval of the ClusterConfig
-- checker.
pub mod Exact
use telekom_k8s_breakglass.Prelude.{
  ℕ, ℤ, zero, suc, ◌*◌, Bool, true, false, List, [], ◌∷◌, ◌++◌, Str, codes, is_empty, str_eq,
  if◌then◌else◌, Option, none, some,
}
use telekom_k8s_breakglass.Api.Session.{Time, Session}
use telekom_k8s_breakglass.Api.Escalation.{Escalation}
use telekom_k8s_breakglass.Api.Cluster.{ClusterConfig}

-- The values of an object under an index; a field without an index has none.
unfoldable pub session_index : Str → Session → List Str
session_index field bs =
    if str_eq field (codes "spec.cluster")
    then bs.spec.cluster ∷ []
    else if str_eq field (codes "spec.user")
    then bs.spec.user ∷ []
    else if str_eq field (codes "spec.grantedGroup")
    then bs.spec.granted_group ∷ []
    else []

unfoldable pub escalation_index : Str → Escalation → List Str
escalation_index field be =
    if str_eq field (codes "spec.allowed.cluster")
    then be.spec.allowed.clusters ++ be.spec.cluster_config_refs
    else if str_eq field (codes "spec.allowed.group")
    then be.spec.allowed.groups
    else if str_eq field (codes "spec.escalatedGroup")
    then (if is_empty be.spec.escalated_group then [] else be.spec.escalated_group ∷ [])
    else []

unfoldable pub cluster_index : Str → ClusterConfig → List Str
cluster_index field cfg =
    if str_eq field (codes "metadata.name")
    then cfg.name ∷ []
    else if str_eq field (codes "spec.clusterID")
    then (if is_empty cfg.spec.cluster_id then [] else cfg.spec.cluster_id ∷ [])
    else []

abbrev default_interval : ℤ
default_interval = ℤ.pos (10 * 60 * 1000000000)

-- The interval that main sets, and the one that ClusterConfigChecker.Start uses: 0 means the default.
unfoldable pub check_interval : (Str → Option ℤ) → Str → ℤ
check_interval parse s = elim (if is_empty s then some default_interval else parse s) [
  | none ↦ default_interval
  | some (ℤ.pos zero) ↦ default_interval
  | some d ↦ d
]
