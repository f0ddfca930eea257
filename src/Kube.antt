-- ===== src/Kube.antt =====
-- What the program asks of the Kubernetes client libraries and of the hub cluster behind them. None of
-- it is code of the repository, so it is a parameter: `W` is the state of the hub cluster, a read
-- looks at it, and a write gives the state after it, also where it reports an error.
pub mod Store
use telekom_k8s_breakglass.Prelude.{List, Str, Result}
use telekom_k8s_breakglass.Api.Session.{Session}
use telekom_k8s_breakglass.Api.Escalation.{Escalation}
use telekom_k8s_breakglass.Api.Cluster.{ClusterConfig}

-- A conjunction of `field = value`, as `fields.Set` and `client.MatchingFields` state it.
abbrev pub Selector : Type 0
Selector = List (Str × Str)

-- The outcome of a write, and the state after it.
abbrev pub Written : Type 0 → Type 0
Written W = Result (Unit {0}) × W

pub record Kube (W : Type 0) : Type 0 where
  -- `fields.ParseSelector`
  pub parse_selector : Str → Result Selector
  -- BreakglassSessions: `Get` by name with no namespace, `List`, `List` with a field selector
  pub get_session : Str → W → Result Session
  pub list_sessions : W → Result (List Session)
  pub select_sessions : Selector → W → Result (List Session)
  pub create_session : Session → W → Written W
  pub update_session : Session → W → Written W
  pub update_session_status : Session → W → Written W
  pub delete_session : Session → W → Written W
  -- BreakglassEscalations: `List`, and `List` with matching (indexed) fields
  pub list_escalations : W → Result (List Escalation)
  pub select_escalations : Selector → W → Result (List Escalation)
  pub update_escalation_status : Escalation → W → Written W
  -- ClusterConfigs: `Get` by namespace and name
  pub get_cluster_config : Str → Str → W → Result ClusterConfig
