-- ===== src/Api/Escalation.antt =====
-- api/v1alpha1/breakglass_escalation_types.go: the BreakglassEscalation resource.
use telekom_k8s_breakglass.Prelude.{ℕ, Bool, List, Option, Str}

pub record ReasonConfig : Type 0 where
  pub mandatory : Bool
  pub description : Str

pub record Allowed : Type 0 where
  pub clusters : List Str
  pub groups : List Str

pub record Approvers : Type 0 where
  pub users : List Str
  pub groups : List Str

pub record EscalationSpec : Type 0 where
  pub allowed : Allowed
  pub approvers : Approvers
  pub escalated_group : Str
  pub max_valid_for : Str
  pub retain_for : Str
  pub idle_timeout : Str
  pub cluster_config_refs : List Str
  pub deny_policy_refs : List Str
  pub request_reason : Option ReasonConfig
  pub approval_reason : Option ReasonConfig
  pub allowed_approver_domains : List Str
  pub block_self_approval : Option Bool

-- The two maps are association lists; the first entry of a key counts.
pub record EscalationStatus : Type 0 where
  pub approver_group_members : List (Str × List Str)
  pub request_count : ℕ
  pub approval_count : ℕ
  pub group_resolution_status : List (Str × Str)

pub record Escalation : Type 0 where
  pub name : Str
  pub namespace : Str
  pub uid : Str
  pub spec : EscalationSpec
  pub status : EscalationStatus
