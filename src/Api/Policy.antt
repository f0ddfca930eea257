-- ===== src/Api/Policy.antt =====
-- api/v1alpha1/deny_policy_types.go: the DenyPolicy resource.
use telekom_k8s_breakglass.Prelude.{ℕ, List, Option, Str}

pub record DenyPolicyScope : Type 0 where
  pub clusters : List Str
  pub tenants : List Str
  pub sessions : List Str

pub record DenyRule : Type 0 where
  pub verbs : List Str
  pub api_groups : List Str
  pub resources : List Str
  pub namespaces : List Str
  pub resource_names : List Str
  pub subresources : List Str

-- The name and the spec. `precedence` is an `*int32`.
pub record DenyPolicy : Type 0 where
  pub name : Str
  pub applies_to : Option DenyPolicyScope
  pub rules : List DenyRule
  pub precedence : Option ℕ
