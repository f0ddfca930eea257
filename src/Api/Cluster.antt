-- ===== src/Api/Cluster.antt =====
-- api/v1alpha1/cluster_config_types.go: the ClusterConfig resource.
use telekom_k8s_breakglass.Prelude.{ℕ, Bool, List, Option, Str}

pub record SecretKeyReference : Type 0 where
  pub name : Str
  pub namespace : Str
  pub key : Str

-- QPS and Burst are `*int32`.
pub record ClusterConfigSpec : Type 0 where
  pub cluster_id : Str
  pub tenant : Str
  pub kubeconfig_secret_ref : SecretKeyReference
  pub qps : Option ℕ
  pub burst : Option ℕ
  pub block_self_approval : Bool
  pub allowed_approver_domains : List Str

pub record ClusterConfigStatus : Type 0 where
  pub phase : Str
  pub message : Str
  pub last_check_time : ℕ

pub record ClusterConfig : Type 0 where
  pub name : Str
  pub namespace : Str
  pub spec : ClusterConfigSpec
  pub status : ClusterConfigStatus
