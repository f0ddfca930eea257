-- ===== src/Webhook/Env.antt =====
-- What the webhook works with: a subject access review, the clients, and the configuration.
use telekom_k8s_breakglass.Prelude.{Bool, List, Str, Option, Result}
use telekom_k8s_breakglass.Api.Session.{Time}
use telekom_k8s_breakglass.Api.Policy.{DenyPolicy}
use telekom_k8s_breakglass.Api.Cluster.{ClusterConfig}
use telekom_k8s_breakglass.Kube.{Kube}

-- authorizationv1.ResourceAttributes
pub record ResourceAttributes : Type 0 where
  pub namespace : Str
  pub verb : Str
  pub group : Str
  pub resource : Str
  pub subresource : Str
  pub name : Str

-- authorizationv1.SubjectAccessReview: what the handler reads. The non-resource attributes are only
-- logged and counted.
pub record AccessReview : Type 0 where
  pub api_version : Str
  pub kind : Str
  pub user : Str
  pub groups : List Str
  pub resource_attributes : Option ResourceAttributes

-- `W` is the state of the hub and the target clusters, `R` a client configuration for a target
-- cluster (`*rest.Config`).
pub record WebhookEnv (W R : Type 0) : Type 0 where
  pub kube : Kube W
  pub now : Time
  -- `config.Load`, as the escalation manager sees it, and the controller's own configuration
  pub config : Result (List Str)
  pub oidc_prefixes : List Str
  pub base_url : Str
  -- `filepath.Match`, false for a malformed pattern; the list call for DenyPolicies
  pub glob : Str → Str → Bool
  pub list_policies : W → Result (List DenyPolicy)
  -- the cluster provider: `GetAcrossAllNamespaces` and `GetRESTConfig` by cluster name
  pub cluster_config : Str → W → Result ClusterConfig
  pub rest_config : Str → W → Result R
  -- `kubernetes.NewForConfig`
  pub new_client : R → Result (Unit {0})
  -- a SelfSubjectAccessReview by an impersonated user and groups: whether it is allowed
  pub self_review : R → Str → List Str → ResourceAttributes → W → Result Bool
  -- a SubjectAccessReview for a user and groups: whether it is allowed
  pub subject_review : R → Str → List Str → ResourceAttributes → W → Result Bool
