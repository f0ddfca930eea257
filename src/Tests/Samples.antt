-- ===== src/Tests/Samples.antt =====
-- A cluster with one escalation, whose state is the list of its sessions.
use telekom_k8s_breakglass.Prelude.{
  true, false, not, List, [], ◌∷◌, Str, codes, keep, str_eq, none, some, ok, err,
}
use telekom_k8s_breakglass.Api.Session.{Session, SessionStatus, pending, approved}
use telekom_k8s_breakglass.Api.Escalation.{Escalation}
use telekom_k8s_breakglass.Api.Policy.{DenyPolicy}
use telekom_k8s_breakglass.Kube.{Kube}
use telekom_k8s_breakglass.Env.{Env, Context}
use telekom_k8s_breakglass.Webhook.Env.{ResourceAttributes, AccessReview, WebhookEnv}

abbrev pub Store : Type 0
Store = List Session

abbrev pub blank_status : SessionStatus
blank_status = record {
  conditions = [];
  approved_at = 0;
  rejected_at = 0;
  expires_at = 0;
  timeout_at = 0;
  retained_until = 0;
  state = pending;
  approver = [];
  approvers = [];
  approval_reason = [];
  reason_ended = [];
}

abbrev pub running_status : SessionStatus
running_status = record blank_status {
  approved_at = 5;
  expires_at = 50;
  retained_until = 90;
  state = approved;
}

-- A request of Ann for the group `ops` on the cluster `c1`.
abbrev pub request : Session
request = record {
  name = codes "s1";
  generate_name = [];
  namespace = codes "bg";
  resource_version = [];
  labels = record { cluster_label = []; user_label = []; group_label = [] };
  spec = record {
    cluster = codes "c1";
    user = codes "ann";
    granted_group = codes "ops";
    idle_timeout = [];
    max_valid_for = [];
    retain_for = [];
    cluster_config_ref = [];
    deny_policy_refs = none;
    request_reason = [];
  };
  status = blank_status;
  owner_references = [];
}

abbrev pub running : Session
running = record request { status = running_status }

-- Bob approves the group `ops` on `c1` for the group `dev`.
abbrev pub escalation : Escalation
escalation = record {
  name = codes "e1";
  namespace = codes "bg";
  uid = codes "u1";
  spec = record {
    allowed = record { clusters = codes "c1" ∷ []; groups = codes "dev" ∷ [] };
    approvers = record { users = codes "bob" ∷ []; groups = [] };
    escalated_group = codes "ops";
    max_valid_for = [];
    retain_for = [];
    idle_timeout = [];
    cluster_config_refs = [];
    deny_policy_refs = [];
    request_reason = none;
    approval_reason = none;
    allowed_approver_domains = [];
    block_self_approval = some true;
  };
  status = record {
    approver_group_members = [];
    request_count = 0;
    approval_count = 0;
    group_resolution_status = [];
  };
}

abbrev pub others : Session → Store → Store
others s w = keep (λ t. not (str_eq t.name s.name)) w

abbrev pub kube : Kube Store
kube = record {
  parse_selector = λ s. ok [];
  get_session = λ n w. elim w [ [] ↦ err (codes "not found") | s ∷ ss ↦ ok s ];
  list_sessions = λ w. ok w;
  select_sessions = λ sel w. ok w;
  create_session = λ s w. (ok tt, s ∷ w);
  update_session = λ s w. (ok tt, s ∷ others s w);
  update_session_status = λ s w. (ok tt, s ∷ others s w);
  delete_session = λ s w. (ok tt, others s w);
  list_escalations = λ w. ok (escalation ∷ []);
  select_escalations = λ sel w. ok (escalation ∷ []);
  update_escalation_status = λ e w. (ok tt, w);
  get_cluster_config = λ ns n w. err (codes "not found");
}

abbrev pub env : Env Store
env = record {
  kube = kube;
  config = ok [];
  now = 10;
  parse_duration = λ s. none;
  to_lower = λ c. c;
  quote = λ s. s;
  get_user_groups = λ user cluster w. ok (codes "dev" ∷ []);
}

abbrev pub caller : Str → Context
caller email = record {
  email = email;
  username = email;
  groups = some (codes "dev" ∷ []);
  param_name = codes "s1";
  reason = [];
}

abbrev pub ann : Context
ann = caller (codes "ann")

abbrev pub bob : Context
bob = caller (codes "bob")

-- Reading pods in the namespace `web`.
abbrev pub reading : ResourceAttributes
reading = record {
  namespace = codes "web";
  verb = codes "get";
  group = [];
  resource = codes "pods";
  subresource = [];
  name = [];
}

abbrev pub reading_review : AccessReview
reading_review = record {
  api_version = codes "v1";
  kind = codes "SAR";
  user = codes "ann";
  groups = codes "oidc:dev" ∷ [];
  resource_attributes = some reading;
}

-- Denies deleting pods anywhere.
abbrev pub no_delete : DenyPolicy
no_delete = record {
  name = codes "no-delete";
  applies_to = none;
  rules =
      record {
        verbs = codes "delete" ∷ [];
        api_groups = [] ∷ [];
        resources = codes "pods" ∷ [];
        namespaces = [];
        resource_names = [];
        subresources = [];
      }
      ∷ [];
  precedence = none;
}

-- The target cluster allows whatever the group `ops` behind `oidc:` asks for, and nothing else.
abbrev pub webhook : WebhookEnv Store (Unit {0})
webhook = record {
  kube = kube;
  now = 10;
  config = ok [];
  oidc_prefixes = codes "oidc:" ∷ [];
  base_url = codes "https://bg";
  glob = λ p v. str_eq p v;
  list_policies = λ w. ok (no_delete ∷ []);
  cluster_config = λ n w. err (codes "not found");
  rest_config = λ n w. ok tt;
  new_client = λ rc. ok tt;
  self_review = λ rc user groups ra w. ok false;
  subject_review = λ rc user groups ra w. elim groups [
    | [] ↦ ok false
    | g ∷ gs ↦ ok (str_eq g (codes "oidc:ops"))
  ];
}
