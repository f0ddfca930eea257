-- ===== src/Webhook/Authorize.antt =====
-- WebhookController.handleAuthorize.
pub mod Sound
pub mod Decides
pub mod Policies
pub mod Sessions
use telekom_k8s_breakglass.Prelude.{
  ℕ, Bool, true, false, not, ◌&&◌, ◌||◌, List, [], ◌∷◌, ◌++◌, Str, codes, map, length, is_empty,
  str_eq, has_substring, Option, none, some, Result, ok, err, if◌then◌else◌,
}
use telekom_k8s_breakglass.Api.Session.{Session}
use telekom_k8s_breakglass.Policy.{Action, match}
use telekom_k8s_breakglass.Escalations.{
  get_cluster_group_escalations, get_cluster_group_target_escalation,
}
use telekom_k8s_breakglass.Webhook.Env.{ResourceAttributes, AccessReview, WebhookEnv}
use telekom_k8s_breakglass.Webhook.Reason.{
  deny_reason, finalize_reason, policy_reason, spaced, skipped_note,
}
use telekom_k8s_breakglass.Webhook.Sessions.{
  UserAccess, get_user_groups_and_sessions, dedupe_strings,
}
use telekom_k8s_breakglass.Webhook.Impersonate.{SessionGrant, can_groups_do, authorize_via_sessions}

-- SubjectAccessReviewResponse
pub record ReviewResponse : Type 0 where
  pub api_version : Str
  pub kind : Str
  pub allowed : Bool
  pub reason : Str

-- What the handler does in the end: a bare status code, a decision, or a panic on a nil pointer.
pub data Answer : Type 0 where
  refused : ℕ → Answer
  decided : ReviewResponse → Answer
  panicked : Answer

abbrev pub action_of : ResourceAttributes → Str → Str → Str → Action
action_of ra cluster tenant session = record {
  verb = ra.verb;
  api_group = ra.group;
  resource = ra.resource;
  namespace = ra.namespace;
  name = ra.name;
  subresource = ra.subresource;
  cluster_id = cluster;
  tenant = tenant;
  session = session;
}

-- What the RBAC check gives: whether it allows, and the error for which the session reviews were
-- skipped, if any; or the status code 500.
pub record Rbac : Type 0 where
  pub can : Bool
  pub skipped : Option Str

-- `msg == "rest config is nil" || …`: an error that counts as a denial.
pub is_missing_config : Str → Bool
is_missing_config msg =
    str_eq msg (codes "rest config is nil")
    || has_substring msg (codes "does not exist")
    || has_substring msg (codes "no such file")

-- The handling of `rbacErr`.
pub rbac_outcome : Option Str → Result Bool → Option Rbac
unfolding is_missing_config
rbac_outcome skipped (ok can) = some (record { can = can; skipped = skipped })
rbac_outcome skipped (err msg) =
    if is_missing_config msg then some (record { can = false; skipped = skipped }) else none

module _ {W R : Type 0} (env : WebhookEnv W R) where
  -- The policy that one evaluation denies with; an error is logged and counts as no denial.
  pub denying : Action → W → Option Str
  denying act w = elim (match env.glob (env.list_policies w) act) [
    | err e ↦ none
    | ok verdict ↦ if verdict.denied then some verdict.policy else none
  ]

  -- The loop over the sessions in the evaluation of session-scoped policies.
  pub denying_session : ResourceAttributes → Str → Str → List Session → W → Option Str
  unfolding denying
  denying_session ra cluster tenant [] w = none
  denying_session ra cluster tenant (s ∷ ss) w =
      let rest = denying_session ra cluster tenant ss w in
      elim (denying (action_of ra cluster tenant s.name) w) [ some pol ↦ some pol | none ↦ rest ]

  -- `DENY POLICY EVALUATION`: the global policies, then those of each session.
  unfoldable pub denied_by : Option ResourceAttributes → Str → UserAccess → W → Option Str
  unfolding denying_session
  denied_by none cluster user w = none
  denied_by (some ra) cluster user w = elim (denying (action_of ra cluster user.tenant []) w) [
    | some pol ↦ some pol
    | none ↦ denying_session ra cluster user.tenant user.sessions w
  ]

  abbrev pub unique_groups : List Str → List Str
  unique_groups groups = dedupe_strings (groups ++ (codes "system:authenticated" ∷ []))

  pub policy_answer : Str → AccessReview → Str → UserAccess → W → Answer
  policy_answer cluster sar pol user w =
      let count : ℕ =
        elim (get_cluster_group_escalations env.kube env.config cluster (unique_groups user.groups)
          w) [ err e ↦ 0 | ok escals ↦ length escals ] in
      decided (record {
        api_version = sar.api_version;
        kind = sar.kind;
        allowed = false;
        reason = finalize_reason env.base_url (policy_reason pol count) false cluster;
      })

  -- The standard RBAC check, with and without a client configuration; `none` is the status 500.
  pub rbac_check : Str → AccessReview → List Str → W → Option Rbac
  unfolding rbac_outcome
  rbac_check cluster sar groups w = elim (env.rest_config cluster w) [
    | ok rc ↦ rbac_outcome none (can_groups_do env (some rc) groups sar w)
    | err e ↦ rbac_outcome (some e) (can_groups_do env none groups sar w)
  ]

  -- The session reviews: the grant, and the error for which they were skipped, if any.
  pub session_check :
      Str → AccessReview → List Session → Option Str → W → Option SessionGrant × Option Str
  session_check cluster sar sessions skipped w = elim sar.resource_attributes [
    | none ↦ (none, skipped)
    | some ra ↦ elim (env.rest_config cluster w) [
      | err e ↦ (none, some e)
      | ok rc ↦ (authorize_via_sessions env rc sessions sar w, skipped)
    ]
  ]

  -- The escalations open to the groups, and the target escalations for the API group of the
  -- request: whether there are any; `none` is the status 500.
  pub any_escalation : Str → Str → List Str → W → Option Bool
  any_escalation cluster group groups w =
      elim (get_cluster_group_escalations env.kube env.config cluster groups w) [
        | err e ↦ none
        | ok escals ↦
            if is_empty group
            then some (not (is_empty escals))
            else elim (get_cluster_group_target_escalation env.kube env.config cluster groups group
                w) [ err e ↦ none | ok groupescals ↦ some (not (is_empty (escals ++ groupescals))) ]
      ]

  -- The answer after the checks: the reason for an allowed request, the note, and the link.
  pub conclude : Str → AccessReview → List Session → Bool → Str → Option Str → Answer
  conclude cluster sar sessions allowed reason skipped =
      let note : Str = elim skipped [
        | none ↦ []
        | some e ↦
            skipped_note (length sessions)
              (map (λ s. s.name ++ codes "(" ++ s.spec.granted_group ++ codes ")") sessions) e
      ] in
      let noted = if not allowed && not (is_empty sessions) then reason ++ note else reason in
      decided (record {
        api_version = sar.api_version;
        kind = sar.kind;
        allowed = allowed;
        reason = finalize_reason env.base_url noted allowed cluster;
      })

  -- `Allowed by breakglass session (group=… session=… impersonated=…)`
  abbrev session_reason : SessionGrant → Str
  session_reason grant =
      codes "Allowed by breakglass session (group="
      ++ grant.group
      ++ codes " session="
      ++ grant.session
      ++ codes " impersonated="
      ++ grant.impersonated
      ++ codes ")"

  -- The positive reason is written only where no escalation has given one.
  abbrev pub path_reason : Str → Option SessionGrant → Bool → Str
  path_reason cluster grant available =
      if available
      then deny_reason env.base_url cluster
      else elim grant [ none ↦ [] | some g ↦ session_reason g ]

  -- The branch of a request that RBAC does not allow. `sar.Spec.ResourceAttributes.Group` is read
  -- without a test that the attributes are there.
  pub escalate : Str → AccessReview → UserAccess → Option Str → W → Answer
  unfolding session_check any_escalation conclude
  escalate cluster sar user skipped w =
      let (grant, skipped') = session_check cluster sar user.sessions skipped w in
      elim (get_user_groups_and_sessions env sar.user cluster w) [
        | err e ↦ refused 500
        | ok active ↦
            let groups = unique_groups active.groups in
            elim (get_cluster_group_escalations env.kube env.config cluster groups w) [
              | err e ↦ refused 500
              | ok _ ↦ elim sar.resource_attributes [
                | none ↦ panicked
                | some ra ↦ elim (any_escalation cluster ra.group groups w) [
                  | none ↦ refused 500
                  | some available ↦
                      conclude cluster sar user.sessions
                        (elim grant [ none ↦ false | some g ↦ true ])
                        (path_reason cluster grant available) skipped'
                ]
              ]
            ]
      ]

  -- The checks after the deny policies.
  pub check_access : Str → AccessReview → UserAccess → W → Answer
  unfolding rbac_check escalate conclude
  check_access cluster sar user w = elim (rbac_check cluster sar user.groups w) [
    | none ↦ refused 500
    | some rbac ↦
        if rbac.can
        then conclude cluster sar user.sessions true
            (codes "Allowed by RBAC (groups=[" ++ spaced user.groups ++ codes "])") rbac.skipped
        else escalate cluster sar user rbac.skipped w
  ]

  -- handleAuthorize; the review is the decoded body, or the error of reading or decoding it.
  pub handle_authorize : Str → Result AccessReview → W → Answer
  unfolding denied_by policy_answer check_access
  handle_authorize cluster (err e) w = refused 422
  handle_authorize cluster (ok sar) w = elim (get_user_groups_and_sessions env sar.user cluster w) [
    | err e ↦ refused 500
    | ok user ↦ elim (denied_by sar.resource_attributes cluster user w) [
      | some pol ↦ policy_answer cluster sar pol user w
      | none ↦ check_access cluster sar user w
    ]
  ]
