-- ===== src/Webhook/Authorize/Decides.antt =====
-- The answers of the authorization webhook that a deny policy, the RBAC check or a missing part of the
-- review decides.
use telekom_k8s_breakglass.Prelude.{
  str_eq_refl, Bool, true, false, List, ◌++◌, Str, codes, Option, none, some, ok, err, ◌≡◌, refl,
}
use telekom_k8s_breakglass.Api.Session.{Session}
use telekom_k8s_breakglass.Escalations.{get_cluster_group_escalations}
use telekom_k8s_breakglass.Api.Escalation.{Escalation}
use telekom_k8s_breakglass.Webhook.Env.{AccessReview, WebhookEnv}
use telekom_k8s_breakglass.Webhook.Sessions.{UserAccess, get_user_groups_and_sessions}
use telekom_k8s_breakglass.Webhook.Impersonate.{can_groups_do}
use telekom_k8s_breakglass.Webhook.Reason.{spaced}
use telekom_k8s_breakglass.Webhook.Authorize.{
  ReviewResponse, is_missing_config, rbac_outcome, decided, panicked, denied_by, policy_answer,
  unique_groups, rbac_check, conclude, escalate, check_access, handle_authorize,
}
use telekom_k8s_breakglass.Webhook.Authorize.Sound.{IsAllowed, can_groups_do-none}

module _ {W R : Type 0} (env : WebhookEnv W R) (cluster : Str) (sar : AccessReview) (w : W) where
  policy_answer-decided :
      (pol : Str) (user : UserAccess)
      → (r : ReviewResponse) × (policy_answer env cluster sar pol user w ≡ decided r)
        × (r.allowed ≡ false)
        × (r.api_version ≡ sar.api_version)
        × (r.kind ≡ sar.kind)
  unfolding policy_answer
  policy_answer-decided pol user = (_, refl, refl, refl, refl)

  pub conclude-decided :
      (sessions : List Session) (allowed : Bool) (reason : Str) (skipped : Option Str)
      → (r : ReviewResponse) × (conclude env cluster sar sessions allowed reason skipped
          ≡ decided r)
        × (r.allowed ≡ allowed)
  unfolding conclude
  conclude-decided sessions allowed reason skipped = (_, refl, refl)

  pub check_access-rbac :
      (user : UserAccess) (rc : R)
      → env.rest_config cluster w ≡ ok rc
      → can_groups_do env (some rc) user.groups sar w ≡ ok true
      → IsAllowed (check_access env cluster sar user w)
  unfolding check_access rbac_check rbac_outcome
  check_access-rbac user rc c a =
      let (r, q, t) =
        conclude-decided user.sessions true
          (codes "Allowed by RBAC (groups=[" ++ spaced user.groups ++ codes "])") none in
      (r, rw (c, a, check_access, rbac_check, rbac_outcome) q, t)

  check_access-panics :
      (user active : UserAccess) (escals : List Escalation) (x : Str)
      → get_user_groups_and_sessions env sar.user cluster w ≡ ok active
      → get_cluster_group_escalations env.kube env.config cluster
          (unique_groups env active.groups)
          w
        ≡ ok escals
      → env.rest_config cluster w ≡ err x
      → sar.resource_attributes ≡ none
      → check_access env cluster sar user w ≡ panicked
  unfolding check_access rbac_check rbac_outcome is_missing_config escalate
  check_access-panics user active escals x e q c n =
      rw
        (
          c,
          check_access,
          rbac_check,
          can_groups_do-none env cluster sar w user,
          rbac_outcome,
          is_missing_config,
          str_eq_refl (codes "rest config is nil"),
          e,
          q,
          n,
          escalate,
        )
        refl

  -- When the user's sessions can be read and a deny policy denies the request, the webhook answers with
  -- a decision that does not allow it, whatever RBAC and the sessions say.
  pub denied_by-decides :
      (user : UserAccess) (pol : Str)
      → get_user_groups_and_sessions env sar.user cluster w ≡ ok user
      → denied_by env sar.resource_attributes cluster user w ≡ some pol
      → (r : ReviewResponse) × (handle_authorize env cluster (ok sar) w ≡ decided r)
        × (r.allowed ≡ false)
        × (r.api_version ≡ sar.api_version)
        × (r.kind ≡ sar.kind)
  unfolding handle_authorize
  denied_by-decides user pol e d =
      let (r, q, a, v, k) = policy_answer-decided pol user in
      (r, rw (e, d, handle_authorize) q, a, v, k)

  -- When the user's sessions can be read, no deny policy denies the request, and RBAC allows it for the
  -- granted groups on the target cluster, the webhook allows it.
  pub rbac-decides :
      (user : UserAccess) (rc : R)
      → get_user_groups_and_sessions env sar.user cluster w ≡ ok user
      → denied_by env sar.resource_attributes cluster user w ≡ none
      → env.rest_config cluster w ≡ ok rc
      → can_groups_do env (some rc) user.groups sar w ≡ ok true
      → IsAllowed (handle_authorize env cluster (ok sar) w)
  unfolding handle_authorize
  rbac-decides user rc e d c a =
      let (r, q, t) = check_access-rbac user rc c a in (r, rw (e, d, handle_authorize) q, t)

  -- A review without resource attributes, for a cluster whose client configuration cannot be read, makes
  -- the handler panic, when the user's sessions and the escalations can be read.
  pub non_resource-panics :
      (user : UserAccess) (escals : List Escalation) (x : Str)
      → get_user_groups_and_sessions env sar.user cluster w ≡ ok user
      → get_cluster_group_escalations env.kube env.config cluster (unique_groups env user.groups) w
        ≡ ok escals
      → env.rest_config cluster w ≡ err x
      → sar.resource_attributes ≡ none
      → handle_authorize env cluster (ok sar) w ≡ panicked
  unfolding handle_authorize denied_by
  non_resource-panics user escals x e q c n =
      rw (e, n, handle_authorize) (check_access-panics user user escals x e q c n)
