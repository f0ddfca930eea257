-- ===== src/Webhook/Authorize/Sessions.antt =====
-- The request that a session review on the target cluster lets through.
use telekom_k8s_breakglass.Prelude.{
  Bool, true, not, List, ◌++◌, Str, codes, is_empty, In, Option, none, some, Result, ok,
  Result-cases, ok-ne-err, Bool-cases, ◌≡◌, refl, ap, ◌∙◌, inl, inr,
}
use telekom_k8s_breakglass.Api.Session.{Session}
use telekom_k8s_breakglass.Api.Escalation.{Escalation}
use telekom_k8s_breakglass.Kube.{Kube}
use telekom_k8s_breakglass.Escalations.{
  collect, indexed, get_all_escalations, get_cluster_group_escalations,
  get_cluster_group_target_escalation,
}
use telekom_k8s_breakglass.Webhook.Env.{ResourceAttributes, AccessReview, WebhookEnv}
use telekom_k8s_breakglass.Webhook.Sessions.{UserAccess, get_user_groups_and_sessions}
use telekom_k8s_breakglass.Webhook.Impersonate.{SessionGrant, can_groups_do, authorize_via_sessions}
use telekom_k8s_breakglass.Webhook.Impersonate.Sound.{reviewed, authorize_via_sessions_exact}
use telekom_k8s_breakglass.Webhook.Authorize.{
  rbac_outcome, denied_by, unique_groups, any_escalation, rbac_check, session_check, conclude,
  path_reason, escalate, check_access, handle_authorize,
}
use telekom_k8s_breakglass.Webhook.Authorize.Sound.{IsAllowed}
use telekom_k8s_breakglass.Webhook.Authorize.Decides.{conclude-decided, check_access-rbac}

module _ {W : Type 0} (kube : Kube W) (config : Result (List Str)) (w : W) (all : List Escalation)
    (listed : kube.list_escalations w ≡ ok all) where
  collect-ok :
      (field value : Str) → (es : List Escalation) × (collect kube config field value w ≡ ok es)
  unfolding collect get_all_escalations
  collect-ok field value = elim (Bool-cases (is_empty (indexed kube config field value w))) [
    | inl e ↦ (all, rw (collect, e, listed) refl)
    | inr e ↦ (indexed kube config field value w, rw (collect, e) refl)
  ]

  group_escalations-ok :
      (cluster : Str) (groups : List Str)
      → (es : List Escalation) × (get_cluster_group_escalations kube config cluster groups w
          ≡ ok es)
  unfolding get_cluster_group_escalations
  group_escalations-ok cluster groups =
      let (es, e) = collect-ok (codes "spec.allowed.cluster") cluster in
      elim (Result-cases (get_cluster_group_escalations kube config cluster groups w)) [
        | inl (out, q) ↦ (out, q)
        | inr (x, q) ↦ absurd (ok-ne-err (rw (get_cluster_group_escalations, e) at q))
      ]

  target_escalations-ok :
      (cluster : Str) (groups : List Str) (target : Str)
      → (es : List Escalation) × (get_cluster_group_target_escalation kube config cluster groups
            target w
          ≡ ok es)
  unfolding get_cluster_group_target_escalation
  target_escalations-ok cluster groups target =
      let (es, e) = collect-ok (codes "spec.escalatedGroup") target in
      elim (Result-cases
        (get_cluster_group_target_escalation kube config cluster groups target w)) [
          | inl (out, q) ↦ (out, q)
          | inr (x, q) ↦ absurd (ok-ne-err (rw (get_cluster_group_target_escalation, e) at q))
        ]

module _ {W R : Type 0} (env : WebhookEnv W R) (cluster : Str) (sar : AccessReview) (w : W) where
  any_escalation-some :
      (all : List Escalation)
      → env.kube.list_escalations w ≡ ok all
      → (group : Str) (groups : List Str)
      → (available : Bool) × (any_escalation env cluster group groups w ≡ some available)
  unfolding any_escalation
  any_escalation-some all listed group groups =
      let (es, e) = group_escalations-ok env.kube env.config w all listed cluster groups in
      let (ts, q) = target_escalations-ok env.kube env.config w all listed cluster groups group in
      elim (Bool-cases (is_empty group)) [
        | inl k ↦ (not (is_empty es), rw (any_escalation, e, k) refl)
        | inr k ↦ (not (is_empty (es ++ ts)), rw (any_escalation, e, k, q) refl)
      ]

  session_check-granted :
      (sessions : List Session) (rc : R) (ra : ResourceAttributes) (grant : SessionGrant)
      → env.rest_config cluster w ≡ ok rc
      → sar.resource_attributes ≡ some ra
      → authorize_via_sessions env rc sessions sar w ≡ some grant
      → session_check env cluster sar sessions none w ≡ (some grant, none)
  unfolding session_check
  session_check-granted sessions rc ra grant c n granted = rw (session_check, n, c, granted) refl

  escalate-concludes :
      (user : UserAccess) (escals : List Escalation) (rc : R) (ra : ResourceAttributes)
      (grant : SessionGrant) (available : Bool)
      → get_user_groups_and_sessions env sar.user cluster w ≡ ok user
      → get_cluster_group_escalations env.kube env.config cluster (unique_groups env user.groups) w
        ≡ ok escals
      → env.rest_config cluster w ≡ ok rc
      → sar.resource_attributes ≡ some ra
      → authorize_via_sessions env rc user.sessions sar w ≡ some grant
      → any_escalation env cluster ra.group (unique_groups env user.groups) w ≡ some available
      → escalate env cluster sar user none w
        ≡ conclude env cluster sar user.sessions true
            (path_reason env cluster (some grant) available)
            none
  unfolding escalate
  escalate-concludes user escals rc ra grant available e q c n granted u =
      let checked = session_check-granted user.sessions rc ra grant c n granted in
      rw (escalate, e, q, n, u, ap (λ (x : Option SessionGrant × Option Str). x.0) checked) refl

  -- When the user's sessions and the escalations can be read, no deny policy denies the request, the
  -- target cluster answers the review of the user's groups, whatever the answer, and it allows the
  -- action of the request to the granted group of one of the sessions, the webhook allows it.
  pub session-decides :
      (user : UserAccess) (all : List Escalation) (rc : R) (ra : ResourceAttributes) (b : Bool)
      (s : Session)
      → get_user_groups_and_sessions env sar.user cluster w ≡ ok user
      → env.kube.list_escalations w ≡ ok all
      → denied_by env sar.resource_attributes cluster user w ≡ none
      → env.rest_config cluster w ≡ ok rc
      → env.new_client rc ≡ ok tt
      → sar.resource_attributes ≡ some ra
      → can_groups_do env (some rc) user.groups sar w ≡ ok b
      → In s user.sessions
      → reviewed env rc ra s.spec.granted_group w ≡ ok true
      → IsAllowed (handle_authorize env cluster (ok sar) w)
  unfolding handle_authorize check_access rbac_check rbac_outcome
  session-decides user all rc ra b s e listed d c client n asked m allowed =
      rw (e, d, handle_authorize)
        (elim (Bool-cases b) [
          | inl t ↦ check_access-rbac env cluster sar w user rc c (rw asked (rw t refl))
          | inr f ↦
              let (grant, granted) =
                (authorize_via_sessions_exact env rc user.sessions sar ra w n).1 s
                  s.spec.granted_group client m (inl refl) allowed in
              let groups = unique_groups env user.groups in
              let (escals, q) =
                group_escalations-ok env.kube env.config w all listed cluster groups in
              let (available, u) = any_escalation-some all listed ra.group groups in
              let (r, same, t) =
                conclude-decided env cluster sar w user.sessions true
                  (path_reason env cluster (some grant) available) none in
              let concluded =
                escalate-concludes user escals rc ra grant available e q c n granted u in
              (r, rw (check_access, rbac_check, c, asked, f, rbac_outcome) (concluded ∙ same), t)
        ])
