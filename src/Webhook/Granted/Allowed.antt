-- ===== src/Webhook/Granted/Allowed.antt =====
-- From the approval of a session to the decision of the webhook.
use telekom_k8s_breakglass.Prelude.{
  ◌+◌, ◌<◌, ◌≤◌, Bool, true, List, [], ◌∷◌, Str, codes, In, AllDistinct, some, ok, ◌≡◌,
}
use telekom_k8s_breakglass.Api.Session.{Time, Session}
use telekom_k8s_breakglass.Api.Policy.{DenyPolicy}
use telekom_k8s_breakglass.Policy.First.{NoneDenies}
use telekom_k8s_breakglass.Api.Escalation.{Escalation}
use telekom_k8s_breakglass.Kube.{Kube}
use telekom_k8s_breakglass.Kube.Store.{IsStore, names}
use telekom_k8s_breakglass.Env.{Env, Context}
use telekom_k8s_breakglass.Session.{default_valid_for, default_retain_for, duration_or}
use telekom_k8s_breakglass.Session.Endpoints.{approves}
use telekom_k8s_breakglass.Session.Lifecycle.Handled.{handle}
use telekom_k8s_breakglass.Webhook.Env.{ResourceAttributes, AccessReview, WebhookEnv}
use telekom_k8s_breakglass.Webhook.Impersonate.{can_groups_do}
use telekom_k8s_breakglass.Webhook.Authorize.{action_of, handle_authorize}
use telekom_k8s_breakglass.Webhook.Authorize.Sound.{IsAllowed}
use telekom_k8s_breakglass.Webhook.Authorize.Sessions.{session-decides}
use telekom_k8s_breakglass.Webhook.Authorize.Policies.{denied_by_exact}
use telekom_k8s_breakglass.Webhook.Granted.{webhook_at, approved-granted}

module _ {W R : Type 0} (kube : Kube W) (webhook : WebhookEnv W R) (sar : AccessReview)
    (ra : ResourceAttributes) (rc : R) (cluster : Str) (w : W) where
  -- The review asks for the action `ra`. No listed policy denies it, as such or in a session, and the
  -- escalations can be listed. The target cluster can be reached, and answers in some way the review of
  -- any groups for the action with the resource type in place of the object's name.
  pub record IsAnswerable (ps : List DenyPolicy) : Type 0 where
    pub attributes : sar.resource_attributes ≡ some ra
    pub policies : webhook.list_policies w ≡ ok ps
    pub none_denies :
        (tenant session : Str) → NoneDenies webhook.glob (action_of ra cluster tenant session) ps
    pub listed : (all : List Escalation) × (kube.list_escalations w ≡ ok all)
    pub configured : webhook.rest_config cluster w ≡ ok rc
    pub client : webhook.new_client rc ≡ ok tt
    pub answers :
        (groups : List Str)
        → (b : Bool) × (webhook.self_review rc
              (codes "system:auth-checker")
              groups
              (record ra { name = ra.resource })
              w
            ≡ ok b)

-- The target cluster allows the action itself to the group.
abbrev pub IsGranted : {W R : Type 0} → WebhookEnv W R → R → ResourceAttributes → Str → W → Type 0
IsGranted webhook rc ra group w =
    webhook.subject_review rc (codes "system:breakglass-session") (group ∷ []) ra w ≡ ok true

module _ {W R : Type 0} (env : Env W) (webhook : WebhookEnv W R) {sessions : W → List Session}
    (hub : IsStore env.kube sessions) where
  -- Over a hub that stores sessions of distinct names: after an approval that is answered with 200, and
  -- until the session's time or its retention is over, the webhook allows the session's user on its
  -- cluster every action that the target cluster allows to the granted group, provided that no deny
  -- policy denies it, that the escalations can be listed, and that the target cluster answers the
  -- review of the user's groups, whatever that answer is.
  pub approved-IsAllowed :
      (c : Context) (bs : Session) (w : W) (t : Time) (sar : AccessReview) (ra : ResourceAttributes)
      (rc : R) (ps : List DenyPolicy)
      → In bs (sessions w)
      → AllDistinct (names (sessions w))
      → (handle env approves c bs w).0.code ≡ 200
      → t < env.now + duration_or env.parse_duration default_valid_for bs.spec.max_valid_for
      → t ≤ env.now + duration_or env.parse_duration default_retain_for bs.spec.retain_for
      → sar.user ≡ bs.spec.user
      → IsAnswerable env.kube webhook sar ra rc bs.spec.cluster (handle env approves c bs w).1 ps
      → IsGranted webhook rc ra bs.spec.granted_group (handle env approves c bs w).1
      → IsAllowed (
          handle_authorize
            (webhook_at env webhook t)
            bs.spec.cluster
            (ok sar)
            (handle env approves c bs w).1)
  unfolding can_groups_do
  approved-IsAllowed c bs w t sar ra rc ps m d h before kept own reach granted =
      let w' = (handle env approves c bs w).1 in
      let there_then = webhook_at env webhook t in
      let (user, found, (s, counted, group)) =
        approved-granted env webhook hub c bs w t m d h before kept in
      let passes =
        (denied_by_exact there_then w' ps reach.policies ra bs.spec.cluster user).1
          (reach.none_denies user.tenant [], λ s _. reach.none_denies user.tenant s.name) in
      let (all, listed) = reach.listed in
      let (b, answered) = reach.answers user.groups in
      session-decides there_then bs.spec.cluster sar w' user all rc ra b s (rw own found) listed
        (rw reach.attributes passes) reach.configured reach.client reach.attributes
        (rw (reach.client, reach.attributes) answered) counted (rw group granted)
