-- ===== src/Webhook/Granted/Requested.antt =====
-- From a request over its approval to the decision of the webhook.
use telekom_k8s_breakglass.Prelude.{
  ◌+◌, ◌<◌, ◌≤◌, true, false, List, [], Str, In, AllDistinct, ok, ◌≡◌, ◌≢◌, refl, sym, ap, subst,
  ◌∙◌,
}
use telekom_k8s_breakglass.Api.Session.{Time, Session, condition_eq, approve}
use telekom_k8s_breakglass.Api.Escalation.{Escalation}
use telekom_k8s_breakglass.Api.Policy.{DenyPolicy}
use telekom_k8s_breakglass.Kube.Store.{IsStore, names}
use telekom_k8s_breakglass.Env.{Env, Context}
use telekom_k8s_breakglass.Approval.{is_session_approver}
use telekom_k8s_breakglass.Session.{
  default_valid_for, default_retain_for, duration_or, is_session_active, last_kind,
}
use telekom_k8s_breakglass.Session.Endpoints.{approves}
use telekom_k8s_breakglass.Session.Lifecycle.Handled.{handle}
use telekom_k8s_breakglass.Session.Lifecycle.Written.{approval-accepted}
use telekom_k8s_breakglass.Session.Request.{SessionRequest, admitted, admit}
use telekom_k8s_breakglass.Session.Request.Create.{handle_request}
use telekom_k8s_breakglass.Session.Request.Create.Stored.{request-stored}
use telekom_k8s_breakglass.Webhook.Env.{ResourceAttributes, AccessReview, WebhookEnv}
use telekom_k8s_breakglass.Webhook.Authorize.{handle_authorize}
use telekom_k8s_breakglass.Webhook.Authorize.Sound.{IsAllowed}
use telekom_k8s_breakglass.Webhook.Granted.{webhook_at}
use telekom_k8s_breakglass.Webhook.Granted.Allowed.{IsAnswerable, IsGranted, approved-IsAllowed}

-- The handlers' environment at a later time.
abbrev pub env_at : {W : Type 0} → Env W → Time → Env W
env_at env n = record env { now = n }

module _ {W R : Type 0} (env : Env W) (webhook : WebhookEnv W R) {sessions : W → List Session}
    (hub : IsStore env.kube sessions) where
  -- Over a hub that stores sessions of distinct names: after a request that the checks admit, by an
  -- escalation that lists a cluster, the active session for it can be approved. An approver's approval
  -- at the time `n` is answered with 200, whether or not it gives a reason, and until the session's
  -- time or its retention is over the webhook allows the user on the cluster every action that the
  -- target cluster allows to the granted group, provided that no deny policy denies it, that the
  -- escalations can be listed, and that the target cluster answers the review of the user's groups,
  -- whatever that answer is.
  pub requested-IsAllowed :
      (c : Context) (request : SessionRequest) (esc : Escalation) (refs : List Str) (w : W)
      (ses : Session) (approver : Context) (n t : Time) (sar : AccessReview)
      (ra : ResourceAttributes) (rc : R) (ps : List DenyPolicy)
      → AllDistinct (names (sessions w))
      → admit env c request w ≡ admitted esc refs
      → esc.spec.allowed.clusters ≢ []
      → let w₁ = (handle_request env c (ok request) w).1 in
        let later = env_at env n in
        let w₂ = (handle later approves approver ses w₁).1 in
        In ses (sessions w₁)
        → ses.spec.cluster ≡ request.cluster
        → ses.spec.granted_group ≡ request.group
        → ses.spec.user ≡ request.user
        → is_session_active env.now ses ≡ true
        → is_session_approver later approver ses w₁ ≡ true
        → t < n + duration_or env.parse_duration default_valid_for ses.spec.max_valid_for
        → t ≤ n + duration_or env.parse_duration default_retain_for ses.spec.retain_for
        → sar.user ≡ request.user
        → IsAnswerable env.kube webhook sar ra rc request.cluster w₂ ps
        → IsGranted webhook rc ra request.group w₂
        → ((handle later approves approver ses w₁).0.code ≡ 200)
          × IsAllowed (handle_authorize (webhook_at env webhook t) request.cluster (ok sar) w₂)
  requested-IsAllowed c request esc refs w ses approver n t sar ra rc ps d a ne m cluster group user
        live entitled before kept own reach granted =
      let (bs, _, stored) = request-stored env hub c request esc refs w d a ne in
      let same = stored.only ses m cluster group user live in
      let waiting = ap (λ (s : Session). s.status.state) same ∙ stored.state in
      let last : condition_eq (last_kind ses.status.conditions) approve ≡ false =
        ap (λ (s : Session). condition_eq (last_kind s.status.conditions) approve) same
        ∙ rw stored.unanswered refl in
      let accepted =
        approval-accepted (env_at env n) hub approver ses _ m stored.distinct last waiting
          entitled in
      let w₂ =
        (handle (env_at env n) approves approver ses (handle_request env c (ok request) w).1).1 in
      (
        accepted,
        subst (λ x. IsAllowed (handle_authorize (webhook_at env webhook t) x (ok sar) w₂)) cluster
            (approved-IsAllowed (env_at env n) webhook hub approver ses _ t sar ra rc ps m
              stored.distinct accepted before kept (own ∙ sym user)
              (subst (λ x. IsAnswerable env.kube webhook sar ra rc x w₂ ps) (sym cluster) reach)
              (subst (λ x. IsGranted webhook rc ra x w₂) (sym group) granted)),
      )
