-- ===== src/Tests/Stored.antt =====
-- Ann's request for the group `ops` on the sample hub, which stores a session of Eve, and Bob's approval.
use telekom_k8s_breakglass.Prelude.{
  ◌+◌, ◌<◌, ◌≤◌, arith, true, List, [], ◌∷◌, codes, AllDistinct, In, here, not_In-nil, some, ok,
  ◌≡◌, ◌≢◌, refl,
}
use telekom_k8s_breakglass.Api.Session.{Session}
use telekom_k8s_breakglass.Http.{Body, json}
use telekom_k8s_breakglass.Kube.Store.{names}
use telekom_k8s_breakglass.Env.{Env}
use telekom_k8s_breakglass.Session.Request.{SessionRequest, admitted, admit}
use telekom_k8s_breakglass.Approval.{is_session_approver}
use telekom_k8s_breakglass.Session.{
  default_valid_for, default_retain_for, duration_or, is_session_active,
}
use telekom_k8s_breakglass.Session.Endpoints.{approves}
use telekom_k8s_breakglass.Session.Lifecycle.Handled.{handle}
use telekom_k8s_breakglass.Webhook.Authorize.{handle_authorize}
use telekom_k8s_breakglass.Webhook.Authorize.Sound.{IsAllowed}
use telekom_k8s_breakglass.Webhook.Granted.{webhook_at}
use telekom_k8s_breakglass.Webhook.Granted.Requested.{env_at, requested-IsAllowed}
use telekom_k8s_breakglass.Session.Request.Create.{new_session, requested_status, handle_request}
use telekom_k8s_breakglass.Session.Request.Create.Stored.{IsRequested, request-stored}
use telekom_k8s_breakglass.Tests.Samples.{
  Store, running, escalation, env, ann, bob, reading, reading_review, no_delete,
}
use telekom_k8s_breakglass.Tests.Hub.{long_name, hub, hub-IsStore}
use telekom_k8s_breakglass.Tests.Granted.{target, answerable, granted}

abbrev ops_request : SessionRequest
ops_request = record {
  cluster = codes "c1";
  user = codes "ann";
  group = codes "ops";
  reason = codes "incident";
}

abbrev of_eve : Session
of_eve = record running { spec = record (running.spec) { user = codes "eve" } }

abbrev store : Store
store = of_eve ∷ []

abbrev api : Env Store
api = record env { kube = hub }

ops_admitted : admit api ann ops_request store ≡ admitted escalation []
unfolding admit telekom_k8s_breakglass.Escalations.get_cluster_group_escalations
    telekom_k8s_breakglass.Escalations.collect telekom_k8s_breakglass.Prelude.keep
    telekom_k8s_breakglass.Escalations.cluster_match telekom_k8s_breakglass.Prelude.contains
    telekom_k8s_breakglass.Prelude.str_eq telekom_k8s_breakglass.Escalations.group_match
    telekom_k8s_breakglass.Escalations.strip_oidc_prefixes
    telekom_k8s_breakglass.Session.Request.get_active_session
    telekom_k8s_breakglass.Session.Manager.get_sessions_with_selector
    telekom_k8s_breakglass.Prelude.find telekom_k8s_breakglass.Indices.session_index
    telekom_k8s_breakglass.Env.get_email
ops_admitted = refl

distinct : AllDistinct (names store)
distinct = (λ m. not_In-nil m, tt)

request-stored_example :
    (bs : Session) × ((handle_request api ann (ok ops_request) store).0
      ≡ some (json 201 (Body.one bs)))
    × IsRequested api hub-IsStore ops_request store
        (handle_request api ann (ok ops_request) store).1
        bs
request-stored_example =
    request-stored api hub-IsStore ann ops_request escalation [] store distinct ops_admitted
      (λ e. cc)

abbrev asked : Session
asked = record (new_session api ops_request escalation []) {
  name = long_name store;
  status = requested_status api ann [];
}

asked_stored : (handle_request api ann (ok ops_request) store).1 ≡ asked ∷ store
unfolding handle_request telekom_k8s_breakglass.Escalations.get_cluster_group_escalations
    telekom_k8s_breakglass.Escalations.collect telekom_k8s_breakglass.Prelude.keep
    telekom_k8s_breakglass.Escalations.cluster_match telekom_k8s_breakglass.Prelude.contains
    telekom_k8s_breakglass.Prelude.str_eq telekom_k8s_breakglass.Escalations.group_match
    telekom_k8s_breakglass.Escalations.strip_oidc_prefixes
    telekom_k8s_breakglass.Session.Request.get_active_session
    telekom_k8s_breakglass.Session.Manager.get_sessions_with_selector
    telekom_k8s_breakglass.Prelude.find telekom_k8s_breakglass.Indices.session_index
    telekom_k8s_breakglass.Env.get_email telekom_k8s_breakglass.Session.Manager.add_session
    telekom_k8s_breakglass.Session.Manager.update_session_status is_session_active
asked_stored = refl

asked_active : is_session_active api.now asked ≡ true
unfolding is_session_active requested_status
asked_active = refl

approver_bob : is_session_approver (env_at api 20) bob asked (asked ∷ store) ≡ true
unfolding is_session_approver telekom_k8s_breakglass.Env.get_email
    telekom_k8s_breakglass.Approval.approver_groups
    telekom_k8s_breakglass.Escalations.get_cluster_escalations telekom_k8s_breakglass.Prelude.keep
    telekom_k8s_breakglass.Escalations.cluster_match telekom_k8s_breakglass.Prelude.contains
    telekom_k8s_breakglass.Prelude.str_eq new_session
    telekom_k8s_breakglass.Approval.escalation_approves
    telekom_k8s_breakglass.Approval.effective_block_self
    telekom_k8s_breakglass.Approval.effective_allowed_domains
approver_bob = refl

time_left : 30 < 20 + duration_or api.parse_duration default_valid_for asked.spec.max_valid_for
unfolding duration_or new_session
time_left = omega arith

time_kept : 30 ≤ 20 + duration_or api.parse_duration default_retain_for asked.spec.retain_for
unfolding duration_or new_session
time_kept = omega arith

requested-IsAllowed_example :
    let w₁ = (handle_request api ann (ok ops_request) store).1 in
    let w₂ = (handle (env_at api 20) approves bob asked w₁).1 in
    ((handle (env_at api 20) approves bob asked w₁).0.code ≡ 200)
    × IsAllowed (handle_authorize (webhook_at api target 30) (codes "c1") (ok reading_review) w₂)
unfolding new_session
requested-IsAllowed_example =
    requested-IsAllowed api target hub-IsStore ann ops_request escalation [] store asked bob 20 30
      reading_review reading tt (no_delete ∷ []) distinct ops_admitted (λ e. cc)
      (rw asked_stored (here refl)) refl refl refl asked_active (rw asked_stored approver_bob)
      time_left time_kept refl (answerable _) (granted [])
