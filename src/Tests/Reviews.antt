-- ===== src/Tests/Reviews.antt =====
-- Runs of the endpoints that change a session, and of the approver's test.
use telekom_k8s_breakglass.Prelude.{
  Bool, true, false, List, [], ◌∷◌, Str, codes, In, here, there, ok, none, some, ◌≡◌, ◌≢◌, ◌↔◌, ◌⊎◌,
  inl, inr, refl, arith,
}
use telekom_k8s_breakglass.Api.Session.{condition_eq, approve, reject, pending}
use telekom_k8s_breakglass.Api.Escalation.{Escalation}
use telekom_k8s_breakglass.Http.{Body}
use telekom_k8s_breakglass.Env.{get_email}
use telekom_k8s_breakglass.Escalations.{get_cluster_escalations}
use telekom_k8s_breakglass.Approval.{approver_groups, is_session_approver}
use telekom_k8s_breakglass.Approval.Exact.{Authorises, is_session_approver_iff}
use telekom_k8s_breakglass.Session.{is_session_pending_approval, last_kind}
use telekom_k8s_breakglass.Session.Manager.{update_session_status}
use telekom_k8s_breakglass.Session.Review.{review}
use telekom_k8s_breakglass.Session.Review.Outcome.{
  approve_iff, reject_iff, approval_write, rejected_session,
}
use telekom_k8s_breakglass.Session.Owner.{drop}
use telekom_k8s_breakglass.Session.Owner.Outcome.{drop_iff, dropped_session}
use telekom_k8s_breakglass.Tests.Samples.{Store, request, running, env, ann, bob}

abbrev store : Store
store = request ∷ []

approver_bob : is_session_approver env bob request store ≡ true
unfolding is_session_approver get_email approver_groups get_cluster_escalations
    telekom_k8s_breakglass.Prelude.keep telekom_k8s_breakglass.Escalations.cluster_match
    telekom_k8s_breakglass.Prelude.contains telekom_k8s_breakglass.Prelude.str_eq
    telekom_k8s_breakglass.Approval.escalation_approves
    telekom_k8s_breakglass.Approval.effective_block_self
    telekom_k8s_breakglass.Approval.effective_allowed_domains
approver_bob = refl

approve_iff_example : ((review env bob approve request store).0.code ≡ 200) ↔ (
    (condition_eq (last_kind request.status.conditions) approve ≡ false)
    × (request.status.state ≡ pending)
    × (is_session_approver env bob request store ≡ true)
    × ((approval_write env bob request store).0 ≡ ok tt))
approve_iff_example = approve_iff env bob request store

approval_stored : (approval_write env bob request store).0 ≡ ok tt
unfolding update_session_status
approval_stored = refl

last_blank : condition_eq (last_kind request.status.conditions) approve ≡ false
unfolding last_kind
last_blank = refl

reject_iff_example : ((review env ann reject request store).0.code ≡ 200) ↔ (
    (condition_eq (last_kind request.status.conditions) reject ≡ false)
    × (request.status.state ≡ pending)
    × (((get_email ann ≡ ok request.spec.user) × (is_session_pending_approval request ≡ true))
        ⊎ (is_session_approver env ann request store ≡ true))
    × ((update_session_status env.kube (rejected_session env ann request store) store).0 ≡ ok tt))
reject_iff_example = reject_iff env ann request store

running_conflict : (review env bob approve running store).0.code ≡ 400
unfolding review last_kind
running_conflict = refl

drop_iff_example :
    (((drop env ann running store).0.code ≡ 200) ↔ (
      (get_email ann ≡ ok running.spec.user)
      × ((update_session_status env.kube (dropped_session env ann running store) store).0 ≡ ok tt)))
    × ((drop env ann running store).0.code ≡ 200
        → (drop env ann running store).0.body ≡ Body.one (dropped_session env ann running store))
drop_iff_example = drop_iff env ann running store

is_session_approver_iff_example : (is_session_approver env bob request store ≡ true) ↔ (
    (email : Str) × (get_email bob ≡ ok email)
    × ((groups : List Str) × (approver_groups env bob email request.spec.cluster store ≡ ok groups)
        × ((escs : List Escalation) × (get_cluster_escalations env.kube env.config
                request.spec.cluster store
              ≡ ok escs)
            × ((esc : Escalation) × In esc escs × Authorises env email groups request store esc))))
is_session_approver_iff_example = is_session_approver_iff env bob request store
