-- ===== src/Tests/Lives.antt =====
-- A session that is requested, approved and then dropped by its owner.
use telekom_k8s_breakglass.Prelude.{[], ◌∷◌, ◌≡◌, ◌≤◌, ◌<◌, refl, arith}
use telekom_k8s_breakglass.Api.Session.{SessionStatus, Condition, approve}
use telekom_k8s_breakglass.Session.Review.{approved_status}
use telekom_k8s_breakglass.Session.Owner.{withdrawn_status}
use telekom_k8s_breakglass.Session.Lifecycle.{approving, withdrawing, with_condition, IsWellFormed}
use telekom_k8s_breakglass.Session.Lifecycle.Closed.{
  IsNew, Leads, stays, steps, approvals, life-IsWellFormed, closed_stays, approved_at_most_once,
}
use telekom_k8s_breakglass.Tests.Samples.{Store, blank_status, request, env, bob}

abbrev store : Store
store = request ∷ []

abbrev approval : Condition
approval = record { kind = approve; last_transition = 10; reason = []; message = [] }

blank-IsNew : IsNew blank_status
blank-IsNew = record {
  is_pending = refl;
  not_approved = refl;
  not_rejected = refl;
  not_expiring = refl;
}

abbrev status_approved : SessionStatus
status_approved = with_condition (approved_status env bob request) approval

to_approved : Leads Store request blank_status status_approved
to_approved = steps env (omega arith) stays (approving bob approval refl)

abbrev status_withdrawn : SessionStatus
status_withdrawn = withdrawn_status env.now "Session withdrawn by requester" blank_status

to_withdrawn : Leads Store request blank_status status_withdrawn
unfolding telekom_k8s_breakglass.Session.is_session_pending_approval
to_withdrawn = steps env (omega arith) stays (withdrawing "Session withdrawn by requester" refl)

life-IsWellFormed_example : IsWellFormed status_approved
life-IsWellFormed_example = life-IsWellFormed blank_status status_approved blank-IsNew to_approved

approved_at_most_once_example :
    (approvals to_approved ≤ 1) × (0 < status_approved.expires_at → approvals to_approved ≡ 1)
approved_at_most_once_example =
    approved_at_most_once blank_status status_approved blank-IsNew to_approved

withdrawn-IsWellFormed : IsWellFormed status_withdrawn
withdrawn-IsWellFormed = life-IsWellFormed blank_status status_withdrawn blank-IsNew to_withdrawn

withdrawn-closed : 0 < status_withdrawn.rejected_at
unfolding withdrawn_status
withdrawn-closed = omega arith

withdrawn_again : Leads Store request status_withdrawn status_withdrawn
withdrawn_again = stays

closed_stays_example : 0 < status_withdrawn.rejected_at
closed_stays_example =
    closed_stays status_withdrawn status_withdrawn withdrawn-IsWellFormed withdrawn-closed
      withdrawn_again
