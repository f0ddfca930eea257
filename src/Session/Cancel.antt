-- ===== src/Session/Cancel.antt =====
-- pkg/breakglass/session_controller.go: handleApproverCancel.
pub mod Outcome
use telekom_k8s_breakglass.Prelude.{
  Bool, true, false, not, ◌&&◌, ◌||◌, List, [], ◌∷◌, ◌++◌, Str, codes, Result, ok, err,
  if◌then◌else◌,
}
use telekom_k8s_breakglass.Api.Session.{
  is_zero, Session, SessionStatus, state_eq, approved, expired, expire, Time,
}
use telekom_k8s_breakglass.Http.{Response, Body, status, json}
use telekom_k8s_breakglass.Env.{Env, Context, email_or_empty}
use telekom_k8s_breakglass.Approval.{is_session_approver}
use telekom_k8s_breakglass.Session.{record_approver}
use telekom_k8s_breakglass.Session.Manager.{get_session_by_name}
use telekom_k8s_breakglass.Session.Owner.{condition_at, store}

-- A running session that an approver cancels ends at once.
unfoldable pub cancelled_status : Time → Str → SessionStatus → SessionStatus
unfolding condition_at
cancelled_status now email st =
    let st =
      record_approver email (record st { expires_at = now; state = expired; rejected_at = now }) in
    record st {
      conditions = st.conditions ++ condition_at now expire "Session canceled by approver" ∷ [];
      reason_ended = codes "canceled";
    }

module _ {W : Type 0} (env : Env W) where
  -- handleApproverCancel from the loaded session on.
  unfoldable pub approver_cancel : Context → Session → W → Response × W
  unfolding cancelled_status store
  approver_cancel c bs w =
      if not (is_session_approver env c bs w)
      then (status 401, w)
      else if not (state_eq bs.status.state approved) || is_zero bs.status.approved_at
      then (
        json 400
            (Body.text (codes "Session is not active/approved and cannot be canceled by approver")),
        w,
      )
      else store env bs (cancelled_status env.now (email_or_empty c) bs.status) w

  unfoldable pub handle_approver_cancel : Context → W → Response × W
  unfolding approver_cancel
  handle_approver_cancel c w = elim (get_session_by_name env.kube c.param_name w) [
    | err e ↦ (status 500, w)
    | ok bs ↦ approver_cancel c bs w
  ]
