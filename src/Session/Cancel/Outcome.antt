-- ===== src/Session/Cancel/Outcome.antt =====
-- The answers of handleApproverCancel.
use telekom_k8s_breakglass.Prelude.{true, false, ok, ◌≡◌, ◌↔◌, arith}
use telekom_k8s_breakglass.Api.Session.{is_zero, Session, approved}
use telekom_k8s_breakglass.Http.{Body}
use telekom_k8s_breakglass.Env.{Env, Context, email_or_empty}
use telekom_k8s_breakglass.Approval.{is_session_approver}
use telekom_k8s_breakglass.Session.Manager.{update_session_status}
use telekom_k8s_breakglass.Session.Cancel.{cancelled_status, approver_cancel}

module _ {W : Type 0} (env : Env W) (c : Context) (bs : Session) (w : W) where
  abbrev pub cancelled_session : Session
  cancelled_session = record bs { status = cancelled_status env.now (email_or_empty c) bs.status }

  -- A cancellation is answered with 200 exactly when the caller is an approver of the session, the
  -- session is approved and has its approval time, and the write succeeds; the answer then carries the
  -- cancelled session.
  pub approver_cancel_iff :
      (((approver_cancel env c bs w).0.code ≡ 200) ↔ (
        (is_session_approver env c bs w ≡ true)
        × (bs.status.state ≡ approved)
        × (is_zero bs.status.approved_at ≡ false)
        × ((update_session_status env.kube cancelled_session w).0 ≡ ok tt)))
      × ((approver_cancel env c bs w).0.code ≡ 200
          → (approver_cancel env c bs w).0.body ≡ Body.one cancelled_session)
  unfolding approver_cancel
  approver_cancel_iff = ((λ h. ground arith, λ h. ground arith), λ h. ground arith)
