-- ===== src/Session/Lifecycle/Handled.antt =====
-- The handlers refine the life of a session.
use telekom_k8s_breakglass.Prelude.{
  true, not, ◌&&◌, ◌≡◌, inl, inr, arith, Bool-cases, if◌then◌else◌,
}
use telekom_k8s_breakglass.Api.Session.{
  is_zero, Session, SessionStatus, state_eq, SessionState, approved, approve, reject,
}
use telekom_k8s_breakglass.Http.{Response, Body}
use telekom_k8s_breakglass.Env.{Env, Context, email_or_empty}
use telekom_k8s_breakglass.Session.Endpoints.{Action, approves, rejects, withdraws, drops, cancels}
use telekom_k8s_breakglass.Session.Review.{review, review_condition}
use telekom_k8s_breakglass.Session.Review.Outcome.{
  approve_iff, approve_result, reject_iff, reject_result,
}
use telekom_k8s_breakglass.Session.Owner.{withdraw, drop, dropped_status, withdrawn_status}
use telekom_k8s_breakglass.Session.Owner.Outcome.{withdraw_iff, drop_iff}
use telekom_k8s_breakglass.Session.Cancel.{approver_cancel}
use telekom_k8s_breakglass.Session.Cancel.Outcome.{approver_cancel_iff}
use telekom_k8s_breakglass.Session.Lifecycle.{
  Step, approving, rejecting, withdrawing, dropping_running, dropping_other, cancelling,
}

module _ {W : Type 0} (env : Env W) where
  -- The handler of an endpoint, from the loaded session on.
  abbrev pub handle : Action → Context → Session → W → Response × W
  handle approves c bs w = review env c approve bs w
  handle rejects c bs w = review env c reject bs w
  handle withdraws c bs w = withdraw env c bs w
  handle drops c bs w = drop env c bs w
  handle cancels c bs w = approver_cancel env c bs w

  state_eq-eq : (s t : SessionState) → state_eq s t ≡ true → s ≡ t
  state_eq-eq s t h = ground arith

  dropped-Step :
      (bs : Session)
      → Step env bs (
          if state_eq bs.status.state approved && not (is_zero bs.status.approved_at)
          then dropped_status env.now bs.status
          else withdrawn_status env.now "Session dropped by owner" bs.status)
  dropped-Step bs =
      elim (Bool-cases (state_eq bs.status.state approved && not (is_zero bs.status.approved_at))) [
        | inl e ↦ rw e (dropping_running (ground arith) (ground arith))
        | inr e ↦ rw e (dropping_other "Session dropped by owner" e)
      ]

  -- Whenever an endpoint answers with 200, the session that it answers with is the loaded one with a
  -- status that one step of the life of a session leads to; name, namespace, specification and owners
  -- are those of the loaded session.
  pub handle-Step :
      (a : Action) (c : Context) (bs : Session) (w : W)
      → (handle a c bs w).0.code ≡ 200
      → (st : SessionStatus) × Step env bs st
        × ((handle a c bs w).0.body ≡ Body.one (record bs { status = st }))
  handle-Step approves c bs w h = (
    _,
    approving c (review_condition env c approve) ((approve_iff env c bs w).0 h).1,
    (approve_result env c bs w h).0,
  )
  handle-Step rejects c bs w h = (
    _,
    rejecting c (review_condition env c reject) ((reject_iff env c bs w).0 h).1,
    reject_result env c bs w h,
  )
  handle-Step withdraws c bs w h = (
    _,
    withdrawing "Session withdrawn by requester" ((withdraw_iff env c bs w).0.0 h).1,
    (withdraw_iff env c bs w).1 h,
  )
  handle-Step drops c bs w h = (_, dropped-Step bs, (drop_iff env c bs w).1 h)
  handle-Step cancels c bs w h =
      let (_, s, z, _) = (approver_cancel_iff env c bs w).0.0 h in
      (_, cancelling (email_or_empty c) s z, (approver_cancel_iff env c bs w).1 h)
