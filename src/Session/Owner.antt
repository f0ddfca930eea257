-- ===== src/Session/Owner.antt =====
-- pkg/breakglass/session_controller.go: the owner's endpoints, handleWithdrawMyRequest and
-- handleDropMySession.
pub mod Outcome
use telekom_k8s_breakglass.Prelude.{
  Bool, true, false, not, ◌&&◌, List, [], ◌∷◌, ◌++◌, Str, String, codes, str_eq, Result, ok, err,
  if◌then◌else◌,
}
use telekom_k8s_breakglass.Api.Session.{
  Time, is_zero, Session, SessionStatus, SessionState, state_eq, Condition, ConditionType, approved,
  expired, withdrawn, expire, cancel,
}
use telekom_k8s_breakglass.Http.{Response, Body, status, json}
use telekom_k8s_breakglass.Env.{Env, Context, get_email}
use telekom_k8s_breakglass.Session.{is_session_pending_approval}
use telekom_k8s_breakglass.Session.Manager.{get_session_by_name, update_session_status}

unfoldable pub condition_at : Time → ConditionType → String → Condition
condition_at now kind message = record {
  kind = kind;
  last_transition = now;
  reason = codes "EditedByApprover";
  message = codes message;
}

-- The common part of a withdrawal and of dropping a session that is not approved.
unfoldable pub withdrawn_status : Time → String → SessionStatus → SessionStatus
unfolding condition_at
withdrawn_status now message st = record st {
  approved_at = 0;
  expires_at = 0;
  rejected_at = now;
  state = withdrawn;
  reason_ended = codes "withdrawn";
  approver = [];
  approvers = [];
  conditions = st.conditions ++ condition_at now cancel message ∷ [];
}

-- An approved session that is dropped ends at once.
unfoldable pub dropped_status : Time → SessionStatus → SessionStatus
unfolding condition_at
dropped_status now st = record st {
  expires_at = now;
  state = expired;
  rejected_at = now;
  conditions = st.conditions ++ condition_at now expire "Session dropped by owner" ∷ [];
  reason_ended = codes "dropped";
}

module _ {W : Type 0} (env : Env W) where
  -- The write of a new status, and the answer.
  unfoldable pub store : Session → SessionStatus → W → Response × W
  store bs st w =
      let bs' = record bs { status = st } in
      let (r, w') = update_session_status env.kube bs' w in
      elim r [ ok _ ↦ (json 200 (Body.one bs'), w') | err e ↦ (status 500, w') ]

  -- handleWithdrawMyRequest from the loaded session on.
  unfoldable pub withdraw : Context → Session → W → Response × W
  unfolding withdrawn_status store
  withdraw c bs w = elim (get_email c) [
    | err e ↦ (status 500, w)
    | ok requester ↦
        if not (str_eq bs.spec.user requester)
        then (status 401, w)
        else if not (is_session_pending_approval bs)
        then (json 400 (Body.text (codes "Session is not pending and cannot be withdrawn")), w)
        else store bs (withdrawn_status env.now "Session withdrawn by requester" bs.status) w
  ]

  unfoldable pub handle_withdraw : Context → W → Response × W
  unfolding withdraw
  handle_withdraw c w = elim (get_session_by_name env.kube c.param_name w) [
    | err e ↦ (status 500, w)
    | ok bs ↦ withdraw c bs w
  ]

  -- handleDropMySession from the loaded session on.
  unfoldable pub drop : Context → Session → W → Response × W
  unfolding withdrawn_status dropped_status store
  drop c bs w = elim (get_email c) [
    | err e ↦ (status 500, w)
    | ok requester ↦
        if not (str_eq bs.spec.user requester)
        then (status 401, w)
        else store bs
            (if state_eq bs.status.state approved && not (is_zero bs.status.approved_at)
              then dropped_status env.now bs.status
              else withdrawn_status env.now "Session dropped by owner" bs.status)
            w
  ]

  unfoldable pub handle_drop : Context → W → Response × W
  unfolding drop
  handle_drop c w = elim (get_session_by_name env.kube c.param_name w) [
    | err e ↦ (status 500, w)
    | ok bs ↦ drop c bs w
  ]
