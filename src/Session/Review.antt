-- ===== src/Session/Review.antt =====
-- pkg/breakglass/session_controller.go: setSessionStatus, which serves the approve and the reject
-- endpoints.
pub mod Outcome
use telekom_k8s_breakglass.Prelude.{
  ℕ, suc, ◌+◌, Bool, true, false, not, ◌&&◌, ◌||◌, List, [], ◌∷◌, ◌++◌, Str, String, codes, str_eq,
  is_empty, trim_space, Option, none, some, Result, ok, err, if◌then◌else◌, ◌==◌,
}
use telekom_k8s_breakglass.Api.Session.{
  Time, Session, SessionStatus, SessionState, state_eq, Condition, ConditionType, condition_eq,
  OwnerReference, pending, approved, rejected, expired, withdrawn, timeout, none_yet, idle, approve,
  reject, expire, cancel, unset,
}
use telekom_k8s_breakglass.Api.Escalation.{Escalation}
use telekom_k8s_breakglass.Http.{Response, Body, status, json}
use telekom_k8s_breakglass.Env.{Env, Context, get_email, email_or_empty}
use telekom_k8s_breakglass.Escalations.{get_cluster_group_escalations, update_escalation_status}
use telekom_k8s_breakglass.Approval.{is_session_approver}
use telekom_k8s_breakglass.Session.{
  is_session_pending_approval, default_valid_for, default_retain_for, duration_or, last_kind,
  record_approver,
}
use telekom_k8s_breakglass.Session.Manager.{get_session_by_name, update_session_status}

abbrev pub edited_by_approver : Str
edited_by_approver = codes "EditedByApprover"

-- The text of a condition type.
pub condition_text : ConditionType → Str
condition_text ConditionType.none_yet = []
condition_text ConditionType.idle = codes "Idle"
condition_text ConditionType.approve = codes "Approved"
condition_text ConditionType.reject = codes "Rejected"
condition_text ConditionType.expire = codes "Expired"
condition_text ConditionType.cancel = codes "Canceled"

pub state_text : SessionState → Str
state_text SessionState.unset = []
state_text SessionState.pending = codes "Pending"
state_text SessionState.approved = codes "Approved"
state_text SessionState.rejected = codes "Rejected"
state_text SessionState.expired = codes "Expired"
state_text SessionState.withdrawn = codes "Withdrawn"
state_text SessionState.timeout = codes "ApprovalTimeout"

-- Rejected, Withdrawn, Expired and Timeout.
pub is_terminal : SessionState → Bool
is_terminal st =
    state_eq st rejected || state_eq st withdrawn || state_eq st expired || state_eq st timeout

-- The precondition of an action on the state; the text is the error of a refusal.
pub precondition : ConditionType → SessionState → Option Str
unfolding is_terminal condition_text state_text
precondition ses_condition curr =
    if condition_eq ses_condition approve || condition_eq ses_condition reject
    then (if not (state_eq curr pending)
        then some (
            codes "session must be pending to perform "
            ++ condition_text ses_condition
            ++ codes "; current state: "
            ++ state_text curr)
        else none)
    else if is_terminal curr
    then some (
        codes "session is in terminal state " ++ state_text curr ++ codes " and cannot be modified")
    else none

-- `store approver reason if provided`
pub record_reason : Str → SessionStatus → SessionStatus
record_reason reason st =
    if is_empty (trim_space reason) then st else record st { approval_reason = reason }

-- The approval counter of one escalation: 1 at the first approval.
pub bump_approvals : Escalation → Escalation
bump_approvals esc = record esc {
  status = record (esc.status) {
    approval_count = if esc.status.approval_count == 0 then 1 else esc.status.approval_count + 1;
  };
}

-- The requester may reject their own pending session.
pub allow_owner_reject : Context → ConditionType → Session → Bool
allow_owner_reject c ses_condition bs =
    if condition_eq ses_condition reject
    then elim (get_email c) [
      | ok email ↦ str_eq email bs.spec.user && is_session_pending_approval bs
      | err e ↦ false
    ]
    else false

module _ {W : Type 0} (env : Env W) where
  -- The case of an approval in the switch, less the escalation's counter.
  unfoldable pub approved_status : Context → Session → SessionStatus
  unfolding record_reason
  approved_status c bs = record_reason c.reason (
      record_approver (email_or_empty c) (record (bs.status) {
        rejected_at = 0;
        approved_at = env.now;
        expires_at =
            env.now + duration_or env.parse_duration default_valid_for bs.spec.max_valid_for;
        retained_until =
            env.now + duration_or env.parse_duration default_retain_for bs.spec.retain_for;
        timeout_at = 0;
        state = approved;
      }))

  -- The case of a rejection in the switch.
  unfoldable pub rejected_status : Context → Session → SessionStatus
  unfolding record_reason
  rejected_status c bs = record_reason c.reason (
      record_approver (email_or_empty c) (record (bs.status) {
        approved_at = 0;
        expires_at = 0;
        timeout_at = 0;
        rejected_at = env.now;
        state = rejected;
        reason_ended = codes "rejected";
      }))

  -- The update of the first escalation of that name.
  unfoldable pub count_first : Str → List Escalation → W → W
  unfolding bump_approvals
  count_first name [] w = w
  count_first name (ee ∷ escs) w =
      let rest = count_first name escs w in
      if str_eq ee.name name
      then (update_escalation_status env.kube env.config (bump_approvals ee) w).1
      else rest

  -- The loop over the owner references that counts an approval on the escalation.
  unfoldable pub count_approval : Str → List OwnerReference → W → W
  unfolding count_first
  count_approval cluster [] w = w
  count_approval cluster (ref ∷ refs) w = count_approval cluster refs (
      if str_eq ref.kind (codes "BreakglassEscalation")
      then elim (get_cluster_group_escalations env.kube env.config cluster [] w) [
        | ok escs ↦ count_first ref.name escs w
        | err e ↦ w
      ]
      else w)

  pub review_condition : Context → ConditionType → Condition
  review_condition c ses_condition = record {
    kind = ses_condition;
    last_transition = env.now;
    reason = edited_by_approver;
    message =
        codes "User "
        ++ env.quote (email_or_empty c)
        ++ codes " set session to "
        ++ condition_text ses_condition;
  }

  -- The end of the handler: the new condition, the write, the answer.
  pub finish : Context → ConditionType → Session → SessionStatus → W → Response × W
  unfolding review_condition
  finish c ses_condition bs st w =
      let bs' = record bs {
        status = record st { conditions = st.conditions ++ review_condition c ses_condition ∷ [] };
      } in
      let (r, w') = update_session_status env.kube bs' w in
      elim r [ ok _ ↦ (json 200 (Body.one bs'), w') | err e ↦ (status 500, w') ]

  -- The switch over the requested condition.
  pub apply_review : Context → ConditionType → Session → W → Response × W
  unfolding approved_status rejected_status count_approval finish
  apply_review c ConditionType.approve bs w =
      finish c approve bs (approved_status c bs)
        (count_approval bs.spec.cluster bs.owner_references w)
  apply_review c ConditionType.reject bs w = finish c reject bs (rejected_status c bs) w
  apply_review c ConditionType.none_yet bs w = (status 500, w)
  apply_review c ConditionType.idle bs w = (status 500, w)
  apply_review c ConditionType.expire bs w = (status 500, w)
  apply_review c ConditionType.cancel bs w = (status 500, w)

  -- setSessionStatus from the loaded session on.
  unfoldable pub review : Context → ConditionType → Session → W → Response × W
  unfolding apply_review precondition
  review c ses_condition bs w =
      if condition_eq (last_kind bs.status.conditions) ses_condition
      then (json 409 (Body.conflict (codes "session already in requested state") bs), w)
      else elim (precondition ses_condition bs.status.state) [
        | some reason ↦ (json 400 (Body.conflict reason bs), w)
        | none ↦
            if not (allow_owner_reject c ses_condition bs) && not (is_session_approver env c bs w)
            then (status 401, w)
            else apply_review c ses_condition bs w
      ]

  -- setSessionStatus
  unfoldable pub set_session_status : Context → ConditionType → W → Response × W
  unfolding review
  set_session_status c ses_condition w = elim (get_session_by_name env.kube c.param_name w) [
    | err e ↦ (status 500, w)
    | ok bs ↦ review c ses_condition bs w
  ]

  -- handleApproveBreakglassSession, handleRejectBreakglassSession
  unfoldable pub handle_approve : Context → W → Response × W
  unfolding set_session_status
  handle_approve c w = set_session_status c approve w

  unfoldable pub handle_reject : Context → W → Response × W
  unfolding set_session_status
  handle_reject c w = set_session_status c reject w
