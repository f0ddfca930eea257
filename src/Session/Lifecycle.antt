-- ===== src/Session/Lifecycle.antt =====
-- The life of a session's status: the steps that the handlers and the periodic task take, each with
-- the guard of the code.
pub mod Handled
pub mod Written
pub mod Closed
use telekom_k8s_breakglass.Prelude.{
  ℕ, suc, ◌+◌, ◌≤◌, ◌<◌, ℤ, Bool, true, false, not, ◌&&◌, ◌||◌, List, [], ◌∷◌, ◌++◌, Str, String,
  codes, is_empty, ltb, Option, none, some, ◌≡◌, ◌≢◌, ◌⊎◌, inl, inr, refl, arith, if◌then◌else◌,
  contains,
}
use telekom_k8s_breakglass.Api.Session.{
  Time, is_zero, Session, SessionStatus, SessionState, state_eq, Condition, unset, pending,
  approved, rejected, expired, withdrawn, timeout,
}
use telekom_k8s_breakglass.Env.{Env, Context, email_or_empty}
use telekom_k8s_breakglass.Session.{
  is_session_pending_approval, is_session_approval_timed_out, is_session_expired, duration_or,
  record_approver, positive_or, default_valid_for,
}
use telekom_k8s_breakglass.Session.Review.{approved_status, rejected_status, record_reason}
use telekom_k8s_breakglass.Session.Owner.{withdrawn_status, dropped_status}
use telekom_k8s_breakglass.Session.Cancel.{cancelled_status}
use telekom_k8s_breakglass.Tasks.{timed_out_status, expired_status}

-- The status with another condition added.
abbrev pub with_condition : SessionStatus → Condition → SessionStatus
with_condition st c = record st { conditions = st.conditions ++ c ∷ [] }

-- A step of the session `bs` at the time of `env`, to a new status.
pub data Step {W : Type 0} (env : Env W) (bs : Session) : SessionStatus → Type 0 where
  approving :
      (c : Context) (cond : Condition)
      → bs.status.state ≡ pending
      → Step env bs (with_condition (approved_status env c bs) cond)
  rejecting :
      (c : Context) (cond : Condition)
      → bs.status.state ≡ pending
      → Step env bs (with_condition (rejected_status env c bs) cond)
  withdrawing :
      (message : String)
      → is_session_pending_approval bs ≡ true
      → Step env bs (withdrawn_status env.now message bs.status)
  dropping_running :
      bs.status.state ≡ approved
      → is_zero bs.status.approved_at ≡ false
      → Step env bs (dropped_status env.now bs.status)
  dropping_other :
      (message : String)
      → (state_eq bs.status.state approved && not (is_zero bs.status.approved_at)) ≡ false
      → Step env bs (withdrawn_status env.now message bs.status)
  cancelling :
      (email : Str)
      → bs.status.state ≡ approved
      → is_zero bs.status.approved_at ≡ false
      → Step env bs (cancelled_status env.now email bs.status)
  timing_out :
      is_session_approval_timed_out env.now bs ≡ true
      → Step env bs (timed_out_status env.now bs.status)
  running_out :
      bs.status.state ≡ approved
      → is_session_expired env.now bs ≡ true
      → Step env bs (expired_status env.now bs.status)

-- What holds of a status between two steps.
pub record IsWellFormed (st : SessionStatus) : Type 0 where
  pub unset_blank :
      st.state ≡ unset
      → (st.approved_at ≡ 0) × (st.rejected_at ≡ 0) × (st.expires_at ≡ 0) × (st.timeout_at ≡ 0)
  pub pending_open :
      st.state ≡ pending → (st.approved_at ≡ 0) × (st.rejected_at ≡ 0) × (st.expires_at ≡ 0)
  pub timeout_open :
      st.state ≡ timeout → (st.approved_at ≡ 0) × (st.rejected_at ≡ 0) × (st.expires_at ≡ 0)
  pub approved_running :
      st.state ≡ approved
      → (0 < st.approved_at)
        × (st.rejected_at ≡ 0)
        × (st.approved_at < st.expires_at)
        × (st.timeout_at ≡ 0)
  pub rejected_closed :
      st.state ≡ rejected → (st.approved_at ≡ 0) × (0 < st.rejected_at) × (st.expires_at ≡ 0)
  pub withdrawn_closed :
      st.state ≡ withdrawn → (st.approved_at ≡ 0) × (0 < st.rejected_at) × (st.expires_at ≡ 0)
  pub expired_closed : st.state ≡ expired → (0 < st.approved_at) × (0 < st.expires_at)

positive_or-pos : (default : Time) (d : Option ℤ) → 0 < default → 0 < positive_or default d
unfolding positive_or
positive_or-pos default d h = ground arith

duration_or-pos :
    (parse : Str → Option ℤ) (default : Time) (s : Str)
    → 0 < default
    → 0 < duration_or parse default s
unfolding duration_or
duration_or-pos parse default s h = ground (arith, positive_or-pos default (parse s) h)

-- Neither approved nor rejected: no expiry is set.
undecided-not_expiring :
    (st : SessionStatus) (s : SessionState)
    → st.state ≡ s
    → IsWellFormed st
    → st.approved_at ≡ 0
    → st.rejected_at ≡ 0
    → st.expires_at ≡ 0
undecided-not_expiring st unset e v a r = ground (arith, v.unset_blank e)
undecided-not_expiring st _ e v a r = ground arith

timing_out-IsWellFormed :
    (now : Time) (bs : Session)
    → IsWellFormed bs.status
    → is_session_approval_timed_out now bs ≡ true
    → IsWellFormed (timed_out_status now bs.status)
unfolding timed_out_status is_session_approval_timed_out
timing_out-IsWellFormed now bs v g =
    ground (arith, undecided-not_expiring bs.status bs.status.state refl v)

module _ {W : Type 0} (env : Env W) (bs : Session) where
  -- Every step of a session whose status is well formed, taken at a time after the zero time, leaves it
  -- well formed.
  pub Step-IsWellFormed :
      {st : SessionStatus} → 0 < env.now → IsWellFormed bs.status → Step env bs st → IsWellFormed st
  unfolding approved_status rejected_status withdrawn_status dropped_status cancelled_status
      timed_out_status expired_status record_approver
  Step-IsWellFormed h v (approving c cond g) = ground (
    arith,
    duration_or-pos env.parse_duration default_valid_for bs.spec.max_valid_for (omega arith),
  )
  Step-IsWellFormed h v (rejecting c cond g) = ground arith
  Step-IsWellFormed h v (withdrawing m g) = ground arith
  Step-IsWellFormed h v (dropping_running g a) = ground arith
  Step-IsWellFormed h v (dropping_other m g) = ground arith
  Step-IsWellFormed h v (cancelling e g a) = ground arith
  Step-IsWellFormed h v (timing_out g) = timing_out-IsWellFormed env.now bs v g
  Step-IsWellFormed h v (running_out g e) = ground arith
