-- ===== src/Session.antt =====
-- pkg/breakglass: the tests on a session's status, and the durations of its specification. The clock's
-- reading `now` is an argument.
pub mod Manager
pub mod Review
pub mod Owner
pub mod Cancel
pub mod Listing
pub mod Request
pub mod Lifecycle
pub mod Endpoints
pub mod Uncounted
use telekom_k8s_breakglass.Prelude.{
  ℕ, zero, suc, ◌*◌, ℤ, pos, negsuc, Bool, true, false, not, ◌&&◌, ◌||◌, List, [], ◌∷◌, Str, str_eq,
  is_empty, contains, ◌++◌, ltb, ◌==◌, Option, none, some, if◌then◌else◌,
}
use telekom_k8s_breakglass.Api.Session.{
  Time, is_zero, Session, SessionStatus, Condition, ConditionType, none_yet,
}

-- IsSessionPendingApproval
unfoldable pub is_session_pending_approval : Session → Bool
is_session_pending_approval s = is_zero s.status.approved_at && is_zero s.status.rejected_at

-- IsSessionApprovalTimedOut (session_approval_timeout.go)
unfoldable pub is_session_approval_timed_out : Time → Session → Bool
unfolding is_session_pending_approval
is_session_approval_timed_out now s =
    is_session_pending_approval s
    && not (is_zero s.status.timeout_at)
    && ltb s.status.timeout_at now

-- IsSessionRetained: true once the retention has passed.
unfoldable pub is_session_retained : Time → Session → Bool
is_session_retained now s = ltb s.status.retained_until now

-- IsSessionExpired
unfoldable pub is_session_expired : Time → Session → Bool
is_session_expired now s = not (is_zero s.status.expires_at) && ltb s.status.expires_at now

-- IsSessionValid
pub is_session_valid : Time → Session → Bool
unfolding is_session_expired
is_session_valid now s = not (is_session_expired now s)

-- IsSessionActive
unfoldable pub is_session_active : Time → Session → Bool
unfolding is_session_valid
is_session_active now s = is_session_valid now s && is_zero s.status.rejected_at

abbrev pub hour : Time
hour = 3600000000000

-- DefaultValidForDuration, MonthDuration, DefaultRetainForDuration
abbrev pub default_valid_for : Time
default_valid_for = hour

abbrev pub month : Time
month = hour * 24 * 30

abbrev pub default_retain_for : Time
default_retain_for = month

-- The value of a duration field: the default, unless the field parses to a positive duration.
pub positive_or : Time → Option ℤ → Time
positive_or default none = default
positive_or default (some (pos zero)) = default
positive_or default (some (pos (suc d))) = suc d
positive_or default (some (negsuc d)) = default

unfoldable pub duration_or : (Str → Option ℤ) → Time → Str → Time
unfolding positive_or
duration_or parse default s = if is_empty s then default else positive_or default (parse s)

-- `bs.Status.Conditions[l-1].Type`, or the empty type.
unfoldable pub last_kind : List Condition → ConditionType
last_kind [] = none_yet
last_kind (c ∷ []) = c.kind
last_kind (c ∷ d ∷ cs) = last_kind (d ∷ cs)

-- Records who approved, rejected or cancelled; an empty email records nothing.
unfoldable pub record_approver : Str → SessionStatus → SessionStatus
record_approver email st = if is_empty email then st else record st {
  approver = email;
  approvers = if contains st.approvers email then st.approvers else st.approvers ++ email ∷ [];
}
