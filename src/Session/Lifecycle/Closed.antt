-- ===== src/Session/Lifecycle/Closed.antt =====
-- What stays so over the life of a session.
use telekom_k8s_breakglass.Prelude.{ℕ, ◌+◌, ◌≤◌, ◌<◌, ◌≡◌, ◌≢◌, ◌⊎◌, inl, inr, refl, arith}
use telekom_k8s_breakglass.Api.Session.{Session, SessionStatus, pending}
use telekom_k8s_breakglass.Env.{Env}
use telekom_k8s_breakglass.Session.{is_session_approval_timed_out, record_approver}
use telekom_k8s_breakglass.Session.Review.{approved_status, rejected_status}
use telekom_k8s_breakglass.Session.Owner.{withdrawn_status, dropped_status}
use telekom_k8s_breakglass.Session.Cancel.{cancelled_status}
use telekom_k8s_breakglass.Tasks.{timed_out_status, expired_status}
use telekom_k8s_breakglass.Session.Lifecycle.{
  Step, approving, dropping_running, cancelling, running_out, IsWellFormed, Step-IsWellFormed,
}

-- The status of a new request.
pub record IsNew (st : SessionStatus) : Type 0 where
  pub is_pending : st.state ≡ pending
  pub not_approved : st.approved_at ≡ 0
  pub not_rejected : st.rejected_at ≡ 0
  pub not_expiring : st.expires_at ≡ 0

-- The statuses that the session `bs` may come to, by steps at any times after the zero time.
pub data Leads (W : Type 0) (bs : Session) (st : SessionStatus) : SessionStatus → Type 0 where
  stays : Leads W bs st st
  steps :
      {t u : SessionStatus} (env : Env W)
      → 0 < env.now
      → Leads W bs st t
      → Step env (record bs { status = t }) u
      → Leads W bs st u

new-IsWellFormed : (st : SessionStatus) → IsNew st → IsWellFormed st
new-IsWellFormed st n = ground arith

-- How often a sequence of steps approves the session.
abbrev pub approval_count :
    {W : Type 0} {env : Env W} {bs : Session} {st : SessionStatus} → Step env bs st → ℕ
approval_count (approving c cond g) = 1
approval_count _ = 0

abbrev pub approvals : {W : Type 0} {bs : Session} {st t : SessionStatus} → Leads W bs st t → ℕ
approvals stays = 0
approvals (steps env h l s) = approvals l + approval_count s

Step-ne-pending :
    {W : Type 0} {env : Env W} {bs : Session} {st : SessionStatus}
    → Step env bs st
    → st.state ≢ pending
unfolding approved_status rejected_status withdrawn_status dropped_status cancelled_status
    timed_out_status expired_status record_approver
Step-ne-pending (approving c cond g) e = ground arith
Step-ne-pending _ e = ground arith

module _ {W : Type 0} (env : Env W) (bs : Session) where
  Step-closed :
      {u : SessionStatus}
      → 0 < env.now
      → IsWellFormed bs.status
      → 0 < bs.status.rejected_at
      → Step env bs u
      → 0 < u.rejected_at
  unfolding approved_status rejected_status withdrawn_status dropped_status cancelled_status
      timed_out_status expired_status record_approver is_session_approval_timed_out
  Step-closed h v r (approving c cond g) = ground arith
  Step-closed h v r _ = ground arith

  Step-approval_count :
      {u : SessionStatus} (s : Step env bs u)
      → (approval_count s ≡ 0) ⊎ ((approval_count s ≡ 1) × (bs.status.state ≡ pending))
  Step-approval_count (approving c cond g) = inr (refl, g)
  Step-approval_count _ = inl refl

  Step-expiring :
      {u : SessionStatus} (s : Step env bs u)
      → IsWellFormed bs.status
      → 0 < u.expires_at
      → (0 < bs.status.expires_at) ⊎ (approval_count s ≡ 1)
  unfolding rejected_status withdrawn_status dropped_status cancelled_status timed_out_status
      expired_status record_approver
  Step-expiring (approving c cond g) v e = inr refl
  Step-expiring (dropping_running g a) v e = ground arith
  Step-expiring (cancelling email g a) v e = ground arith
  Step-expiring (running_out g a) v e = ground arith
  Step-expiring _ v e = ground arith

module _ {W : Type 0} {bs : Session} where
  Leads-IsWellFormed : {st t : SessionStatus} → IsWellFormed st → Leads W bs st t → IsWellFormed t
  Leads-IsWellFormed v stays = v
  Leads-IsWellFormed v (steps {t} env h l s) =
      Step-IsWellFormed env (record bs { status = t }) h (Leads-IsWellFormed v l) s

  -- From the status of a new request every sequence of steps leads to a well-formed status.
  pub life-IsWellFormed : (st t : SessionStatus) → IsNew st → Leads W bs st t → IsWellFormed t
  life-IsWellFormed st t n l = Leads-IsWellFormed (new-IsWellFormed st n) l

  -- Once a well-formed status is closed, by a rejection, a withdrawal, a drop or a cancellation, it
  -- stays so: its rejection time is never cleared again.
  pub closed_stays :
      (st t : SessionStatus)
      → IsWellFormed st
      → 0 < st.rejected_at
      → Leads W bs st t
      → 0 < t.rejected_at
  closed_stays st _ v r stays = r
  closed_stays st _ v r (steps {t} env h l s) =
      Step-closed env (record bs { status = t }) h (Leads-IsWellFormed v l)
        (closed_stays st t v r l) s

  pending-approvals :
      {st t : SessionStatus} (l : Leads W bs st t) → t.state ≡ pending → approvals l ≡ 0
  pending-approvals stays e = refl
  pending-approvals (steps env h l s) e = absurd (Step-ne-pending s e)

  approved_once : {st t : SessionStatus} (l : Leads W bs st t) → approvals l ≤ 1
  approved_once stays = omega arith
  approved_once (steps {t} env h l s) =
      elim (Step-approval_count env (record bs { status = t }) s) [
        | inl e ↦ omega (arith, approved_once l)
        | inr (e, p) ↦ omega (arith, pending-approvals l p)
      ]

  approved_if_expiring :
      {st t : SessionStatus} (l : Leads W bs st t) → IsNew st → 0 < t.expires_at → 1 ≤ approvals l
  approved_if_expiring stays n e = ground arith
  approved_if_expiring (steps {t} env h l s) n e =
      elim (Step-expiring env (record bs { status = t }) s
        (Leads-IsWellFormed (new-IsWellFormed _ n) l) e) [
          | inl p ↦ omega (arith, approved_if_expiring l n p)
          | inr q ↦ omega arith
        ]

  -- From the status of a new request, no sequence of steps approves the session twice, and one that
  -- gives it an expiry time has approved it exactly once.
  pub approved_at_most_once :
      (st t : SessionStatus)
      → IsNew st
      → (l : Leads W bs st t) → (approvals l ≤ 1) × (0 < t.expires_at → approvals l ≡ 1)
  approved_at_most_once st t n l =
      (approved_once l, λ e. omega (arith, approved_once l, approved_if_expiring l n e))
