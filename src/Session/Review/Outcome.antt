-- ===== src/Session/Review/Outcome.antt =====
-- The answers of setSessionStatus.
use telekom_k8s_breakglass.Prelude.{
  true, false, ok, ◌≡◌, ◌≢◌, ◌↔◌, ◌⊎◌, inl, inr, arith, str_eq_iff, Result-cases, ok-injective,
}
use telekom_k8s_breakglass.Api.Session.{
  Session, ConditionType, condition_eq, pending, approve, reject,
}
use telekom_k8s_breakglass.Kube.{Written}
use telekom_k8s_breakglass.Http.{Body}
use telekom_k8s_breakglass.Env.{Env, Context, get_email}
use telekom_k8s_breakglass.Approval.{is_session_approver}
use telekom_k8s_breakglass.Session.Lifecycle.{with_condition}
use telekom_k8s_breakglass.Session.{is_session_pending_approval, last_kind}
use telekom_k8s_breakglass.Session.Manager.{update_session_status}
use telekom_k8s_breakglass.Session.Review.{
  approved_status, rejected_status, review_condition, count_approval, allow_owner_reject, review,
}

module _ {W : Type 0} (env : Env W) (c : Context) (bs : Session) (w : W) where
  -- The session that an approval and a rejection store.
  abbrev pub approved_session : Session
  approved_session = record bs {
    status = with_condition (approved_status env c bs) (review_condition env c approve);
  }

  abbrev pub rejected_session : Session
  rejected_session = record bs {
    status = with_condition (rejected_status env c bs) (review_condition env c reject);
  }

  -- The write that an approval makes, after the approval was counted.
  abbrev pub approval_write : Written W
  approval_write =
      update_session_status env.kube approved_session
        (count_approval env bs.spec.cluster bs.owner_references w)

  -- An approval is answered with 200 exactly when the session is pending, its last condition is not an
  -- approval, the caller is an approver of it, and the write of its new status succeeds. A reason is
  -- not among the conditions, also where the escalation makes the approver's reason mandatory.
  pub approve_iff : ((review env c approve bs w).0.code ≡ 200) ↔ (
      (condition_eq (last_kind bs.status.conditions) approve ≡ false)
      × (bs.status.state ≡ pending)
      × (is_session_approver env c bs w ≡ true)
      × (approval_write.0 ≡ ok tt))
  unfolding review allow_owner_reject
  approve_iff = (λ h. ground arith, λ h. ground arith)

  -- The answer with 200 to an approval carries the session with the status of an approval, and the
  -- cluster is as the write left it.
  pub approve_result :
      (review env c approve bs w).0.code ≡ 200
      → ((review env c approve bs w).0.body ≡ Body.one approved_session)
        × ((review env c approve bs w).1 ≡ approval_write.1)
  unfolding review allow_owner_reject
  approve_result h = ground arith

  allow_owner_reject_iff :
      (allow_owner_reject c reject bs ≡ true)
      ↔ ((get_email c ≡ ok bs.spec.user) × (is_session_pending_approval bs ≡ true))
  unfolding allow_owner_reject
  allow_owner_reject_iff = elim (Result-cases (get_email c)) [
    | inl (email, e) ↦ (
      λ h. ground (arith, (str_eq_iff email bs.spec.user).0),
      λ h.
          ground
            (arith, (str_eq_iff email bs.spec.user).1, ok-injective {a = email} {b = bs.spec.user}),
    )
    | inr (x, e) ↦ (λ h. ground arith, λ h. ground arith)
  ]

  reject_tests : ((review env c reject bs w).0.code ≡ 200) ↔ (
      (condition_eq (last_kind bs.status.conditions) reject ≡ false)
      × (bs.status.state ≡ pending)
      × ((allow_owner_reject c reject bs ≡ true) ⊎ (is_session_approver env c bs w ≡ true))
      × ((update_session_status env.kube rejected_session w).0 ≡ ok tt))
  unfolding review
  reject_tests = (λ h. ground arith, λ h. ground arith)

  -- A rejection is answered with 200 exactly when the session is pending, its last condition is not a
  -- rejection, the caller is its own requester with the request still open or an approver of it, and
  -- the write of its new status succeeds. A reason is not among the conditions, also where the
  -- escalation makes it mandatory, and the requester may reject also where self-approval is blocked.
  pub reject_iff : ((review env c reject bs w).0.code ≡ 200) ↔ (
      (condition_eq (last_kind bs.status.conditions) reject ≡ false)
      × (bs.status.state ≡ pending)
      × (((get_email c ≡ ok bs.spec.user) × (is_session_pending_approval bs ≡ true))
          ⊎ (is_session_approver env c bs w ≡ true))
      × ((update_session_status env.kube rejected_session w).0 ≡ ok tt))
  reject_iff = (
    λ h.
        let (a, b, d, e) = reject_tests.0 h in
        (a, b, elim d [ inl own ↦ inl (allow_owner_reject_iff.0 own) | inr ap ↦ inr ap ], e),
    λ (a, b, d, e).
        reject_tests.1
          (a, b, elim d [ inl own ↦ inl (allow_owner_reject_iff.1 own) | inr ap ↦ inr ap ], e),
  )

  -- The answer with 200 to a rejection carries the session with the status of a rejection.
  pub reject_result :
      (review env c reject bs w).0.code ≡ 200
      → (review env c reject bs w).0.body ≡ Body.one rejected_session
  unfolding review
  reject_result h = ground arith

  -- A review that is refused, with an answer other than 200 and 500, leaves the cluster as it was.
  pub refused_unchanged :
      (kind : ConditionType)
      → (review env c kind bs w).0.code ≢ 200
      → (review env c kind bs w).0.code ≢ 500
      → (review env c kind bs w).1 ≡ w
  unfolding review allow_owner_reject
  refused_unchanged kind h k = ground arith
