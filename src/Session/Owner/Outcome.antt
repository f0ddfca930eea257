-- ===== src/Session/Owner/Outcome.antt =====
-- The answers of the owner's endpoints.
use telekom_k8s_breakglass.Prelude.{
  true, not, ◌&&◌, Str, str_eq, ok, ◌≡◌, ◌↔◌, inl, inr, arith, if◌then◌else◌, str_eq_iff,
  Result-cases, ok-injective,
}
use telekom_k8s_breakglass.Api.Session.{is_zero, Session, state_eq, approved}
use telekom_k8s_breakglass.Http.{Body}
use telekom_k8s_breakglass.Env.{Env, Context, get_email}
use telekom_k8s_breakglass.Session.{is_session_pending_approval}
use telekom_k8s_breakglass.Session.Manager.{update_session_status}
use telekom_k8s_breakglass.Session.Owner.{withdrawn_status, dropped_status, withdraw, drop}

module _ {W : Type 0} (env : Env W) (c : Context) (bs : Session) (w : W) where
  abbrev pub withdrawn_session : Session
  withdrawn_session = record bs {
    status = withdrawn_status env.now "Session withdrawn by requester" bs.status;
  }

  -- What dropping stores: a running session expires, any other is withdrawn.
  abbrev pub dropped_session : Session
  dropped_session = record bs {
    status =
        if state_eq bs.status.state approved && not (is_zero bs.status.approved_at)
        then dropped_status env.now bs.status
        else withdrawn_status env.now "Session dropped by owner" bs.status;
  }

  is_owner_iff :
      {email : Str}
      → get_email c ≡ ok email
      → (str_eq bs.spec.user email ≡ true) ↔ (get_email c ≡ ok bs.spec.user)
  is_owner_iff {email} e = (
    λ h. ground (arith, (str_eq_iff bs.spec.user email).0),
    λ h.
        ground
          (arith, (str_eq_iff bs.spec.user email).1, ok-injective {a = email} {b = bs.spec.user}),
  )

  -- A withdrawal is answered with 200 exactly when the caller is the session's requester, the request is
  -- neither approved nor rejected, and the write succeeds; the answer then carries the withdrawn session.
  pub withdraw_iff :
      (((withdraw env c bs w).0.code ≡ 200) ↔ (
        (get_email c ≡ ok bs.spec.user)
        × (is_session_pending_approval bs ≡ true)
        × ((update_session_status env.kube withdrawn_session w).0 ≡ ok tt)))
      × ((withdraw env c bs w).0.code ≡ 200
          → (withdraw env c bs w).0.body ≡ Body.one withdrawn_session)
  unfolding withdraw
  withdraw_iff = elim (Result-cases (get_email c)) [
    | inl (email, e) ↦ (
      (λ h. ground (arith, (is_owner_iff e).0), λ h. ground (arith, (is_owner_iff e).1)),
      λ h. ground arith,
    )
    | inr (x, e) ↦ ((λ h. ground arith, λ h. ground arith), λ h. ground arith)
  ]

  -- Dropping is answered with 200 exactly when the caller is the session's requester and the write
  -- succeeds, whatever the session's state; the answer then carries the dropped session.
  pub drop_iff :
      (((drop env c bs w).0.code ≡ 200) ↔ (
        (get_email c ≡ ok bs.spec.user)
        × ((update_session_status env.kube dropped_session w).0 ≡ ok tt)))
      × ((drop env c bs w).0.code ≡ 200 → (drop env c bs w).0.body ≡ Body.one dropped_session)
  unfolding drop
  drop_iff = elim (Result-cases (get_email c)) [
    | inl (email, e) ↦ (
      (λ h. ground (arith, (is_owner_iff e).0), λ h. ground (arith, (is_owner_iff e).1)),
      λ h. ground arith,
    )
    | inr (x, e) ↦ ((λ h. ground arith, λ h. ground arith), λ h. ground arith)
  ]
