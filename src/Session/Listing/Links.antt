-- ===== src/Session/Listing/Links.antt =====
-- The approval link (`?token=`) beside the handler that it leads to.
use telekom_k8s_breakglass.Prelude.{true, Str, ok, ◌≡◌, ◌≢◌, refl, sym, ◌∙◌}
use telekom_k8s_breakglass.Api.Session.{Session, pending, approve, timeout}
use telekom_k8s_breakglass.Http.{Body, json}
use telekom_k8s_breakglass.Env.{Env, Context}
use telekom_k8s_breakglass.Approval.{is_session_approver}
use telekom_k8s_breakglass.Session.{is_session_active, is_session_expired}
use telekom_k8s_breakglass.Session.Manager.{get_session_by_name}
use telekom_k8s_breakglass.Session.Review.{review}
use telekom_k8s_breakglass.Session.Review.Outcome.{approve_iff}
use telekom_k8s_breakglass.Session.Listing.{check_token}

module _ {W : Type 0} (env : Env W) (c : Context) (token : Str) (w : W) (ses : Session)
    (found : get_session_by_name env.kube token w ≡ ok ses)
    (open_ended : ses.status.expires_at ≡ 0) where
  -- Where an approval of the session without an expiry time would be answered with 200, the link shows
  -- the session as valid and as one that the caller can approve.
  pub approvable-link :
      (review env c approve ses w).0.code ≡ 200
      → check_token env c token w
        ≡ json 200 (Body.token_check true (is_session_active env.now ses) true)
  unfolding check_token is_session_expired
  approvable-link h =
      let (_, p, a, _) = (approve_iff env c ses w).0 h in
      rw (check_token, found, a, p, open_ended) refl

  -- The link shows a session whose approval has timed out, and that has no expiry time, as valid, but an
  -- approval of it is not answered with 200.
  pub timed_out-link :
      ses.status.state ≡ timeout
      → (check_token env c token w
          ≡ json 200 (
              Body.token_check
                (is_session_approver env c ses w)
                (is_session_active env.now ses)
                true))
        × ((review env c approve ses w).0.code ≢ 200)
  unfolding check_token is_session_expired
  timed_out-link t = (
    rw (check_token, found, t, open_ended) refl,
    λ h. let (_, p, _, _) = (approve_iff env c ses w).0 h in other (sym p ∙ t),
  )
    where
      other : pending ≢ timeout
      other q = cc
