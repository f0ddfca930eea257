-- ===== src/Session/Endpoints/Entitled.antt =====
-- What an answer with 200 of an endpoint rests on: the token, the session and the caller's role.
use telekom_k8s_breakglass.Prelude.{
  true, Str, codes, ◌++◌, none, some, Result, ok, err, ◌≡◌, ◌≢◌, ◌⊎◌, inl, inr, refl, ap, ◌∙◌,
  arith, str_eq,
}
use telekom_k8s_breakglass.Api.Session.{Session, SessionStatus, pending, approved}
use telekom_k8s_breakglass.Http.{Response, Body}
use telekom_k8s_breakglass.Env.{Env, Context, get_email}
use telekom_k8s_breakglass.Auth.{
  Claims, Identity, KeySet, Passage, next, aborted, middleware, identity_of,
}
use telekom_k8s_breakglass.Auth.Passed.{MayUse, middleware_sound}
use telekom_k8s_breakglass.Approval.{is_session_approver}
use telekom_k8s_breakglass.Session.{is_session_pending_approval}
use telekom_k8s_breakglass.Session.Manager.{get_session_by_name}
use telekom_k8s_breakglass.Session.Review.{handle_approve, handle_reject, set_session_status}
use telekom_k8s_breakglass.Session.Review.Outcome.{approve_iff, reject_iff}
use telekom_k8s_breakglass.Session.Owner.{handle_withdraw, handle_drop}
use telekom_k8s_breakglass.Session.Owner.Outcome.{withdraw_iff, drop_iff}
use telekom_k8s_breakglass.Session.Cancel.{handle_approver_cancel}
use telekom_k8s_breakglass.Session.Cancel.Outcome.{approver_cancel_iff}
use telekom_k8s_breakglass.Session.Lifecycle.{Step}
use telekom_k8s_breakglass.Session.Lifecycle.Handled.{handle, handle-Step}
use telekom_k8s_breakglass.Session.Endpoints.{
  Action, approves, rejects, withdraws, drops, cancels, context_of, endpoint, continue, serve,
}

passage-cases :
    (p : Passage)
    → ((r : Response) × (p ≡ aborted r))
      ⊎ ((p ≡ next none) ⊎ ((id : Identity) × (p ≡ next (some id))))
passage-cases (next none) = inr (inl refl)
passage-cases (next (some id)) = inr (inr (id, refl))
passage-cases (aborted r) = inl (r, refl)

module _ {W : Type 0} (env : Env W) where
  -- The caller's role, and the state of the session, that an endpoint demands.
  abbrev pub Entitled : Action → Context → Session → W → Type 0
  Entitled approves c bs w = (bs.status.state ≡ pending) × (is_session_approver env c bs w ≡ true)
  Entitled rejects c bs w =
      (bs.status.state ≡ pending)
      × ((get_email c ≡ ok bs.spec.user) ⊎ (is_session_approver env c bs w ≡ true))
  Entitled withdraws c bs w =
      (is_session_pending_approval bs ≡ true) × (get_email c ≡ ok bs.spec.user)
  Entitled drops c bs w = get_email c ≡ ok bs.spec.user
  Entitled cancels c bs w = (bs.status.state ≡ approved) × (is_session_approver env c bs w ≡ true)

  handle-Entitled :
      (a : Action) (c : Context) (bs : Session) (w : W)
      → (handle env a c bs w).0.code ≡ 200
      → Entitled a c bs w
  handle-Entitled approves c bs w h = let (_, s, t, _) = (approve_iff env c bs w).0 h in (s, t)
  handle-Entitled rejects c bs w h =
      let (_, s, t, _) = (reject_iff env c bs w).0 h in
      (s, elim t [ inl (own, _) ↦ inl own | inr t ↦ inr t ])
  handle-Entitled withdraws c bs w h = let (t, s, _) = (withdraw_iff env c bs w).0.0 h in (s, t)
  handle-Entitled drops c bs w h = ((drop_iff env c bs w).0.0 h).0
  handle-Entitled cancels c bs w h =
      let (t, s, _, _) = (approver_cancel_iff env c bs w).0.0 h in (s, t)

  -- The handler is that of the loaded session, or an answer with 500.
  loaded : Action → Context → W → Result Session → Response × W
  loaded a c w (ok bs) = handle env a c bs w
  loaded a c w (err e) = (record { code = 500; body = Body.empty }, w)

  endpoint-loaded :
      (a : Action) (c : Context) (w : W)
      → endpoint env a c w ≡ loaded a c w (get_session_by_name env.kube c.param_name w)
  unfolding endpoint loaded set_session_status handle_approve handle_reject handle_withdraw
      handle_drop handle_approver_cancel
  endpoint-loaded approves c w = ground arith
  endpoint-loaded rejects c w = ground arith
  endpoint-loaded withdraws c w = ground arith
  endpoint-loaded drops c w = ground arith
  endpoint-loaded cancels c w = ground arith

  loaded-ok :
      (a : Action) (c : Context) (w : W) (r : Result Session)
      → (loaded a c w r).0.code ≡ 200
      → (bs : Session) × (r ≡ ok bs) × (loaded a c w r ≡ handle env a c bs w)
  unfolding loaded
  loaded-ok a c w (ok bs) h = (bs, refl, refl)
  loaded-ok a c w (err e) h = ground arith

  -- What an answer with 200 to a caller shows: the session is stored under the name, the caller is
  -- entitled to the change, and the answer carries the session after a step of its life.
  abbrev pub Changed : Action → Context → W → Response → Type 0
  Changed a c w r =
      (bs : Session) × (get_session_by_name env.kube c.param_name w ≡ ok bs)
      × Entitled a c bs w
      × ((st : SessionStatus) × Step env bs st × (r.body ≡ Body.one (record bs { status = st })))

  endpoint-Changed :
      (a : Action) (c : Context) (w : W)
      → (endpoint env a c w).0.code ≡ 200
      → Changed a c w (endpoint env a c w).0
  endpoint-Changed a c w h =
      let found = get_session_by_name env.kube c.param_name w in
      let l = endpoint-loaded a c w in
      let (bs, e, q) = loaded-ok a c w found (rw l at h) in
      let k : (handle env a c bs w).0.code ≡ 200 = rw (l, q) at h in
      let (st, step, body) = handle-Step env a c bs w k in
      (bs, e, handle-Entitled a c bs w k, (st, step, ap (λ x. x.0.body) (l ∙ q) ∙ body))

  module _ {J : Type 0} (keys : KeySet J) where
    abbrev post : Str → J → Passage × J
    post header j = middleware keys (codes "POST") header j

    aborted-code :
        (header : Str) (j : J) (r : Response) → (post header j).0 ≡ aborted r → r.code ≢ 200
    unfolding middleware str_eq
    aborted-code header j r h q = ground arith

    not_bare : (header : Str) (j : J) → (post header j).0 ≢ next none
    unfolding middleware str_eq
    not_bare header j h = ground arith

    -- When an endpoint that changes a session answers a POST with 200, the request carries a bearer token
    -- that the key set verifies, as it was or after a refresh that an error about an unknown key asked
    -- for; the session of the path's name exists; the caller named by the token's claims is entitled to
    -- the change: a requester or an approver of the session, in the state that the endpoint demands; and
    -- the answer carries the session after one step of its life.
    pub serve_sound :
        (a : Action) (header name reason : Str) (j : J) (w : W)
        → (serve env keys a header name reason j w).0.0.code ≡ 200
        → (bearer : Str) × (claims : Claims) × (header ≡ codes "Bearer " ++ bearer)
          × (keys.parse bearer (serve env keys a header name reason j w).1 ≡ ok claims)
          × MayUse keys bearer j (serve env keys a header name reason j w).1
          × Changed a
              (context_of (some (identity_of claims)) name reason)
              w
              (serve env keys a header name reason j w).0.0
    unfolding serve continue
    serve_sound a header name reason j w h = elim (passage-cases (post header j).0) [
      | inl (r, e) ↦ absurd (aborted-code header j r e (rw e at h))
      | inr (inl e) ↦ absurd (not_bare header j e)
      | inr (inr (id, e)) ↦
          let (bearer, claims, s, v, u, same) =
            middleware_sound keys (codes "POST") header j (post header j).1 id
              (ap (λ x. (x, (post header j).1)) e) in
          let k : (endpoint env a (context_of (some (identity_of claims)) name reason) w).0.code
              ≡ 200 =
            rw (same) at (rw e at h) in
          (
            bearer,
            claims,
            s,
            v,
            u,
            rw (e, same)
                (endpoint-Changed a (context_of (some (identity_of claims)) name reason) w k),
          )
    ]
