-- ===== src/Session/Request/Create/Outcome.antt =====
-- What an admitted request leads to.
use telekom_k8s_breakglass.Prelude.{
  List, [], Str, Option, none, some, some-eq, Option-cases, ok, Result-cases, ok-injective, ◌≡◌,
  ◌≢◌, ◌⊎◌, inl, inr, refl, sym, ap, ◌∙◌, arith, subst,
}
use telekom_k8s_breakglass.Api.Session.{Session}
use telekom_k8s_breakglass.Api.Escalation.{Escalation}
use telekom_k8s_breakglass.Http.{Response, Body, status, json}
use telekom_k8s_breakglass.Env.{Env, Context}
use telekom_k8s_breakglass.Session.Lifecycle.Closed.{IsNew}
use telekom_k8s_breakglass.Session.Manager.{add_session, update_session_status}
use telekom_k8s_breakglass.Session.Request.{
  SessionRequest, turned_away, admitted, get_active_session, admit,
}
use telekom_k8s_breakglass.Session.Request.Create.{
  new_session, requested_status, count_request, zero_session, start, create, handle_request,
}
use telekom_k8s_breakglass.Session.Request.Admitted.{Admits, admit-cases}

none-ne-some : {A : Type 0} {v : A} → none ≢ some v
none-ne-some h = cc

failed-ne-created : {bs : Session} → some (status 500) ≢ some (json 201 (Body.one bs))
failed-ne-created h = ground arith

module _ {W : Type 0} (env : Env W) (c : Context) (request : SessionRequest) (w : W) where
  -- The request ends with 201 and this session.
  abbrev pub Creates : Session → Type 0
  Creates bs = (handle_request env c (ok request) w).0 ≡ some (json 201 (Body.one bs))

  -- The session with the status of a new request.
  abbrev fresh : Escalation → Session → Session
  fresh esc found = record found { status = requested_status env c esc.spec.retain_for }

  start-cases :
      (esc : Escalation) (w₂ : W)
      → ((start env c request esc w₂).0 ≡ status 500)
        ⊎ ((found : Session) × ((start env c request esc w₂).0
              ≡ json 201 (Body.one (fresh esc found))))
  unfolding start
  start-cases esc w₂ =
      elim (Result-cases (get_active_session env request.user request.cluster request.group w₂)) [
        | inr (x, a) ↦ inl (rw (start, a) refl)
        | inl (active, a) ↦
            let found : Session = elim active [ none ↦ zero_session | some ses ↦ ses ] in
            elim (Result-cases (update_session_status env.kube (fresh esc found) w₂).0) [
              | inr (x, u) ↦ inl (rw (start, a, u) refl)
              | inl (x, u) ↦ inr (found, rw (start, a, u) refl)
            ]
      ]

  create-cases :
      (esc : Escalation) (refs : List Str)
      → ((create env c request esc refs w).0 ≡ none)
        ⊎ ((create env c request esc refs w).0 ≡ some (status 500))
        ⊎ ((found : Session) × ((create env c request esc refs w).0
              ≡ some (json 201 (Body.one (fresh esc found)))))
  unfolding create
  create-cases esc refs =
      elim (Result-cases (add_session env.kube (new_session env request esc refs) w).0) [
        | inr (x, r) ↦ inr (inl (rw (create, r) refl))
        | inl (x, r) ↦
            let w₁ = (add_session env.kube (new_session env request esc refs) w).1 in
            elim (Option-cases (count_request env esc w₁)) [
              | inl n ↦ inl (rw (create, r, n) refl)
              | inr (w₂, n) ↦ elim (start-cases esc w₂) [
                | inl q ↦ inr (inl (rw (create, r, n, q) refl))
                | inr (found, q) ↦ inr (inr (found, rw (create, r, n, q) refl))
              ]
            ]
      ]

  handle-turned :
      {r : Response}
      → admit env c request w ≡ turned_away r
      → handle_request env c (ok request) w ≡ (some r, w)
  unfolding handle_request
  handle-turned t = rw (handle_request, t) refl

  handle-admitted :
      {esc : Escalation} {refs : List Str}
      → admit env c request w ≡ admitted esc refs
      → handle_request env c (ok request) w ≡ create env c request esc refs w
  unfolding handle_request
  handle-admitted t = rw (handle_request, t) refl

  requested_status-IsNew : (retain : Str) → IsNew (requested_status env c retain)
  unfolding requested_status
  requested_status-IsNew retain = record {
    is_pending = refl;
    not_approved = refl;
    not_rejected = refl;
    not_expiring = refl;
  }

  same_session :
      {a b : Session} → some (json 201 (Body.one a)) ≡ some (json 201 (Body.one b)) → a ≡ b
  same_session h = cc

  -- A request that is answered with 201 was valid, and an escalation admits it: one that is open to the
  -- requester's groups on the cluster, grants the requested group, has its demand for a reason met, and
  -- there was no active session of the user for the group. The session of the answer has the status of
  -- a new request.
  pub request_created :
      (bs : Session)
      → (handle_request env c (ok request) w).0 ≡ some (json 201 (Body.one bs))
      → ((esc : Escalation) × Admits env c request w esc) × IsNew bs.status
  request_created bs h = elim (admit-cases env c request w) [
    | inl (r, t, n) ↦ absurd (
        n (
          ap (λ (x : Response). x.code)
            (some-eq (sym (ap (λ (x : Option Response × W). x.0) (handle-turned t)) ∙ h))))
    | inr (esc, refs, t, a) ↦
        let made : (create env c request esc refs w).0 ≡ some (json 201 (Body.one bs)) =
          sym (ap (λ (x : Option Response × W). x.0) (handle-admitted t)) ∙ h in
        elim (create-cases esc refs) [
          | inl q ↦ absurd (none-ne-some (sym q ∙ made))
          | inr (inl q) ↦ absurd (failed-ne-created (sym q ∙ made))
          | inr (inr (found, q)) ↦ (
            (esc, a),
            subst (λ (x : Session). IsNew x.status) (same_session (sym q ∙ made))
                (requested_status-IsNew esc.spec.retain_for),
          )
        ]
  ]

  -- While the user has an active session for the group on the cluster, a request changes nothing and is
  -- not answered with 201.
  pub active_session-conflict :
      (ses : Session)
      → get_active_session env request.user request.cluster request.group w ≡ ok (some ses)
      → (r : Response) × (handle_request env c (ok request) w ≡ (some r, w)) × (r.code ≢ 201)
  active_session-conflict ses h = elim (admit-cases env c request w) [
    | inl (r, t, n) ↦ (r, handle-turned t, n)
    | inr (esc, refs, t, a) ↦ absurd (none-ne-some (ok-injective (sym a.no_session ∙ h)))
  ]

  -- When a request is admitted by an escalation that lists no clusters, and the creation of the session
  -- succeeds, the handler panics, and leaves the created session without a status.
  pub no_clusters-panics :
      (esc : Escalation) (refs : List Str)
      → admit env c request w ≡ admitted esc refs
      → esc.spec.allowed.clusters ≡ []
      → (add_session env.kube (new_session env request esc refs) w).0 ≡ ok tt
      → handle_request env c (ok request) w
        ≡ (none, (add_session env.kube (new_session env request esc refs) w).1)
  unfolding create count_request
  no_clusters-panics esc refs t e r = handle-admitted t ∙ rw (create, r, count_request, e) refl
