-- ===== src/Session/Request/Create/Stored.antt =====
-- What an admitted request leaves on a hub that stores sessions.
use telekom_k8s_breakglass.Prelude.{
  true, List, [], ◌∷◌, ◌++◌, Str, In, keep-of_In, find-none_iff, AllDistinct, none, some, ok,
  ok-injective, ◌≡◌, ◌≢◌, false≢true, inl, inr, refl, sym, ap, ◌∙◌,
}
use telekom_k8s_breakglass.Api.Session.{Session, pending, idle}
use telekom_k8s_breakglass.Api.Escalation.{Escalation}
use telekom_k8s_breakglass.Http.{Response, Body, json}
use telekom_k8s_breakglass.Kube.Store.{
  IsStore, IsCreated, names, selected, middle_names, In-middle-cases, AllDistinct-with,
}
use telekom_k8s_breakglass.Env.{Env, Context}
use telekom_k8s_breakglass.Session.{is_session_active, last_kind}
use telekom_k8s_breakglass.Session.Manager.{add_session, update_session_status}
use telekom_k8s_breakglass.Session.Request.{
  SessionRequest, turned_away, admitted, get_active_session, admit,
}
use telekom_k8s_breakglass.Session.Request.Admitted.{admit-cases}
use telekom_k8s_breakglass.Session.Request.Create.{
  new_session, count_request, requested_status, start, create, handle_request,
}
use telekom_k8s_breakglass.Session.Request.Create.Found.{
  active_selector, selects_requested, active_found, count_request-sessions, new_session-found,
}

module _ {W : Type 0} (env : Env W) {sessions : W → List Session}
    (hub : IsStore env.kube sessions) where
  -- The session that a request puts on the hub.
  pub record IsRequested (request : SessionRequest) (w w' : W) (bs : Session) : Type 0 where
    pub version : Str
    pub before : List Session
    pub after : List Session
    pub was : sessions w ≡ before ++ after
    pub is_now : sessions w' ≡ before ++ record bs { resource_version = version } ∷ after
    pub distinct : AllDistinct (names (sessions w'))
    pub cluster : bs.spec.cluster ≡ request.cluster
    pub user : bs.spec.user ≡ request.user
    pub group : bs.spec.granted_group ≡ request.group
    pub state : bs.status.state ≡ pending
    pub unanswered : last_kind bs.status.conditions ≡ idle
    pub only :
        (s : Session)
        → In s (sessions w')
        → s.spec.cluster ≡ request.cluster
        → s.spec.granted_group ≡ request.group
        → s.spec.user ≡ request.user
        → is_session_active env.now s ≡ true
        → s ≡ record bs { resource_version = version }

  start-stored :
      (c : Context) (request : SessionRequest) (esc : Escalation) (w : W) (p q : List Session)
      (new : Session)
      → sessions w ≡ p ++ new ∷ q
      → AllDistinct (names (sessions w))
      → get_active_session env request.user request.cluster request.group w ≡ ok (some new)
      → let bs = record new { status = requested_status env c esc.spec.retain_for } in
        (version : Str) × ((start env c request esc w).0 ≡ json 201 (Body.one bs))
        × (sessions (start env c request esc w).1
            ≡ p ++ record bs { resource_version = version } ∷ q)
  unfolding start update_session_status
  start-stored c request esc w p q new e d found =
      let bs = record new { status = requested_status env c esc.spec.retain_for } in
      let (version, accepted, e') = hub.status_updated w p q new bs e d refl refl refl in
      (version, rw (start, found, accepted) refl, rw (start, found, accepted) e')

  no_session-of_admitted :
      (c : Context) (request : SessionRequest) (esc : Escalation) (refs : List Str) (w : W)
      → admit env c request w ≡ admitted esc refs
      → get_active_session env request.user request.cluster request.group w ≡ ok none
  no_session-of_admitted c request esc refs w a = elim (admit-cases env c request w) [
    | inl (r, t, _) ↦ absurd (turned-ne-admitted (sym t ∙ a))
    | inr (esc', refs', _, admits) ↦ admits.no_session
  ]
    where
      turned-ne-admitted : {r : Response} → turned_away r ≢ admitted esc refs
      turned-ne-admitted q = cc

  unnamed :
      (request : SessionRequest) (esc : Escalation) (refs : List Str)
      → (new_session env request esc refs).name ≡ []
  unfolding new_session
  unnamed request esc refs = refl

  handle-admitted :
      (c : Context) (request : SessionRequest) (esc : Escalation) (refs : List Str) (w : W)
      → admit env c request w ≡ admitted esc refs
      → handle_request env c (ok request) w ≡ create env c request esc refs w
  unfolding handle_request
  handle-admitted c request esc refs w a = rw (handle_request, a) refl

  create-started :
      (c : Context) (request : SessionRequest) (esc : Escalation) (refs : List Str) (w w₂ : W)
      → (env.kube.create_session (new_session env request esc refs) w).0 ≡ ok tt
      → count_request env esc (env.kube.create_session (new_session env request esc refs) w).1
        ≡ some w₂
      → create env c request esc refs w
        ≡ (some (start env c request esc w₂).0, (start env c request esc w₂).1)
  unfolding create add_session
  create-started c request esc refs w w₂ made counted = rw (create, made, counted) refl

  -- Over a hub that stores sessions of distinct names: a request that the checks admit, by an escalation
  -- that lists a cluster, is answered with 201, and the hub then stores one session more, under a new
  -- name: the pending session of the answer, for the user, the cluster and the group of the request. It
  -- is then the only active session for them.
  pub request-stored :
      (c : Context) (request : SessionRequest) (esc : Escalation) (refs : List Str) (w : W)
      → AllDistinct (names (sessions w))
      → admit env c request w ≡ admitted esc refs
      → esc.spec.allowed.clusters ≢ []
      → (bs : Session) × ((handle_request env c (ok request) w).0 ≡ some (json 201 (Body.one bs)))
        × IsRequested request w (handle_request env c (ok request) w).1 bs
  unfolding requested_status new_session last_kind
  request-stored c request esc refs w d a ne =
      let absent = no_session-of_admitted c request esc refs w a in
      let made : IsCreated env.kube sessions w (new_session env request esc refs) =
        hub.created w (new_session env request esc refs) (unnamed request esc refs) in
      let new : Session = record (new_session env request esc refs) {
        name = made.name;
        resource_version = made.version;
      } in
      let w₁ = (env.kube.create_session (new_session env request esc refs) w).1 in
      let (w₂, counted, same) = count_request-sessions env hub esc w₁ ne in
      let e₂ : sessions w₂ ≡ made.before ++ new ∷ made.after = same ∙ made.is_now in
      let d₂ : AllDistinct (names (made.before ++ new ∷ made.after)) =
        AllDistinct-with made.before made.after new (rw made.was at d)
          (rw made.was at made.fresh) in
      let found =
        new_session-found env hub request esc refs w w₂ made.before made.after made.name
          made.version made.was e₂ absent in
      let (version, answer, e₃) =
        start-stored c request esc w₂ made.before made.after new e₂ (rw e₂ d₂) found in
      let handled =
        handle-admitted c request esc refs w a
        ∙ create-started c request esc refs w w₂ made.accepted counted in
      let bs : Session = record new { status = requested_status env c esc.spec.retain_for } in
      let stored = ap (λ r. sessions r.1) handled ∙ e₃ in
      let kept : Session = record bs { resource_version = version } in
      (
        bs,
        ap (λ r. r.0) handled ∙ ap (λ (r : Response). some r) answer,
        record {
          version = version;
          before = made.before;
          after = made.after;
          was = made.was;
          is_now = stored;
          distinct = rw (ap names stored ∙ middle_names made.before made.after new kept refl) d₂;
          cluster = refl;
          user = refl;
          group = refl;
          state = refl;
          unanswered = refl;
          only = λ s m c g u live.
              elim (In-middle-cases made.before made.after kept (rw stored at m)) [
                | inl same ↦ same
                | inr old ↦ absurd (
                    false≢true (
                      sym (
                        (find-none_iff (λ s. is_session_active env.now s) _).0
                          (ok-injective (sym (active_found env hub request w) ∙ absent)) s
                          (keep-of_In (selected (active_selector request)) (sessions w)
                            (rw made.was old) (selects_requested request s c g u)))
                      ∙ live))
              ];
        },
      )
