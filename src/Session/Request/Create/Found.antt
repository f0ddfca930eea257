-- ===== src/Session/Request/Create/Found.antt =====
-- The look-up of an active session of a request, and the count of a request, on a hub that stores
-- sessions.
use telekom_k8s_breakglass.Prelude.{
  true, List, [], ◌∷◌, ◌++◌, Str, codes, keep, find, contains, str_eq, str_eq_refl, none, some, ok,
  Result-cases, Bool-cases, ok-injective, ◌≡◌, ◌≢◌, inl, inr, refl, sym, ap, ◌∙◌, arith,
}
use telekom_k8s_breakglass.Api.Session.{Session}
use telekom_k8s_breakglass.Api.Escalation.{Escalation}
use telekom_k8s_breakglass.Indices.{session_index}
use telekom_k8s_breakglass.Kube.{Selector}
use telekom_k8s_breakglass.Kube.Store.{IsStore, selected, keep-append, keep-cons, find-middle}
use telekom_k8s_breakglass.Env.{Env}
use telekom_k8s_breakglass.Escalations.{get_cluster_group_escalations, update_escalation_status}
use telekom_k8s_breakglass.Session.{is_session_active}
use telekom_k8s_breakglass.Session.Manager.{get_sessions_with_selector}
use telekom_k8s_breakglass.Session.Request.{SessionRequest, get_active_session}
use telekom_k8s_breakglass.Session.Request.Create.{
  bump_requests, new_session, count_first_request, count_request,
}

-- The selector of getActiveBreakglassSession.
abbrev pub active_selector : SessionRequest → Selector
active_selector request =
    (codes "spec.cluster", request.cluster)
    ∷ (codes "spec.grantedGroup", request.group)
    ∷ (codes "spec.user", request.user)
    ∷ []

pub selects_requested :
    (request : SessionRequest) (s : Session)
    → s.spec.cluster ≡ request.cluster
    → s.spec.granted_group ≡ request.group
    → s.spec.user ≡ request.user
    → selected (active_selector request) s ≡ true
unfolding session_index str_eq contains
selects_requested request s c g u =
    rw (c, g, u)
      (ground
        (arith, str_eq_refl request.cluster, str_eq_refl request.group, str_eq_refl request.user))

module _ {W : Type 0} (env : Env W) {sessions : W → List Session}
    (hub : IsStore env.kube sessions) where
  pub active_found :
      (request : SessionRequest) (w : W)
      → get_active_session env request.user request.cluster request.group w
        ≡ ok (
            find
              (λ s. is_session_active env.now s)
              (keep (selected (active_selector request)) (sessions w)))
  unfolding get_active_session get_sessions_with_selector
  active_found request w = rw (hub.selects (active_selector request) w) refl

  count_first_request-sessions :
      (name : Str) (escs : List Escalation) (w : W)
      → sessions (count_first_request env name escs w) ≡ sessions w
  unfolding count_first_request update_escalation_status
  count_first_request-sessions name [] w = refl
  count_first_request-sessions name (e ∷ escs) w = elim (Bool-cases (str_eq e.name name)) [
    | inl q ↦ rw q (hub.escalations_apart (bump_requests e) w)
    | inr q ↦ rw q (count_first_request-sessions name escs w)
  ]

  pub count_request-sessions :
      (esc : Escalation) (w : W)
      → esc.spec.allowed.clusters ≢ []
      → (w' : W) × (count_request env esc w ≡ some w') × (sessions w' ≡ sessions w)
  unfolding count_request
  count_request-sessions esc w ne = counted esc.spec.allowed.clusters refl
    where
      counted :
          (clusters : List Str)
          → esc.spec.allowed.clusters ≡ clusters
          → (w' : W) × (count_request env esc w ≡ some w') × (sessions w' ≡ sessions w)
      counted [] e = absurd (ne e)
      counted (cluster ∷ others) e =
          elim (Result-cases (get_cluster_group_escalations env.kube env.config cluster [] w)) [
            | inr (x, r) ↦ (w, rw (e, r) refl, refl)
            | inl (escs, r) ↦ (
              count_first_request env esc.name escs w,
              rw (e, r) refl,
              count_first_request-sessions esc.name escs w,
            )
          ]

  pub new_session-found :
      (request : SessionRequest) (esc : Escalation) (refs : List Str) (w w' : W)
      (p q : List Session) (name version : Str)
      → let new = record (new_session env request esc refs) {
        name = name;
        resource_version = version;
      } in
        sessions w ≡ p ++ q
        → sessions w' ≡ p ++ new ∷ q
        → get_active_session env request.user request.cluster request.group w ≡ ok none
        → get_active_session env request.user request.cluster request.group w' ≡ ok (some new)
  unfolding new_session is_session_active
  new_session-found request esc refs w w' p q name version e e' absent =
      let new : Session = record (new_session env request esc refs) {
        name = name;
        resource_version = version;
      } in
      let sel = selected (active_selector request) in
      let active = λ (s : Session). is_session_active env.now s in
      let none_before : find active (keep sel p ++ keep sel q) ≡ none =
        ap (find active) (sym (keep-append sel p q) ∙ ap (keep sel) (sym e))
        ∙ ok-injective (sym (active_found request w) ∙ absent) in
      let chosen : keep sel (new ∷ q) ≡ new ∷ keep sel q =
        keep-cons sel new q (selects_requested request new refl refl refl) in
      active_found request w'
      ∙ ap ok (
          ap (λ ss. find active (keep sel ss)) e'
          ∙ ap (find active) (keep-append sel p (new ∷ q) ∙ ap (λ ss. keep sel p ++ ss) chosen)
          ∙ find-middle active (keep sel p) (keep sel q) new none_before refl)
