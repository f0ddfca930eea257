-- ===== src/Session/Listing.antt =====
-- pkg/breakglass/session_controller.go: handleGetBreakglassSessionStatus,
-- handleGetBreakglassSessionByName and handleListClusters, which read only. The fields that
-- dropK8sInternalFieldsSessionList clears are not part of the model.
pub mod Shown
pub mod Links
use telekom_k8s_breakglass.Prelude.{
  ℕ, Bool, true, false, not, ◌&&◌, ◌||◌, List, [], ◌∷◌, ◌++◌, Str, String, codes, map, keep,
  is_empty, str_eq, ltb, Option, none, some, Result, ok, err, if◌then◌else◌,
}
use telekom_k8s_breakglass.Api.Session.{
  Time, is_zero, Session, state_eq, approved, rejected, withdrawn, timeout,
}
use telekom_k8s_breakglass.Kube.{Selector}
use telekom_k8s_breakglass.Http.{Response, Body, json}
use telekom_k8s_breakglass.Env.{Env, Context, lowered, get_email}
use telekom_k8s_breakglass.Approval.{is_session_approver}
use telekom_k8s_breakglass.Session.{
  is_session_pending_approval, is_session_expired, is_session_active,
}
use telekom_k8s_breakglass.Session.Manager.{
  get_all_sessions, get_session_by_name, get_sessions_with_selector,
}

-- The query parameters; a missing one is the empty text.
pub record StatusQuery : Type 0 where
  pub cluster : Str
  pub user : Str
  pub group : Str
  pub token : Str
  pub mine : Str
  pub state : Str

-- The field selector from the parameters that are given, in the order in which it is written.
pub query_selector : StatusQuery → Selector
query_selector q =
    (if is_empty q.cluster then [] else (codes "spec.cluster", q.cluster) ∷ [])
    ++ (if is_empty q.group then [] else (codes "spec.grantedGroup", q.group) ∷ [])
    ++ (if is_empty q.user then [] else (codes "spec.user", q.user) ∷ [])

-- The filter on the state: whether none of the tests of the loop skips the session.
pub passes_state : (Str → Str) → Time → Str → Session → Bool
passes_state lower now state ses =
    let asks = λ (s : String). str_eq state (codes s) in
    not (asks "pending" && not (is_session_pending_approval ses))
    && not (asks "approved" && not (state_eq ses.status.state approved))
    && not (asks "rejected" && is_zero ses.status.rejected_at)
    && not (asks "expired" && not (is_session_expired now ses))
    && not (
        (asks "timeout" || str_eq (lower state) (codes "approvaltimeout"))
        && not (state_eq ses.status.state timeout)
        && (is_zero ses.status.timeout_at || ltb now ses.status.timeout_at))
    && not (asks "withdrawn" && not (state_eq ses.status.state withdrawn))

abbrev pub asks_mine : StatusQuery → Bool
asks_mine q = str_eq q.mine (codes "true")

module _ {W : Type 0} (env : Env W) where
  -- The answer to `?token=`.
  pub check_token : Context → Str → W → Response
  check_token c token w = elim (get_session_by_name env.kube token w) [
    | err e ↦ json 404 Body.invalid
    | ok ses ↦ json 200 (
        Body.token_check (is_session_approver env c ses w) (is_session_active env.now ses) (
          not (
            is_session_expired env.now ses
            || state_eq ses.status.state withdrawn
            || state_eq ses.status.state rejected)))
  ]

  -- The sessions that the hub gives for the query.
  unfoldable pub queried_sessions : StatusQuery → W → Result (List Session)
  unfolding query_selector
  queried_sessions q w =
      if not (is_empty q.cluster) || not (is_empty q.user) || not (is_empty q.group)
      then get_sessions_with_selector env.kube (query_selector q) w
      else get_all_sessions env.kube w

  -- `userEmail`: set only for `mine=true`.
  pub user_email : Context → StatusQuery → Result Str
  user_email c q = if asks_mine q then get_email c else ok []

  -- The loop's tests on a session.
  pub is_shown : Context → StatusQuery → Str → W → Session → Bool
  unfolding passes_state
  is_shown c q user w ses =
      let is_mine = not (is_empty user) && str_eq ses.spec.user user in
      (is_mine || is_session_approver env c ses w)
      && not (asks_mine q && not is_mine)
      && passes_state (lowered env) env.now q.state ses

  -- handleGetBreakglassSessionStatus
  unfoldable pub handle_get_session_status : Context → StatusQuery → W → Response
  unfolding check_token queried_sessions user_email is_shown
  handle_get_session_status c q w =
      if not (is_empty q.token) then check_token c q.token w else elim (queried_sessions q w) [
        | err e ↦ json 500 (Body.text (codes "failed to extract breakglass session information"))
        | ok sessions ↦ elim (user_email c q) [
          | err e ↦ json 500 (Body.text (codes "failed to extract email from token"))
          | ok user ↦ json 200 (Body.many (keep (is_shown c q user w) sessions))
        ]
      ]

  -- handleGetBreakglassSessionByName
  pub handle_get_session_by_name : Context → W → Response
  handle_get_session_by_name c w = elim (get_session_by_name env.kube c.param_name w) [
    | err e ↦ json 404 (Body.problem (codes "session not found"))
    | ok ses ↦ json 200 (Body.many (ses ∷ []))
  ]

  -- handleListClusters
  pub handle_list_clusters : W → Response
  handle_list_clusters w = elim (get_all_sessions env.kube w) [
    | err e ↦ json 500 (Body.text (codes "Failed to extract cluster group access information"))
    | ok sessions ↦ json 200 (Body.names (map (λ s. s.spec.cluster) sessions))
  ]
