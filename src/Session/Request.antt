-- ===== src/Session/Request.antt =====
-- pkg/breakglass/session_controller.go: the checks of handleRequestBreakglassSession, with
-- validateSessionRequest and getActiveBreakglassSession. The rest of it is in Create.
pub mod Create
pub mod Admitted
pub mod Notice
use telekom_k8s_breakglass.Prelude.{
  ℕ, suc, ◌+◌, ◌*◌, Bool, true, false, not, ◌&&◌, ◌||◌, List, [], ◌∷◌, ◌++◌, Str, codes, map, keep,
  find, is_empty, contains, str_eq, trim_space, Option, none, some, Result, ok, err, ◌>>=◌,
  if◌then◌else◌, ◌==◌,
}
use telekom_k8s_breakglass.Api.Session.{
  Time, is_zero, Session, SessionSpec, SessionStatus, SessionLabels, OwnerReference, Condition,
  state_eq, pending, approved, unset, idle,
}
use telekom_k8s_breakglass.Api.Escalation.{Escalation}
use telekom_k8s_breakglass.Kube.{Written}
use telekom_k8s_breakglass.Http.{Response, Body, status, json}
use telekom_k8s_breakglass.Env.{Env, Context, get_email, get_username}
use telekom_k8s_breakglass.Names.{to_rfc1123_label, to_rfc1123_subdomain}
use telekom_k8s_breakglass.Escalations.{
  strip_oidc_prefixes, prefixes_of, get_cluster_group_escalations, update_escalation_status,
}
use telekom_k8s_breakglass.Session.{
  is_session_pending_approval, is_session_active, default_retain_for, duration_or, hour,
}
use telekom_k8s_breakglass.Session.Manager.{
  get_sessions_with_selector, add_session, update_session_status,
}
use telekom_k8s_breakglass.Session.Review.{edited_by_approver}

-- BreakglassSessionRequest
pub record SessionRequest : Type 0 where
  pub cluster : Str
  pub user : Str
  pub group : Str
  pub reason : Str

-- validateSessionRequest: the error, if any.
pub validate_session_request : SessionRequest → Option Str
validate_session_request request =
    if is_empty request.cluster
    then some (codes "cluster is required")
    else if is_empty request.user
    then some (codes "user is required")
    else if is_empty request.group
    then some (codes "group is required")
    else none

-- The checks before the creation end with an answer, or admit the request by an escalation, with the
-- deny policies of the possible ones.
pub data Admission : Type 0 where
  turned_away : Response → Admission
  admitted : Escalation → List Str → Admission

-- `selectedDenyPolicies`
pub selected_deny_policies : Str → List Escalation → List Str
selected_deny_policies group [] = []
selected_deny_policies group (p ∷ ps) =
    let rest = selected_deny_policies group ps in
    if str_eq p.spec.escalated_group group then p.spec.deny_policy_refs ++ rest else rest

-- `matchedEsc`: the first of the possible escalations that grants the group.
pub matched_escalation : Str → List Escalation → Option Escalation
matched_escalation group [] = none
matched_escalation group (p ∷ ps) =
    let rest = matched_escalation group ps in
    if str_eq p.spec.escalated_group group then some p else rest

-- The escalation demands a reason, and the request gives none.
pub lacks_reason : Escalation → SessionRequest → Bool
lacks_reason esc request = elim esc.spec.request_reason [
  | none ↦ false
  | some r ↦ r.mandatory && is_empty (trim_space request.reason)
]

-- The answer where an active session exists.
pub existing_session : Session → Response
existing_session ses =
    if state_eq ses.status.state approved || not (is_zero ses.status.approved_at)
    then json 409 (Body.conflict (codes "already approved") ses)
    else if is_session_pending_approval ses
    then json 409 (Body.conflict (codes "already requested") ses)
    else json 409 (Body.conflict (codes "session exists") ses)

module _ {W : Type 0} (env : Env W) where
  -- The user's groups: the token's, or those of the cluster look-up if it has none, without their
  -- configured prefixes.
  pub requester_groups : Context → SessionRequest → W → Result (List Str)
  requester_groups c request w =
      let token : List Str = elim c.groups [ none ↦ [] | some arr ↦ arr ] in
      do
        groups ←
            (if is_empty token
              then env.get_user_groups request.user request.cluster w
              else ok token)
        ok (strip_oidc_prefixes groups (prefixes_of env.config))

  -- getActiveBreakglassSession; none is ErrSessionNotFound.
  unfoldable pub get_active_session : Str → Str → Str → W → Result (Option Session)
  get_active_session username cluster group w = do
    sessions ←
        get_sessions_with_selector env.kube
          ((codes "spec.cluster", cluster)
            ∷ (codes "spec.grantedGroup", group)
            ∷ (codes "spec.user", username)
            ∷ [])
          w
    ok (find (λ s. is_session_active env.now s) sessions)

  -- The checks on the escalation and on an active session.
  pub admit_for : Context → SessionRequest → List Escalation → W → Admission
  unfolding matched_escalation selected_deny_policies lacks_reason existing_session
  admit_for c request possible w = elim (matched_escalation request.group possible) [
    | none ↦ turned_away (json 401 (Body.text (codes "user unauthorized for group")))
    | some esc ↦
        if lacks_reason esc request
        then turned_away (json 422 (Body.text (codes "missing required request reason")))
        else elim (get_active_session request.user request.cluster request.group w) [
          | err e ↦
              turned_away
                (json 500 (Body.text (codes "failed to extract breakglass session information")))
          | ok active ↦ elim active [
            | some ses ↦ turned_away (existing_session ses)
            | none ↦ elim (get_email c) [
              | err e ↦
                  turned_away (json 500 (Body.text (codes "failed to extract email from token")))
              | ok email ↦ admitted esc (selected_deny_policies request.group possible)
            ]
          ]
        ]
  ]

  -- From the validation of the request on.
  unfoldable pub admit : Context → SessionRequest → W → Admission
  unfolding validate_session_request requester_groups admit_for
  admit c request w = elim (validate_session_request request) [
    | some e ↦ turned_away (json 422 (Body.text (codes "missing input request data: " ++ e)))
    | none ↦ elim (requester_groups c request w) [
      | err e ↦ turned_away (json 500 (Body.text (codes "failed to extract user groups")))
      | ok groups ↦
          elim (get_cluster_group_escalations env.kube env.config request.cluster groups w) [
            | err e ↦ turned_away (
                json 500
                  (Body.text (codes "failed to extract cluster breakglass escalation information")))
            | ok possible ↦ admit_for c request possible w
          ]
    ]
  ]
