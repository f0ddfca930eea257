-- ===== src/Session/Request/Create.antt =====
-- handleRequestBreakglassSession from the admitted request on, and as a whole.
pub mod Outcome
pub mod Found
pub mod Stored
use telekom_k8s_breakglass.Prelude.{
  ℕ, suc, ◌+◌, ◌*◌, Bool, true, false, not, ◌&&◌, ◌||◌, List, [], ◌∷◌, ◌++◌, Str, codes, map, keep,
  find, is_empty, contains, str_eq, trim_space, Option, none, some, Result, ok, err, ◌>>=◌,
  if◌then◌else◌, ◌==◌,
}
use telekom_k8s_breakglass.Api.Session.{
  Time, is_zero, Session, SessionSpec, SessionStatus, SessionLabels, OwnerReference, Condition,
  state_eq, pending, approved, unset, idle,
}
use telekom_k8s_breakglass.Api.Escalation.{Escalation}
use telekom_k8s_breakglass.Kube.{Written}
use telekom_k8s_breakglass.Http.{Response, Body, status, json}
use telekom_k8s_breakglass.Env.{Env, Context, get_email, get_username}
use telekom_k8s_breakglass.Names.{to_rfc1123_label, to_rfc1123_subdomain}
use telekom_k8s_breakglass.Escalations.{
  strip_oidc_prefixes, prefixes_of, get_cluster_group_escalations, update_escalation_status,
}
use telekom_k8s_breakglass.Session.{
  is_session_pending_approval, is_session_active, default_retain_for, duration_or, hour,
}
use telekom_k8s_breakglass.Session.Manager.{
  get_sessions_with_selector, add_session, update_session_status,
}
use telekom_k8s_breakglass.Session.Review.{edited_by_approver}
use telekom_k8s_breakglass.Session.Request.{
  SessionRequest, turned_away, admitted, get_active_session, admit,
}

-- The request counter of one escalation: 1 at the first request.
pub bump_requests : Escalation → Escalation
bump_requests esc = record esc {
  status = record (esc.status) {
    request_count = if esc.status.request_count == 0 then 1 else esc.status.request_count + 1;
  };
}

-- `v1alpha1.BreakglassSession{}`
abbrev pub zero_session : Session
zero_session = record {
  name = [];
  generate_name = [];
  namespace = [];
  resource_version = [];
  labels = record { cluster_label = []; user_label = []; group_label = [] };
  spec = record {
    cluster = [];
    user = [];
    granted_group = [];
    idle_timeout = [];
    max_valid_for = [];
    retain_for = [];
    cluster_config_ref = [];
    deny_policy_refs = none;
    request_reason = [];
  };
  status = record {
    conditions = [];
    approved_at = 0;
    rejected_at = 0;
    expires_at = 0;
    timeout_at = 0;
    retained_until = 0;
    state = unset;
    approver = [];
    approvers = [];
    approval_reason = [];
    reason_ended = [];
  };
  owner_references = [];
}

module _ {W : Type 0} (env : Env W) where
  -- The session to create, in the namespace of the escalation that owns it.
  unfoldable pub new_session : SessionRequest → Escalation → List Str → Session
  new_session request esc refs = record zero_session {
    generate_name =
        to_rfc1123_subdomain env.to_lower request.cluster
        ++ codes "-"
        ++ to_rfc1123_subdomain env.to_lower request.group
        ++ codes "-";
    namespace = esc.namespace;
    labels = record {
      cluster_label = to_rfc1123_label env.to_lower request.cluster;
      user_label = to_rfc1123_label env.to_lower request.user;
      group_label = to_rfc1123_label env.to_lower request.group;
    };
    spec = record {
      cluster = request.cluster;
      user = request.user;
      granted_group = request.group;
      idle_timeout = esc.spec.idle_timeout;
      max_valid_for = esc.spec.max_valid_for;
      retain_for = esc.spec.retain_for;
      cluster_config_ref = [];
      deny_policy_refs = some refs;
      request_reason = request.reason;
    };
    owner_references =
        record { kind = codes "BreakglassEscalation"; name = esc.name; uid = esc.uid } ∷ [];
  }

  -- The update of the first escalation of that name.
  unfoldable pub count_first_request : Str → List Escalation → W → W
  unfolding bump_requests
  count_first_request name [] w = w
  count_first_request name (e ∷ escs) w =
      let rest = count_first_request name escs w in
      if str_eq e.name name
      then (update_escalation_status env.kube env.config (bump_requests e) w).1
      else rest

  -- `matchedEsc.Spec.Allowed.Clusters[0]` panics where no clusters are listed: none.
  unfoldable pub count_request : Escalation → W → Option W
  unfolding count_first_request
  count_request esc w = elim esc.spec.allowed.clusters [
    | [] ↦ none
    | cluster ∷ others ↦
        some (elim (get_cluster_group_escalations env.kube env.config cluster [] w) [
          | err e ↦ w
          | ok escs ↦ count_first_request esc.name escs w
        ])
  ]

  -- The status of a requested session; the approval times out after an hour.
  unfoldable pub requested_status : Context → Str → SessionStatus
  requested_status c retain_for = record (zero_session.status) {
    retained_until = env.now + duration_or env.parse_duration default_retain_for retain_for;
    timeout_at = env.now + hour;
    state = pending;
    conditions =
        record {
          kind = idle;
          last_transition = env.now;
          reason = edited_by_approver;
          message = codes "User " ++ env.quote (get_username c) ++ codes " requested session.";
        }
        ∷ [];
  }

  -- After the counter: the created session is looked up as the active one, and gets its status. Where
  -- it is not found the zero session stands for it.
  pub start : Context → SessionRequest → Escalation → W → Response × W
  unfolding requested_status
  start c request esc w =
      elim (get_active_session env request.user request.cluster request.group w) [
        | err e ↦ (status 500, w)
        | ok active ↦
            let found : Session = elim active [ none ↦ zero_session | some ses ↦ ses ] in
            let bs = record found { status = requested_status c esc.spec.retain_for } in
            let (r, w') = update_session_status env.kube bs w in
            elim r [ ok _ ↦ (json 201 (Body.one bs), w') | err e ↦ (status 500, w') ]
      ]

  -- The creation, the counter and the status. No answer is a panic.
  pub create : Context → SessionRequest → Escalation → List Str → W → Option Response × W
  unfolding new_session count_request start
  create c request esc refs w =
      let (r, w₁) = add_session env.kube (new_session request esc refs) w in
      elim r [
        | err e ↦ (some (status 500), w₁)
        | ok _ ↦ elim (count_request esc w₁) [
          | none ↦ (none, w₁)
          | some w₂ ↦ let (answer, w₃) = start c request esc w₂ in (some answer, w₃)
        ]
      ]

  -- handleRequestBreakglassSession; the request is the decoded body, or the error of decoding it.
  unfoldable pub handle_request : Context → Result SessionRequest → W → Option Response × W
  unfolding admit create
  handle_request c (err e) w = (some (status 422), w)
  handle_request c (ok request) w = elim (admit env c request w) [
    | turned_away answer ↦ (some answer, w)
    | admitted esc refs ↦ create c request esc refs w
  ]
