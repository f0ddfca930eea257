-- ===== src/Session/Request/Notice.antt =====
-- pkg/breakglass/session_controller.go: the end of handleRequestBreakglassSession, with
-- sendOnRequestEmail: the approvers' groups are looked up in the background, and the approvers get a
-- mail. What the mail needs is the record `Mailer`.
pub mod Recipients
use telekom_k8s_breakglass.Prelude.{
  List, [], ◌∷◌, ◌++◌, Str, codes, is_empty, str_eq, Option, none, some, Result, ok, err, ◌>>=◌,
  if◌then◌else◌,
}
use telekom_k8s_breakglass.Api.Session.{Session}
use telekom_k8s_breakglass.Api.Escalation.{Escalation}
use telekom_k8s_breakglass.Kube.{Written}
use telekom_k8s_breakglass.Http.{Response, Body}
use telekom_k8s_breakglass.Env.{Env, Context, get_username, email_or_empty}
use telekom_k8s_breakglass.Escalations.{get_cluster_group_escalations}
use telekom_k8s_breakglass.Mail.{Dialer, Sender, Message, send}
use telekom_k8s_breakglass.Mail.Templates.{
  Template, MailParams, RequestBreakglassSessionMailParams, render_breakglass_session_request,
}
use telekom_k8s_breakglass.Members.Keycloak.{GroupMemberResolver}
use telekom_k8s_breakglass.Session.Request.{SessionRequest, requester_groups}
use telekom_k8s_breakglass.Session.Request.Create.{handle_request}

pub record Mailer (W : Type 0) : Type 0 where
  pub execute : Template → MailParams → Str × Option Str
  pub dial_and_send : Dialer → Message → W → Written W
  pub sender : Sender
  -- `config.Frontend`
  pub base_url : Str
  pub branding_name : Str
  -- the environment variable `BREAKGLASS_DISABLE_EMAIL`
  pub disable_email : Str

-- `approvers`, collected in the loop over the possible escalations
pub possible_approvers : List Escalation → List Str
possible_approvers [] = []
possible_approvers (p ∷ ps) = p.spec.approvers.users ++ possible_approvers ps

-- The background look-up: every approver group of every escalation, errors being only logged.
module _ {S : Type 0} (resolver : GroupMemberResolver S) where
  pub sync_group_list : List Str → S → S
  sync_group_list [] s = s
  sync_group_list (g ∷ gs) s = sync_group_list gs (resolver.members g s).1

  unfoldable pub sync_groups : List Escalation → S → S
  unfolding sync_group_list
  sync_groups [] s = s
  sync_groups (esc ∷ escs) s = sync_groups escs (sync_group_list esc.spec.approvers.groups s)

-- The session of an answer: only the answer 201 has one as its body.
pub created_of : Body → Option Session
created_of (Body.one bs) = some bs
created_of _ = none

pub created_session : Option Response → Option Session
created_session none = none
created_session (some r) = created_of r.body

module _ {W : Type 0} (env : Env W) (mailer : Mailer W) where
  pub request_params : Session → Str → Str → RequestBreakglassSessionMailParams
  request_params bs email username = record {
    subject_email = email;
    subject_full_name = username;
    requested_cluster = bs.spec.cluster;
    requested_username = bs.spec.user;
    requested_group = bs.spec.granted_group;
    url = mailer.base_url ++ codes "/review?name=" ++ bs.name;
    branding_name =
        if is_empty mailer.branding_name then codes "Breakglass" else mailer.branding_name;
  }

  pub request_subject : Session → Str
  request_subject bs =
      codes "Cluster "
      ++ env.quote bs.spec.cluster
      ++ codes " user "
      ++ env.quote bs.spec.user
      ++ codes " is requesting breakglass group assignment "
      ++ env.quote bs.spec.granted_group

  -- sendOnRequestEmail
  pub send_on_request_email : Session → Str → Str → List Str → W → Written W
  unfolding request_params request_subject render_breakglass_session_request send
  send_on_request_email bs email username approvers w =
      let (body, failure) =
        render_breakglass_session_request mailer.execute (request_params bs email username) in
      elim failure [
        | some e ↦ (err e, w)
        | none ↦ send mailer.dial_and_send mailer.sender approvers (request_subject bs) body w
      ]

  -- From the test of the environment variable on.
  pub notify : Context → Session → List Str → W → W
  unfolding send_on_request_email
  notify c bs approvers w =
      if str_eq mailer.disable_email (codes "1")
      then w
      else (send_on_request_email bs (email_or_empty c) (get_username c) approvers w).1

  -- The approvers as they are collected while the request is checked.
  pub recipients : Context → SessionRequest → W → List Str
  unfolding possible_approvers
  recipients c request w =
      let possible : Result (List Escalation) = requester_groups env c request w >>= (λ groups.
        get_cluster_group_escalations env.kube env.config request.cluster groups w) in
      elim possible [ err e ↦ [] | ok ps ↦ possible_approvers ps ]

  -- handleRequestBreakglassSession as a whole: where its answer is a created session, the mail comes
  -- before the answer.
  pub handle_request_notified : Context → Result SessionRequest → W → Option Response × W
  unfolding notify recipients created_session
  handle_request_notified c (err e) w = handle_request env c (err e) w
  handle_request_notified c (ok request) w =
      let (answer, w') = handle_request env c (ok request) w in
      (
        answer,
        elim (created_session answer) [
          | none ↦ w'
          | some bs ↦ notify c bs (recipients c request w) w'
        ],
      )
