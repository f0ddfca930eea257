-- ===== src/Tests/Requests.antt =====
-- Requests of Ann for the group `ops` on the sample cluster.
use telekom_k8s_breakglass.Prelude.{
  false, List, [], ◌∷◌, Str, codes, str_eq, In, Option, none, some, ok, err, ◌≡◌, ◌≢◌, ◌↔◌, refl,
}
use telekom_k8s_breakglass.Api.Session.{Session}
use telekom_k8s_breakglass.Api.Escalation.{Escalation}
use telekom_k8s_breakglass.Http.{Body, json}
use telekom_k8s_breakglass.Kube.{Kube}
use telekom_k8s_breakglass.Env.{Env}
use telekom_k8s_breakglass.Session.Manager.{add_session}
use telekom_k8s_breakglass.Session.Lifecycle.Closed.{IsNew}
use telekom_k8s_breakglass.Session.Request.{SessionRequest, admitted, get_active_session, admit}
use telekom_k8s_breakglass.Session.Request.Create.{new_session, requested_status, handle_request}
use telekom_k8s_breakglass.Session.Request.Admitted.{Admits}
use telekom_k8s_breakglass.Session.Request.Create.Outcome.{request_created, no_clusters-panics}
use telekom_k8s_breakglass.Escalations.{get_cluster_group_escalations}
use telekom_k8s_breakglass.Members.Keycloak.{GroupMemberResolver}
use telekom_k8s_breakglass.Session.Review.{count_approval}
use telekom_k8s_breakglass.Session.Request.Create.{count_request}
use telekom_k8s_breakglass.Session.Request.Notice.{sync_groups}
use telekom_k8s_breakglass.Session.Uncounted.{counters_unchanged}
use telekom_k8s_breakglass.Mail.{Message, new_sender}
use telekom_k8s_breakglass.Session.Request.Notice.{Mailer, handle_request_notified}
use telekom_k8s_breakglass.Session.Request.Notice.Recipients.{IsPossible, request-mailed}
use telekom_k8s_breakglass.Tests.Samples.{Store, escalation, kube, env, ann}

abbrev ops_request : SessionRequest
ops_request = record {
  cluster = codes "c1";
  user = codes "ann";
  group = codes "ops";
  reason = codes "incident";
}

abbrev made : Session
made = new_session env ops_request escalation []

abbrev made_pending : Session
made_pending = record made { status = requested_status env ann [] }

ops_created :
    (handle_request env ann (ok ops_request) []).0 ≡ some (json 201 (Body.one made_pending))
unfolding handle_request telekom_k8s_breakglass.Escalations.get_cluster_group_escalations
    telekom_k8s_breakglass.Escalations.collect telekom_k8s_breakglass.Prelude.keep
    telekom_k8s_breakglass.Escalations.cluster_match telekom_k8s_breakglass.Prelude.contains
    telekom_k8s_breakglass.Prelude.str_eq telekom_k8s_breakglass.Escalations.group_match
    telekom_k8s_breakglass.Escalations.strip_oidc_prefixes get_active_session
    telekom_k8s_breakglass.Session.Manager.get_sessions_with_selector
    telekom_k8s_breakglass.Prelude.find telekom_k8s_breakglass.Env.get_email add_session
    telekom_k8s_breakglass.Session.Manager.update_session_status
    telekom_k8s_breakglass.Session.is_session_active
    telekom_k8s_breakglass.Names.to_rfc1123_subdomain
ops_created = refl

request_created_example :
    ((esc : Escalation) × Admits env ann ops_request [] esc) × IsNew made_pending.status
request_created_example = request_created env ann ops_request [] made_pending ops_created

abbrev mailer : Mailer Store
mailer = record {
  execute = λ t p. (codes "A request", none);
  dial_and_send = λ d m w. (err (codes "no server"), w);
  sender = new_sender (record {
    host = codes "mail";
    port = 25;
    user = [];
    password = [];
    insecure_skip_verify = false;
    sender_address = [];
    sender_name = [];
    branding_name = [];
  });
  base_url = codes "https://breakglass";
  branding_name = [];
  disable_email = [];
}

switched_on : str_eq mailer.disable_email (codes "1") ≡ false
unfolding str_eq
switched_on = refl

request-mailed_example :
    (m : Message) × (handle_request_notified env mailer ann (ok ops_request) [] ≡ (
      some (json 201 (Body.one made_pending)),
      (mailer.dial_and_send mailer.sender.dialer m
          (handle_request env ann (ok ops_request) []).1).1,
    ))
    × (m.body ≡ codes "A request")
    × ((possible : List Escalation) × IsPossible env ann ops_request [] possible
        × ((u : Str)
            → In u m.bcc ↔ ((esc : Escalation) × In esc possible × In u esc.spec.approvers.users)))
    × ((esc : Escalation) × Admits env ann ops_request [] esc
        × ((u : Str) → In u esc.spec.approvers.users → In u m.bcc))
request-mailed_example =
    request-mailed env mailer ann ops_request [] made_pending (codes "A request") ops_created
      switched_on refl

-- An escalation that names its cluster by a reference to its configuration only.
abbrev by_reference : Escalation
by_reference = record escalation {
  spec = record (escalation.spec) {
    allowed = record { clusters = []; groups = codes "dev" ∷ [] };
    cluster_config_refs = codes "c1" ∷ [];
  };
}

abbrev reference_kube : Kube Store
reference_kube = record kube { select_escalations = λ sel w. ok (by_reference ∷ []) }

abbrev reference_env : Env Store
reference_env = record env { kube = reference_kube }

ops_admitted : admit reference_env ann ops_request [] ≡ admitted by_reference []
unfolding admit telekom_k8s_breakglass.Escalations.get_cluster_group_escalations
    telekom_k8s_breakglass.Escalations.collect telekom_k8s_breakglass.Prelude.keep
    telekom_k8s_breakglass.Escalations.cluster_match telekom_k8s_breakglass.Prelude.contains
    telekom_k8s_breakglass.Prelude.str_eq telekom_k8s_breakglass.Escalations.group_match
    telekom_k8s_breakglass.Escalations.strip_oidc_prefixes get_active_session
    telekom_k8s_breakglass.Session.Manager.get_sessions_with_selector
    telekom_k8s_breakglass.Prelude.find telekom_k8s_breakglass.Env.get_email
ops_admitted = refl

no_clusters-panics_example : handle_request reference_env ann (ok ops_request) [] ≡ (
  none,
  (add_session reference_env.kube (new_session reference_env ops_request by_reference []) []).1,
)
unfolding add_session
no_clusters-panics_example =
    no_clusters-panics reference_env ann ops_request [] by_reference [] ops_admitted refl refl

-- The look-up for no groups, and what is left of the counts.
none_found : get_cluster_group_escalations env.kube env.config (codes "c1") [] [] ≡ ok []
unfolding get_cluster_group_escalations telekom_k8s_breakglass.Escalations.collect
    telekom_k8s_breakglass.Prelude.keep telekom_k8s_breakglass.Escalations.cluster_match
    telekom_k8s_breakglass.Prelude.contains str_eq telekom_k8s_breakglass.Escalations.group_match
none_found = refl

abbrev asked_groups : GroupMemberResolver (List Str)
asked_groups = record { members = λ g s. (ok [], g ∷ s) }

counters_unchanged_example :
    (count_approval env (codes "c1") made.owner_references [] ≡ [])
    × (count_request env escalation [] ≡ some [])
    × (sync_groups asked_groups [] [] ≡ [])
counters_unchanged_example =
    counters_unchanged env asked_groups [] (codes "c1") made.owner_references escalation [] []
      (λ e. cc) none_found
