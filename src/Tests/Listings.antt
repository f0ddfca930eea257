-- ===== src/Tests/Listings.antt =====
-- The list endpoints on the sample sessions.
use telekom_k8s_breakglass.Prelude.{
  List, [], ◌∷◌, Str, codes, In, Bool, true, false, is_empty, ok, ◌≡◌, ◌≢◌, ◌↔◌, refl,
}
use telekom_k8s_breakglass.Api.Session.{Session}
use telekom_k8s_breakglass.Http.{Body, json}
use telekom_k8s_breakglass.Env.{lowered}
use telekom_k8s_breakglass.Approval.{is_session_approver}
use telekom_k8s_breakglass.Escalations.{get_group_escalations, prefixes_of}
use telekom_k8s_breakglass.Session.{is_session_active}
use telekom_k8s_breakglass.Session.Manager.{get_session_by_name}
use telekom_k8s_breakglass.Session.Listing.{
  StatusQuery, passes_state, queried_sessions, handle_get_session_status,
}
use telekom_k8s_breakglass.Session.Listing.Shown.{listed_for_approver}
use telekom_k8s_breakglass.Tests.Samples.{Store, request, running, env, ann, bob}

abbrev query : StatusQuery
query = record {
  cluster = [];
  user = [];
  group = [];
  token = [];
  mine = [];
  state = codes "pending";
}

abbrev own_query : StatusQuery
own_query = record query { mine = codes "true" }

abbrev stored : Store
stored = request ∷ running ∷ []

all_queried : queried_sessions env query stored ≡ ok stored
unfolding queried_sessions telekom_k8s_breakglass.Session.Manager.get_all_sessions
all_queried = refl

all_queried_own : queried_sessions env own_query stored ≡ ok stored
unfolding queried_sessions telekom_k8s_breakglass.Session.Manager.get_all_sessions
all_queried_own = refl

listed_for_approver_example :
    (out : List Session) × (handle_get_session_status env bob query stored
      ≡ json 200 (Body.many out))
    × ((s : Session)
        → In s out ↔ (
            In s stored
            × (is_session_approver env bob s stored ≡ true)
            × (passes_state (lowered env) env.now query.state s ≡ true)))
unfolding telekom_k8s_breakglass.Prelude.str_eq
listed_for_approver_example = listed_for_approver env bob query stored stored refl refl all_queried

-- Ann cannot approve her own request, and does not see it unless she asks for her sessions.
bob_sees_request :
    handle_get_session_status env bob query stored ≡ json 200 (Body.many (request ∷ []))
unfolding handle_get_session_status telekom_k8s_breakglass.Session.Manager.get_all_sessions
    telekom_k8s_breakglass.Prelude.str_eq telekom_k8s_breakglass.Prelude.keep is_session_approver
    telekom_k8s_breakglass.Env.get_email telekom_k8s_breakglass.Approval.approver_groups
    telekom_k8s_breakglass.Escalations.get_cluster_escalations
    telekom_k8s_breakglass.Escalations.cluster_match telekom_k8s_breakglass.Prelude.contains
    telekom_k8s_breakglass.Approval.escalation_approves
    telekom_k8s_breakglass.Approval.effective_block_self
    telekom_k8s_breakglass.Approval.effective_allowed_domains
    telekom_k8s_breakglass.Session.is_session_pending_approval lowered
bob_sees_request = refl

ann_sees_nothing : handle_get_session_status env ann query stored ≡ json 200 (Body.many [])
unfolding handle_get_session_status telekom_k8s_breakglass.Session.Manager.get_all_sessions
    telekom_k8s_breakglass.Prelude.str_eq telekom_k8s_breakglass.Prelude.keep is_session_approver
    telekom_k8s_breakglass.Env.get_email telekom_k8s_breakglass.Approval.approver_groups
    telekom_k8s_breakglass.Escalations.get_cluster_escalations
    telekom_k8s_breakglass.Escalations.cluster_match telekom_k8s_breakglass.Prelude.contains
    telekom_k8s_breakglass.Approval.escalation_approves
    telekom_k8s_breakglass.Approval.effective_block_self
ann_sees_nothing = refl

ann_sees_own :
    handle_get_session_status env ann own_query stored ≡ json 200 (Body.many (request ∷ []))
unfolding handle_get_session_status telekom_k8s_breakglass.Session.Manager.get_all_sessions
    telekom_k8s_breakglass.Prelude.str_eq telekom_k8s_breakglass.Env.get_email
    telekom_k8s_breakglass.Prelude.keep telekom_k8s_breakglass.Session.is_session_pending_approval
    lowered
ann_sees_own = refl
