-- ===== src/Tests/Webhooks.antt =====
-- Access reviews for a user with one running session on the sample cluster.
use telekom_k8s_breakglass.Prelude.{
  Bool, true, false, List, [], ◌∷◌, Str, codes, In, here, there, Option, none, some, Result, ok,
  err, ◌≡◌, ◌↔◌, ◌⊎◌, inl, inr, refl,
}
use telekom_k8s_breakglass.Api.Session.{Session}
use telekom_k8s_breakglass.Api.Escalation.{Escalation}
use telekom_k8s_breakglass.Escalations.{get_cluster_group_escalations}
use telekom_k8s_breakglass.Policy.First.{NoneDenies}
use telekom_k8s_breakglass.Webhook.Env.{ResourceAttributes, AccessReview, WebhookEnv}
use telekom_k8s_breakglass.Webhook.Sessions.{UserAccess, get_user_groups_and_sessions}
use telekom_k8s_breakglass.Webhook.Impersonate.{SessionGrant, can_groups_do, authorize_via_sessions}
use telekom_k8s_breakglass.Webhook.Impersonate.Groups.{Impersonates}
use telekom_k8s_breakglass.Webhook.Impersonate.Sound.{
  reviewed, Allows, authorize_via_sessions_exact,
}
use telekom_k8s_breakglass.Webhook.Authorize.{
  panicked, unique_groups, action_of, denied_by, handle_authorize,
}
use telekom_k8s_breakglass.Webhook.Authorize.Sound.{
  IsAllowed, RbacAllows, SessionAllows, handle_authorize_sound,
}
use telekom_k8s_breakglass.Webhook.Authorize.Decides.{rbac-decides, non_resource-panics}
use telekom_k8s_breakglass.Webhook.Authorize.Policies.{denied_by_exact}
use telekom_k8s_breakglass.Tests.Samples.{
  Store, running, reading, reading_review, no_delete, webhook,
}

abbrev cluster : Str
cluster = codes "c1"

abbrev store : Store
store = running ∷ []

abbrev access : UserAccess
access = record { groups = codes "ops" ∷ []; sessions = running ∷ []; tenant = [] }

-- The same cluster, whose RBAC allows what is asked; and one whose configuration is missing.
abbrev permissive : WebhookEnv Store (Unit {0})
permissive = record webhook { self_review = λ rc user groups ra w. ok true }

abbrev unconfigured : WebhookEnv Store (Unit {0})
unconfigured = record webhook { rest_config = λ n w. err (codes "no kubeconfig") }

abbrev deleting : ResourceAttributes
deleting = record reading { verb = codes "delete" }

abbrev deleting_review : AccessReview
deleting_review = record reading_review { resource_attributes = some deleting }

abbrev path_review : AccessReview
path_review = record reading_review { resource_attributes = none }

access_read : get_user_groups_and_sessions webhook (codes "ann") cluster store ≡ ok access
unfolding get_user_groups_and_sessions
    telekom_k8s_breakglass.Session.Manager.get_sessions_with_selector
    telekom_k8s_breakglass.Prelude.keep telekom_k8s_breakglass.Webhook.Sessions.counts
access_read = refl

deletion_denied : denied_by webhook (some deleting) cluster access store ≡ some (codes "no-delete")
unfolding denied_by telekom_k8s_breakglass.Policy.match telekom_k8s_breakglass.Policy.match_policies
    telekom_k8s_breakglass.Policy.scope_matches telekom_k8s_breakglass.Policy.rule_matches
    telekom_k8s_breakglass.Policy.contains telekom_k8s_breakglass.Prelude.str_eq
deletion_denied = refl

permissive-access : get_user_groups_and_sessions permissive (codes "ann") cluster store ≡ ok access
unfolding get_user_groups_and_sessions
    telekom_k8s_breakglass.Session.Manager.get_sessions_with_selector
    telekom_k8s_breakglass.Prelude.keep telekom_k8s_breakglass.Webhook.Sessions.counts
permissive-access = refl

reading_passes : denied_by permissive (some reading) cluster access store ≡ none
unfolding denied_by telekom_k8s_breakglass.Policy.match telekom_k8s_breakglass.Policy.match_policies
    telekom_k8s_breakglass.Policy.scope_matches telekom_k8s_breakglass.Policy.rule_matches
    telekom_k8s_breakglass.Policy.contains telekom_k8s_breakglass.Prelude.str_eq
reading_passes = refl

rbac_allows : can_groups_do permissive (some tt) (codes "ops" ∷ []) reading_review store ≡ ok true
unfolding can_groups_do
rbac_allows = refl

permissive_allows : IsAllowed (handle_authorize permissive cluster (ok reading_review) store)
permissive_allows =
    rbac-decides permissive cluster reading_review store access tt permissive-access reading_passes
      refl rbac_allows

handle_authorize_sound_example :
    (user : UserAccess) × (get_user_groups_and_sessions permissive reading_review.user cluster store
      ≡ ok user)
    × (denied_by permissive reading_review.resource_attributes cluster user store ≡ none)
    × (RbacAllows permissive cluster reading_review store user
        ⊎ SessionAllows permissive cluster reading_review store user)
handle_authorize_sound_example =
    handle_authorize_sound permissive cluster reading_review store permissive_allows

unconfigured-access :
    get_user_groups_and_sessions unconfigured (codes "ann") cluster store ≡ ok access
unfolding get_user_groups_and_sessions
    telekom_k8s_breakglass.Session.Manager.get_sessions_with_selector
    telekom_k8s_breakglass.Prelude.keep telekom_k8s_breakglass.Webhook.Sessions.counts
unconfigured-access = refl

abbrev no_escalation : List Escalation
no_escalation = []

escalations_read :
    get_cluster_group_escalations unconfigured.kube unconfigured.config cluster
      (unique_groups unconfigured access.groups)
      store
    ≡ ok no_escalation
unfolding get_cluster_group_escalations telekom_k8s_breakglass.Escalations.collect
    telekom_k8s_breakglass.Prelude.keep telekom_k8s_breakglass.Escalations.cluster_match
    telekom_k8s_breakglass.Prelude.contains telekom_k8s_breakglass.Prelude.str_eq
    telekom_k8s_breakglass.Escalations.group_match
    telekom_k8s_breakglass.Webhook.Sessions.dedupe_strings
escalations_read = refl

non_resource-panics_example :
    handle_authorize unconfigured cluster (ok path_review) store ≡ panicked
non_resource-panics_example =
    non_resource-panics unconfigured cluster path_review store access no_escalation
      (codes "no kubeconfig") unconfigured-access escalations_read refl refl

denied_by_exact_example : (denied_by webhook (some reading) cluster access store ≡ none) ↔ (
    NoneDenies webhook.glob (action_of reading cluster access.tenant []) (no_delete ∷ [])
    × ((s : Session)
        → In s access.sessions
        → NoneDenies webhook.glob
            (action_of reading cluster access.tenant s.name)
            (no_delete ∷ [])))
denied_by_exact_example = denied_by_exact webhook store (no_delete ∷ []) refl reading cluster access

authorize_via_sessions_exact_example :
    ((grant : SessionGrant)
      → authorize_via_sessions webhook tt store reading_review store ≡ some grant
      → (s : Session) × In s store × Allows webhook tt reading store s grant)
    × ((s : Session) (g : Str)
        → webhook.new_client tt ≡ ok tt
        → In s store
        → Impersonates webhook.oidc_prefixes s.spec.granted_group g
        → reviewed webhook tt reading g store ≡ ok true
        → (grant : SessionGrant) × (authorize_via_sessions webhook tt store reading_review store
            ≡ some grant))
authorize_via_sessions_exact_example =
    authorize_via_sessions_exact webhook tt store reading_review reading store refl
