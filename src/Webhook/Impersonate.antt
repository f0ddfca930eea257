-- ===== src/Webhook/Impersonate.antt =====
-- CanGroupsDo (pkg/breakglass/group_checker.go) and authorizeViaSessions: the access reviews on the
-- target cluster.
pub mod Groups
pub mod Sound
use telekom_k8s_breakglass.Prelude.{
  Bool, true, false, not, ◌&&◌, ◌||◌, List, [], ◌∷◌, ◌++◌, Str, codes, map, keep, is_empty, str_eq,
  has_prefix, has_suffix, Option, none, some, Result, ok, err, wrap, ◌>>=◌, if◌then◌else◌,
}
use telekom_k8s_breakglass.Api.Session.{Session, OwnerReference}
use telekom_k8s_breakglass.Api.Escalation.{Escalation}
use telekom_k8s_breakglass.Escalations.{get_escalations_with_filter}
use telekom_k8s_breakglass.Webhook.Env.{ResourceAttributes, AccessReview, WebhookEnv}

-- The prefix of the innermost loop: the first that fits the group; the empty text if none does.
pub fitting_prefix : List Str → Str → Str → Str
fitting_prefix [] ig allowed = []
fitting_prefix (p ∷ ps) ig allowed =
    if has_prefix ig p && has_suffix ig allowed then p else fitting_prefix ps ig allowed

-- The loop over the allowed groups, which goes on past an empty prefix.
pub prefix_of_group : List Str → List Str → Str → Str
unfolding fitting_prefix
prefix_of_group prefixes [] ig = []
prefix_of_group prefixes (allowed ∷ rest) ig =
    let found = fitting_prefix prefixes ig allowed in
    if is_empty found then prefix_of_group prefixes rest ig else found

-- The loop over the groups of the incoming review: the primary prefix.
pub primary_prefix : List Str → List Str → List Str → Str
unfolding prefix_of_group
primary_prefix prefixes allowed [] = []
primary_prefix prefixes allowed (ig ∷ igs) =
    let found = prefix_of_group prefixes allowed ig in
    if is_empty found then primary_prefix prefixes allowed igs else found

-- The groups to impersonate, in order.
pub groups_to_try : List Str → Str → Str → List Str
groups_to_try prefixes primary granted =
    if is_empty primary
    then granted ∷ map (λ p. p ++ granted) prefixes
    else (primary ++ granted)
      ∷ (granted ∷ map (λ p. p ++ granted) (keep (λ p. not (str_eq p primary)) prefixes))

-- What an allowing session access review reports: group, session name and impersonated group.
pub record SessionGrant : Type 0 where
  pub group : Str
  pub session : Str
  pub impersonated : Str

module _ {W R : Type 0} (env : WebhookEnv W R) where
  -- CanGroupsDo. The review names the resource type where the incoming one names the object.
  unfoldable pub can_groups_do : Option R → List Str → AccessReview → W → Result Bool
  can_groups_do none groups sar w = err (codes "rest config is nil")
  can_groups_do (some rc) groups sar w = do
    _ ← wrap "failed to create client" (env.new_client rc)
    elim sar.resource_attributes [
      | none ↦ err (codes "sar spec.resourceAttributes is nil")
      | some ra ↦
          env.self_review rc (codes "system:auth-checker") groups (record ra { name = ra.resource })
            w
    ]

  -- The escalations that an owner reference names.
  abbrev pub owned_by : OwnerReference → W → Result (List Escalation)
  owned_by ref w = get_escalations_with_filter env.kube env.config (λ be. str_eq be.name ref.name) w

  -- The allowed groups of the first escalation found through the owner references.
  pub owner_groups : List OwnerReference → W → List Str
  owner_groups [] w = []
  owner_groups (ref ∷ refs) w =
      let rest = owner_groups refs w in
      elim (owned_by ref w) [
        | err e ↦ rest
        | ok escs ↦ elim escs [ [] ↦ rest | esc ∷ others ↦ esc.spec.allowed.groups ]
      ]

  pub allowed_groups_to_check : Session → W → List Str
  unfolding owner_groups
  allowed_groups_to_check s w =
      let found = owner_groups s.owner_references w in
      if is_empty found then s.spec.granted_group ∷ [] else found

  pub session_groups : Session → AccessReview → W → List Str
  unfolding primary_prefix groups_to_try allowed_groups_to_check
  session_groups s incoming w =
      groups_to_try env.oidc_prefixes
        (primary_prefix env.oidc_prefixes (allowed_groups_to_check s w) incoming.groups)
        s.spec.granted_group

  -- The loop over the groups to impersonate: the first that is allowed. A failed review is skipped.
  pub try_groups : R → ResourceAttributes → List Str → W → Option Str
  try_groups rc ra [] w = none
  try_groups rc ra (g ∷ gs) w =
      let rest = try_groups rc ra gs w in
      elim (env.subject_review rc (codes "system:breakglass-session") (g ∷ []) ra w) [
        | err e ↦ rest
        | ok allowed ↦ if allowed then some g else rest
      ]

  pub try_sessions : R → ResourceAttributes → AccessReview → List Session → W → Option SessionGrant
  unfolding try_groups session_groups
  try_sessions rc ra incoming [] w = none
  try_sessions rc ra incoming (s ∷ ss) w =
      let rest = try_sessions rc ra incoming ss w in
      elim (try_groups rc ra (session_groups s incoming w) w) [
        | none ↦ rest
        | some g ↦
            some (record { group = s.spec.granted_group; session = s.name; impersonated = g })
      ]

  -- authorizeViaSessions; none is the answer that nothing is allowed.
  pub authorize_via_sessions : R → List Session → AccessReview → W → Option SessionGrant
  unfolding try_sessions
  authorize_via_sessions rc sessions incoming w = elim incoming.resource_attributes [
    | none ↦ none
    | some ra ↦ if is_empty sessions then none else elim (env.new_client rc) [
      | err e ↦ none
      | ok _ ↦ try_sessions rc ra incoming sessions w
    ]
  ]
