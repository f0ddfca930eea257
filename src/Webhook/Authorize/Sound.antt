-- ===== src/Webhook/Authorize/Sound.antt =====
-- What an answer of the authorization webhook rests on.
use telekom_k8s_breakglass.Prelude.{
  ℕ, false≢true, ok-ne-err, Bool, true, false, List, Str, codes, In, Option, none, some, some-eq,
  Result, ok, err, Result-cases, Option-cases, Bool-cases, ◌≡◌, ◌⊎◌, inl, inr, refl, sym, ap, ◌∙◌,
}
use telekom_k8s_breakglass.Api.Session.{Session}
use telekom_k8s_breakglass.Escalations.{get_cluster_group_escalations}
use telekom_k8s_breakglass.Webhook.Env.{ResourceAttributes, AccessReview, WebhookEnv}
use telekom_k8s_breakglass.Webhook.Sessions.{UserAccess, get_user_groups_and_sessions}
use telekom_k8s_breakglass.Webhook.Impersonate.{SessionGrant, can_groups_do, authorize_via_sessions}
use telekom_k8s_breakglass.Webhook.Impersonate.Sound.{Allows, authorize_via_sessions_exact}
use telekom_k8s_breakglass.Webhook.Authorize.{
  ReviewResponse, Answer, is_missing_config, rbac_outcome, refused, decided, panicked, Rbac,
  denied_by, policy_answer, unique_groups, any_escalation, rbac_check, session_check, conclude,
  escalate, check_access, handle_authorize,
}

-- The answer is a decision that allows the request, or one that does not.
abbrev pub IsAllowed : Answer → Type 0
IsAllowed a = (r : ReviewResponse) × (a ≡ decided r) × (r.allowed ≡ true)

abbrev allowed_of : Answer → Bool
allowed_of (refused c) = false
allowed_of (decided r) = r.allowed
allowed_of panicked = false

refused-not-IsAllowed : {c : ℕ} → ¬ IsAllowed (refused c)
refused-not-IsAllowed (r, e, t) = cc

panicked-not-IsAllowed : ¬ IsAllowed panicked
panicked-not-IsAllowed (r, e, t) = cc

rbac_outcome_sound :
    (skipped : Option Str) (b : Result Bool) {rbac : Rbac}
    → rbac_outcome skipped b ≡ some rbac
    → rbac.can ≡ true
    → b ≡ ok true
unfolding rbac_outcome
rbac_outcome_sound skipped (ok can) h t = ap ok (ap (λ (x : Rbac). x.can) (some-eq h) ∙ t)
rbac_outcome_sound skipped (err msg) {rbac} h t = elim (Bool-cases (is_missing_config msg)) [
  | inl e ↦ absurd (false≢true (ap (λ (x : Rbac). x.can) (some-eq (rw e at h)) ∙ t))
  | inr e ↦ let q : none ≡ some rbac = rw e at h in absurd (cc)
]

module _ {W R : Type 0} (env : WebhookEnv W R) (cluster : Str) (sar : AccessReview) (w : W) where
  -- A client of the target cluster can be made, and the cluster answers with allowed to the review that
  -- the webhook sends for the granted groups of the user's sessions: that of the action with the
  -- resource type in place of the object's name.
  pub record RbacAllows (user : UserAccess) : Type 0 where
    pub rest_config : R
    pub attributes : ResourceAttributes
    pub configured : env.rest_config cluster w ≡ ok rest_config
    pub client : env.new_client rest_config ≡ ok tt
    pub present : sar.resource_attributes ≡ some attributes
    pub answered :
        env.self_review rest_config
          (codes "system:auth-checker")
          user.groups
          (record attributes { name = attributes.resource })
          w
        ≡ ok true

  can_groups_do-allows :
      (user : UserAccess) (rc : R)
      → env.rest_config cluster w ≡ ok rc
      → can_groups_do env (some rc) user.groups sar w ≡ ok true
      → RbacAllows user
  unfolding can_groups_do
  can_groups_do-allows user rc c h = elim (Result-cases (env.new_client rc)) [
    | inr (x, e) ↦ absurd (ok-ne-err (sym (rw (can_groups_do, e) at h)))
    | inl (u, e) ↦ elim (Option-cases sar.resource_attributes) [
      | inl n ↦ absurd (ok-ne-err (sym (rw (can_groups_do, e, n) at h)))
      | inr (ra, q) ↦ record {
        rest_config = rc;
        attributes = ra;
        configured = c;
        client = e;
        present = q;
        answered = rw (can_groups_do, e, q) at h;
      }
    ]
  ]

  -- The target cluster allows the request for a group that a session of the list gives.
  abbrev pub SessionAllows : UserAccess → Type 0
  SessionAllows user =
      (rc : R) × (ra : ResourceAttributes) × (s : Session) × (grant : SessionGrant)
      × (env.rest_config cluster w ≡ ok rc)
      × (sar.resource_attributes ≡ some ra)
      × In s user.sessions
      × Allows env rc ra w s grant

  pub can_groups_do-none :
      (user : UserAccess)
      → can_groups_do env none user.groups sar w ≡ err (codes "rest config is nil")
  unfolding can_groups_do
  can_groups_do-none user = refl

  rbac_check_sound :
      (user : UserAccess) (rbac : Rbac)
      → rbac_check env cluster sar user.groups w ≡ some rbac
      → rbac.can ≡ true
      → RbacAllows user
  unfolding rbac_check
  rbac_check_sound user rbac h t = elim (Result-cases (env.rest_config cluster w)) [
    | inl (rc, e) ↦
        can_groups_do-allows user rc e (rbac_outcome_sound _ _ (rw (e, rbac_check) at h) t)
    | inr (x, e) ↦ absurd (
        ok-ne-err
          (sym (rbac_outcome_sound _ _ (rw (e, rbac_check) at h) t) ∙ can_groups_do-none user))
  ]

  conclude-allowed :
      (sessions : List Session) (allowed : Bool) (reason : Str) (skipped : Option Str)
      → IsAllowed (conclude env cluster sar sessions allowed reason skipped)
      → allowed ≡ true
  unfolding conclude
  conclude-allowed sessions allowed reason skipped (r, e, t) = ap allowed_of e ∙ t

  policy_answer-denies :
      (pol : Str) (user : UserAccess) → ¬ IsAllowed (policy_answer env cluster sar pol user w)
  unfolding policy_answer
  policy_answer-denies pol user (r, e, t) = false≢true (ap allowed_of e ∙ t)

  abbrev is_some : Option SessionGrant → Bool
  is_some none = false
  is_some (some g) = true

  session_check_sound :
      (user : UserAccess) (skipped : Option Str)
      → is_some (session_check env cluster sar user.sessions skipped w).0 ≡ true
      → SessionAllows user
  unfolding session_check
  session_check_sound user skipped h = elim (Option-cases sar.resource_attributes) [
    | inl e ↦ absurd (false≢true (rw (e, session_check) at h))
    | inr (ra, e) ↦ elim (Result-cases (env.rest_config cluster w)) [
      | inr (x, q) ↦ absurd (false≢true (rw (e, q, session_check) at h))
      | inl (rc, q) ↦ elim (Option-cases (authorize_via_sessions env rc user.sessions sar w)) [
        | inl a ↦ absurd (false≢true (rw (e, q, a, session_check) at h))
        | inr (grant, a) ↦
            let (s, m, allows) =
              (authorize_via_sessions_exact env rc user.sessions sar ra w e).0 grant a in
            (rc, ra, s, grant, q, e, m, allows)
      ]
    ]
  ]

  grant-of_decision :
      (o : Option SessionGrant)
      → elim o as (λ _. Bool) [ none ↦ false | some g ↦ true ] ≡ true
      → is_some o ≡ true
  grant-of_decision none h = h
  grant-of_decision (some g) h = refl

  escalate_sound :
      (user : UserAccess) (skipped : Option Str)
      → IsAllowed (escalate env cluster sar user skipped w)
      → SessionAllows user
  unfolding escalate
  escalate_sound user skipped h =
      elim (Result-cases (get_user_groups_and_sessions env sar.user cluster w)) [
        | inr (x, e) ↦ absurd (refused-not-IsAllowed (rw (e, escalate) at h))
        | inl (active, e) ↦
            let groups : List Str = unique_groups env active.groups in
            elim (Result-cases
              (get_cluster_group_escalations env.kube env.config cluster groups w)) [
                | inr (x, q) ↦ absurd (refused-not-IsAllowed (rw (e, q, escalate) at h))
                | inl (escals, q) ↦ elim (Option-cases sar.resource_attributes) [
                  | inl n ↦ absurd (panicked-not-IsAllowed (rw (e, q, n, escalate) at h))
                  | inr (ra, n) ↦
                      elim (Option-cases (any_escalation env cluster ra.group groups w)) [
                        | inl u ↦ absurd (refused-not-IsAllowed (rw (e, q, n, u, escalate) at h))
                        | inr (available, u) ↦ session_check_sound user skipped (
                            grant-of_decision _ (
                              conclude-allowed user.sessions _ _ _
                                (rw (e, q, n, u, escalate) at h)))
                      ]
                ]
              ]
      ]

  check_access_sound :
      (user : UserAccess)
      → IsAllowed (check_access env cluster sar user w)
      → RbacAllows user ⊎ SessionAllows user
  unfolding check_access
  check_access_sound user h = elim (Option-cases (rbac_check env cluster sar user.groups w)) [
    | inl e ↦ absurd (refused-not-IsAllowed (rw (e, check_access) at h))
    | inr (rbac, e) ↦ elim (Bool-cases rbac.can) [
      | inl t ↦ inl (rbac_check_sound user rbac e t)
      | inr f ↦ inr (escalate_sound user rbac.skipped (rw (e, f, check_access) at h))
    ]
  ]

  -- When the webhook allows a request, the user's sessions could be read, no deny policy denied the
  -- request, and the target cluster answered one of two reviews with allowed. Either that of the
  -- granted groups of the user's sessions together, which asks for the action of the request with the
  -- resource type in place of the object's name. Or that of the action of the request itself, for the
  -- granted group of one of those sessions, bare or behind a configured prefix.
  pub handle_authorize_sound :
      IsAllowed (handle_authorize env cluster (ok sar) w)
      → (user : UserAccess) × (get_user_groups_and_sessions env sar.user cluster w ≡ ok user)
        × (denied_by env sar.resource_attributes cluster user w ≡ none)
        × (RbacAllows user ⊎ SessionAllows user)
  unfolding handle_authorize
  handle_authorize_sound h =
      elim (Result-cases (get_user_groups_and_sessions env sar.user cluster w)) [
        | inr (x, e) ↦ absurd (refused-not-IsAllowed (rw (e, handle_authorize) at h))
        | inl (user, e) ↦
            elim (Option-cases (denied_by env sar.resource_attributes cluster user w)) [
              | inr (pol, d) ↦
                  absurd (policy_answer-denies pol user (rw (e, d, handle_authorize) at h))
              | inl d ↦ (user, e, d, check_access_sound user (rw (e, d, handle_authorize) at h))
            ]
      ]
