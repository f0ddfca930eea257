-- ===== src/Escalations/Possible.antt =====
-- pkg/breakglass/escalation.go: EscalationFiltering, with the extraction of the user's groups as a
-- parameter.
use telekom_k8s_breakglass.Prelude.{
  Bool, true, ◌&&◌, ◌||◌, List, [], ◌∷◌, Str, any, keep, contains, is_empty, str_eq, if◌then◌else◌,
  Result, ok, wrap, ◌>>=◌, ◌≡◌, ◌↔◌, ◌⊎◌, inl, refl, In, str_eq_iff, and_iff, or_iff, keep_iff,
  any_iff, contains_iff,
}
use telekom_k8s_breakglass.Api.Session.{Session}
use telekom_k8s_breakglass.Api.Escalation.{Escalation}
use telekom_k8s_breakglass.Escalations.{strip_oidc_prefixes, prefixes_of, cluster_match}
use telekom_k8s_breakglass.Escalations.Filter.{cluster_match_iff}

-- `intersects`, the map given by its keys.
pub intersects : List Str → List Str → Bool
intersects keys b = any (λ v. contains keys v) b

-- `normalizedAllowedGroups`
pub normalized_groups : List Str → List Str → List Str
normalized_groups prefixes groups =
    if is_empty prefixes then groups else strip_oidc_prefixes groups prefixes

pub is_escalation_possible : List Str → List Str → Str → Escalation → Bool
is_escalation_possible prefixes user_groups cluster esc =
    contains esc.spec.allowed.clusters cluster
    && intersects user_groups (normalized_groups prefixes esc.spec.allowed.groups)

-- The loop's body over the escalations: whether one of them makes the session approvable.
pub is_approvable_by : Str → List Str → Session → Escalation → Bool
unfolding intersects
is_approvable_by user user_groups ses esc =
    str_eq ses.spec.granted_group esc.spec.escalated_group
    && contains esc.spec.allowed.clusters ses.spec.cluster
    && (contains esc.spec.approvers.users user || intersects user_groups esc.spec.approvers.groups)

-- `extract` is UserGroupExtract, which may look at the cluster's state.
module _ {W : Type 0} (extract : Str → Str → W → Result (List Str)) (config : Result (List Str))
    (user cluster : Str) where
  -- FilterForUserPossibleEscalations
  pub filter_for_user_possible_escalations : List Escalation → W → Result (List Escalation)
  unfolding is_escalation_possible
  filter_for_user_possible_escalations escalations w = do
    user_groups ← wrap "failed to get user groups" (extract user cluster w)
    ok (
        keep
          (is_escalation_possible (prefixes_of config)
            (normalized_groups (prefixes_of config) user_groups) cluster)
          escalations)

  -- FilterSessionsForUserApprovable
  pub filter_sessions_for_user_approvable :
      List Session → List Escalation → W → Result (List Session)
  unfolding is_approvable_by
  filter_sessions_for_user_approvable sessions escalations w = do
    user_groups ← wrap "failed to get user rbac cluster groups" (extract user cluster w)
    ok (keep (λ ses. any (is_approvable_by user user_groups ses) escalations) sessions)

-- The two lists have an element in common.
abbrev pub Meets : List Str → List Str → Type 0
Meets xs ys = (v : Str) × In v ys × In v xs

intersects_iff : (xs ys : List Str) → (intersects xs ys ≡ true) ↔ Meets xs ys
unfolding intersects
intersects_iff xs ys = any_iff (λ v. contains xs v) (contains_iff xs) ys

normalized-strip :
    (prefixes groups : List Str)
    → normalized_groups prefixes groups ≡ strip_oidc_prefixes groups prefixes
unfolding normalized_groups strip_oidc_prefixes
normalized-strip [] groups = refl
normalized-strip (p ∷ ps) groups = refl

-- An escalation through which the user can approve the session: it grants the session's group on the
-- session's cluster, and names the user or one of the user's groups as approver.
abbrev pub Approves : Str → List Str → Session → Escalation → Type 0
Approves user groups ses esc =
    (ses.spec.granted_group ≡ esc.spec.escalated_group)
    × In ses.spec.cluster esc.spec.allowed.clusters
    × (In user esc.spec.approvers.users ⊎ Meets groups esc.spec.approvers.groups)

is_approvable_by_iff :
    (user : Str) (groups : List Str) (ses : Session) (esc : Escalation)
    → (is_approvable_by user groups ses esc ≡ true) ↔ Approves user groups ses esc
unfolding is_approvable_by
is_approvable_by_iff user groups ses esc =
    let (to, from) =
      and_iff (and_iff (str_eq_iff _ _) (contains_iff esc.spec.allowed.clusters ses.spec.cluster)) (
        or_iff (contains_iff esc.spec.approvers.users user)
          (intersects_iff groups esc.spec.approvers.groups)) in
    (λ h. let (gc, a) = to h in (gc.0, gc.1, a), λ (g, c, a). from ((g, c), a))

module _ {W : Type 0} (extract : Str → Str → W → Result (List Str)) (config : Result (List Str))
    (user cluster : Str) where
  -- When the user's groups are known, FilterForUserPossibleEscalations keeps the escalations that list
  -- the cluster by its name and that admit one of the user's groups, prefixes stripped on both sides;
  -- so each of them also passes the test on clusters of the look-ups by cluster.
  pub filter_for_user_possible_exact :
      (escalations : List Escalation) (groups : List Str) (w : W)
      → extract user cluster w ≡ ok groups
      → (out : List Escalation) × (filter_for_user_possible_escalations extract config user cluster
            escalations w
          ≡ ok out)
        × ((esc : Escalation)
            → In esc out ↔ (
                In esc escalations
                × (In cluster esc.spec.allowed.clusters
                    × Meets
                        (strip_oidc_prefixes groups (prefixes_of config))
                        (strip_oidc_prefixes esc.spec.allowed.groups (prefixes_of config)))))
        × ((esc : Escalation) → In esc out → cluster_match cluster esc ≡ true)
  unfolding filter_for_user_possible_escalations is_escalation_possible
  filter_for_user_possible_exact escalations groups w e =
      let kept = keep_iff test test_iff escalations in
      (
        keep test escalations,
        rw e,
        kept,
        λ esc m. (cluster_match_iff cluster esc).1 (inl (((kept esc).0 m).1).0),
      )
    where
      prefixes : List Str
      prefixes = prefixes_of config

      test : Escalation → Bool
      test = is_escalation_possible prefixes (normalized_groups prefixes groups) cluster

      test_iff :
          (esc : Escalation)
          → (test esc ≡ true) ↔ (
              In cluster esc.spec.allowed.clusters
              × Meets
                  (strip_oidc_prefixes groups prefixes)
                  (strip_oidc_prefixes esc.spec.allowed.groups prefixes))
      test_iff esc =
          rw
            (
              ← normalized-strip prefixes groups,
              ← normalized-strip prefixes esc.spec.allowed.groups,
            )
            (and_iff (contains_iff esc.spec.allowed.clusters cluster) (intersects_iff _ _))

  -- When the user's groups are known, FilterSessionsForUserApprovable keeps the sessions that the user
  -- can approve through one of the escalations, and no others.
  pub filter_sessions_exact :
      (sessions : List Session) (escalations : List Escalation) (groups : List Str) (w : W)
      → extract user cluster w ≡ ok groups
      → (out : List Session) × (filter_sessions_for_user_approvable extract config user cluster
            sessions escalations w
          ≡ ok out)
        × ((ses : Session)
            → In ses out ↔ (
                In ses sessions
                × ((esc : Escalation) × In esc escalations × Approves user groups ses esc)))
  unfolding filter_sessions_for_user_approvable
  filter_sessions_exact sessions escalations groups w e = (
    keep (λ ses. any (is_approvable_by user groups ses) escalations) sessions,
    rw e,
    keep_iff _
        (λ ses.
          any_iff (is_approvable_by user groups ses) (is_approvable_by_iff user groups ses)
            escalations)
        sessions,
  )
