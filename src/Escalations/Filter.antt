-- ===== src/Escalations/Filter.antt =====
-- What the escalation look-ups return, and how group names are normalised.
use telekom_k8s_breakglass.Prelude.{
  Bool, true, false, ◌&&◌, ◌||◌, List, [], ◌∷◌, ◌++◌, Str, codes, any, keep, In, is_empty, str_eq,
  str_eq_iff, has_prefix, has_substring, if◌then◌else◌, Result, ok, ◌≡◌, ◌∙◌, refl, sym, ◌↔◌, ◌⊎◌,
  inl, inr, arith, and-eq-true, or-eq-true, Result-cases, ok-injective, ok-ne-err, keep-eq-nil,
  any-witness, any-of_In, In-keep, keep-of_In, In-of_contains, contains-of_In, has_prefix-append,
  trim_prefix-append,
}
use telekom_k8s_breakglass.Api.Escalation.{Escalation}
use telekom_k8s_breakglass.Kube.{Kube}
use telekom_k8s_breakglass.Escalations.{
  strip_prefix, strip_oidc_prefixes, prefixes_of, cluster_match, group_match, collect,
  get_cluster_group_escalations, get_cluster_group_target_escalation,
}

-- The escalation lists the cluster, or a ClusterConfig reference that is it or contains its name.
abbrev pub Serves : Str → Escalation → Type 0
Serves cluster be =
    In cluster be.spec.allowed.clusters
    ⊎ ((ref : Str) × In ref be.spec.cluster_config_refs
        × ((ref ≡ cluster) ⊎ (has_substring ref cluster ≡ true)))

-- One of the groups is among the escalation's allowed groups, these with their prefixes stripped.
abbrev pub Admits : List Str → List Str → Escalation → Type 0
Admits prefixes groups be =
    (g : Str) × In g groups × In g (strip_oidc_prefixes be.spec.allowed.groups prefixes)

ref_test_iff :
    (ref cluster : Str)
    → ((str_eq ref cluster || has_substring ref cluster) ≡ true)
      ↔ ((ref ≡ cluster) ⊎ (has_substring ref cluster ≡ true))
ref_test_iff ref cluster = (
  λ h. elim ((or-eq-true _ _).0 h) [ inl e ↦ inl ((str_eq_iff ref cluster).0 e) | inr e ↦ inr e ],
  λ c. elim c [
    | inl e ↦ (or-eq-true _ _).1 (inl ((str_eq_iff ref cluster).1 e))
    | inr e ↦ (or-eq-true _ _).1 (inr e)
  ],
)

pub cluster_match_iff :
    (cluster : Str) (be : Escalation) → (cluster_match cluster be ≡ true) ↔ Serves cluster be
unfolding cluster_match
cluster_match_iff cluster be = (
  λ h. elim ((or-eq-true _ _).0 h) [
    | inl e ↦ inl (In-of_contains be.spec.allowed.clusters e)
    | inr e ↦
        let (ref, m, q) = any-witness _ be.spec.cluster_config_refs e in
        inr (ref, m, (ref_test_iff ref cluster).0 q)
  ],
  λ s. elim s [
    | inl m ↦ (or-eq-true _ _).1 (inl (contains-of_In be.spec.allowed.clusters m))
    | inr (ref, m, c) ↦
        (or-eq-true _ _).1
          (inr (any-of_In _ be.spec.cluster_config_refs m ((ref_test_iff ref cluster).1 c)))
  ],
)

allowed-same :
    (prefixes : List Str) (be : Escalation)
    → (if is_empty prefixes
        then be.spec.allowed.groups
        else strip_oidc_prefixes be.spec.allowed.groups prefixes)
      ≡ strip_oidc_prefixes be.spec.allowed.groups prefixes
unfolding strip_oidc_prefixes
allowed-same [] be = refl
allowed-same (p ∷ ps) be = refl

pub group_match_iff :
    (prefixes groups : List Str) (be : Escalation)
    → (group_match prefixes groups be ≡ true) ↔ Admits prefixes groups be
unfolding group_match
group_match_iff prefixes groups be = rw (allowed-same prefixes be) (
  λ h. let (g, m, e) = any-witness _ groups h in (g, m, In-of_contains _ e),
  λ (g, m, n). any-of_In _ groups m (contains-of_In _ n),
)

module _ {W : Type 0} (kube : Kube W) (config : Result (List Str)) where
  -- When the look-up collected the escalations `found`, GetClusterGroupBreakglassEscalations returns
  -- those of them that serve the cluster and admit one of the groups, and no others.
  pub get_cluster_group_exact :
      (cluster : Str) (groups : List Str) (w : W) (found : List Escalation)
      → collect kube config (codes "spec.allowed.cluster") cluster w ≡ ok found
      → (out : List Escalation) × (get_cluster_group_escalations kube config cluster groups w
          ≡ ok out)
        × ((be : Escalation)
            → In be out ↔ (In be found × Serves cluster be × Admits (prefixes_of config) groups be))
  unfolding get_cluster_group_escalations
  get_cluster_group_exact cluster groups w found e = (
    keep test found,
    rw e,
    λ be. (
      λ m.
          let (n, t) = In-keep test found m in
          let (c, g) = (and-eq-true _ _).0 t in
          (n, (cluster_match_iff cluster be).0 c, (group_match_iff _ groups be).0 g),
      λ (n, c, g). keep-of_In test found n (
          (and-eq-true _ _).1
            ((cluster_match_iff cluster be).1 c, (group_match_iff _ groups be).1 g)),
    ),
  )
    where
      test : Escalation → Bool
      test be = cluster_match cluster be && group_match (prefixes_of config) groups be

  -- When the look-up collected the escalations `found`, GetClusterGroupTargetBreakglassEscalation
  -- returns those of them that grant the target group, serve the cluster and admit one of the groups,
  -- and no others.
  pub get_cluster_group_target_exact :
      (cluster : Str) (groups : List Str) (target : Str) (w : W) (found : List Escalation)
      → collect kube config (codes "spec.escalatedGroup") target w ≡ ok found
      → (out : List Escalation) × (get_cluster_group_target_escalation kube config cluster groups
            target w
          ≡ ok out)
        × ((be : Escalation)
            → In be out ↔ (
                In be found
                × (be.spec.escalated_group ≡ target)
                × Serves cluster be
                × Admits (prefixes_of config) groups be))
  unfolding get_cluster_group_target_escalation
  get_cluster_group_target_exact cluster groups target w found e = (
    keep test found,
    rw e,
    λ be. (
      λ m.
          let (n, t) = In-keep test found m in
          let (tc, g) = (and-eq-true _ _).0 t in
          let (s, c) = (and-eq-true _ _).0 tc in
          (
            n,
            (str_eq_iff _ _).0 s,
            (cluster_match_iff cluster be).0 c,
            (group_match_iff _ groups be).0 g,
          ),
      λ (n, s, c, g). keep-of_In test found n (
          (and-eq-true _ _).1 (
            (and-eq-true _ _).1 ((str_eq_iff _ _).1 s, (cluster_match_iff cluster be).1 c),
            (group_match_iff _ groups be).1 g,
          )),
    ),
  )
    where
      test : Escalation → Bool
      test be =
          str_eq be.spec.escalated_group target
          && cluster_match cluster be
          && group_match (prefixes_of config) groups be

  -- For no groups, a list that GetClusterGroupBreakglassEscalations returns is empty, whatever is
  -- stored.
  pub get_cluster_group-no_groups :
      (cluster : Str) (w : W) (out : List Escalation)
      → get_cluster_group_escalations kube config cluster [] w ≡ ok out
      → out ≡ []
  unfolding get_cluster_group_escalations group_match
  get_cluster_group-no_groups cluster w out h =
      elim (Result-cases (collect kube config (codes "spec.allowed.cluster") cluster w)) [
        | inl (found, e) ↦ sym (ok-injective (rw e at h)) ∙ keep-eq-nil _ found (λ be. ground arith)
        | inr (x, e) ↦ absurd (ok-ne-err (sym (rw e at h)))
      ]

-- Under a list of prefixes none of which the group has, and then one that it has, the stripped group is
-- what follows the latter.
pub strip_prefix-append :
    (before after : List Str) (p g : Str)
    → any (λ q. has_prefix (p ++ g) q) before ≡ false
    → strip_prefix (before ++ p ∷ after) (p ++ g) ≡ g
unfolding strip_prefix
strip_prefix-append [] after p g h = rw (has_prefix-append p g) (trim_prefix-append p g)
strip_prefix-append (q ∷ before) after p g h = ground (arith, strip_prefix-append before after p g)
