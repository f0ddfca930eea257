-- ===== src/Escalations.antt =====
-- pkg/breakglass/escalation_manager.go, and stripOIDCPrefixes of group_checker.go.
pub mod Filter
pub mod Possible
pub mod Listing
use telekom_k8s_breakglass.Prelude.{
  Bool, true, false, not, ◌&&◌, ◌||◌, List, [], ◌∷◌, ◌++◌, Str, codes, map, any, keep, is_empty,
  contains, str_eq, has_prefix, trim_prefix, has_substring, if◌then◌else◌, Result, ok, err, wrap,
  ◌>>=◌, Option, none, some,
}
use telekom_k8s_breakglass.Api.Escalation.{Escalation}
use telekom_k8s_breakglass.Kube.{Kube, Written}

-- The inner loop of stripOIDCPrefixes: the first configured prefix that the group has is cut off.
pub strip_prefix : List Str → Str → Str
strip_prefix [] group = group
strip_prefix (p ∷ ps) group =
    if has_prefix group p then trim_prefix group p else strip_prefix ps group

unfoldable pub strip_oidc_prefixes : List Str → List Str → List Str
strip_oidc_prefixes groups prefixes =
    if is_empty prefixes then groups else map (strip_prefix prefixes) groups

-- `config.Load` and the choice of prefixes: none when the configuration cannot be read.
abbrev pub prefixes_of : Result (List Str) → List Str
prefixes_of (ok ps) = ps
prefixes_of (err e) = []

-- The escalation applies to the cluster by name or by a ClusterConfig reference.
unfoldable pub cluster_match : Str → Escalation → Bool
cluster_match cluster be =
    contains be.spec.allowed.clusters cluster
    || any (λ ref. str_eq ref cluster || has_substring ref cluster) be.spec.cluster_config_refs

-- The loop over `groups` with `slices.Contains(allowedGroups, g)`.
unfoldable pub group_match : List Str → List Str → Escalation → Bool
group_match prefixes groups be =
    let allowed =
      if is_empty prefixes
      then be.spec.allowed.groups
      else strip_oidc_prefixes be.spec.allowed.groups prefixes in
    any (λ g. contains allowed g) groups

-- `collectedMap[key] = it`. The code reads the map back in an unspecified order; here it is the order
-- of first insertion.
unfoldable pub put : Str → Escalation → List (Str × Escalation) → List (Str × Escalation)
put key it [] = (key, it) ∷ []
put key it ((k, e) ∷ m) =
    let rest = put key it m in if str_eq k key then (k, it) ∷ m else (k, e) ∷ rest

-- `config` is the outcome of `config.Load`, reduced to the OIDC prefixes.
module _ {W : Type 0} (kube : Kube W) (config : Result (List Str)) where
  unfoldable pub get_all_escalations : W → Result (List Escalation)
  get_all_escalations w = wrap "failed to get BreakglassEscalationList" (kube.list_escalations w)

  unfoldable pub get_escalations_with_filter : (Escalation → Bool) → W → Result (List Escalation)
  get_escalations_with_filter filter w = do
    items ← wrap "failed to list BreakglassEscalation for filtered get" (kube.list_escalations w)
    ok (keep filter items)

  -- The index lookup of a listing: what it returns, or nothing when it fails.
  abbrev pub indexed : Str → Str → W → List Escalation
  indexed field value w = elim (kube.select_escalations ((field, value) ∷ []) w) [
    | ok items ↦ items
    | err e ↦ []
  ]

  -- The index lookup, or all escalations if it returned nothing.
  unfoldable pub collect : Str → Str → W → Result (List Escalation)
  unfolding get_all_escalations
  collect field value w =
      let found = indexed field value w in
      if is_empty found then get_all_escalations w else ok found

  unfoldable pub get_cluster_escalations : Str → W → Result (List Escalation)
  unfolding get_escalations_with_filter
  get_cluster_escalations cluster w =
      let out = keep (cluster_match cluster) (indexed (codes "spec.allowed.cluster") cluster w) in
      if is_empty out then get_escalations_with_filter (cluster_match cluster) w else ok out

  unfoldable pub get_cluster_group_escalations : Str → List Str → W → Result (List Escalation)
  get_cluster_group_escalations cluster groups w = do
    collected ← collect (codes "spec.allowed.cluster") cluster w
    ok (
        keep (λ be. cluster_match cluster be && group_match (prefixes_of config) groups be)
          collected)

  unfoldable pub get_cluster_group_target_escalation :
      Str → List Str → Str → W → Result (List Escalation)
  get_cluster_group_target_escalation cluster user_groups target_group w = do
    collected ← collect (codes "spec.escalatedGroup") target_group w
    ok (
        keep
          (λ be.
            str_eq be.spec.escalated_group target_group
            && cluster_match cluster be
            && group_match (prefixes_of config) user_groups be)
          collected)

  unfoldable pub update_escalation_status : Escalation → W → Written W
  update_escalation_status esc w =
      let (r, w') = kube.update_escalation_status esc w in
      (wrap "failed to update BreakglassEscalation status" r, w')

  -- The inner loop of GetGroupBreakglassEscalations over the items that the index gives for `g`.
  pub add_matching : Str → List Escalation → List (Str × Escalation) → List (Str × Escalation)
  add_matching g [] collected = collected
  add_matching g (it ∷ items) collected = add_matching g items (
      if group_match (prefixes_of config) (g ∷ []) it
      then put (it.namespace ++ codes "/" ++ it.name) it collected
      else collected)

  pub add_groups : List Str → W → List (Str × Escalation) → List (Str × Escalation)
  unfolding add_matching
  add_groups [] w collected = collected
  add_groups (g ∷ groups) w collected =
      add_groups groups w (add_matching g (indexed (codes "spec.allowed.group") g w) collected)

  unfoldable pub get_group_escalations : List Str → W → Result (List Escalation)
  unfolding add_groups get_escalations_with_filter
  get_group_escalations groups w =
      let collected = map (λ entry. entry.1) (add_groups groups w []) in
      if is_empty collected
      then get_escalations_with_filter (group_match (prefixes_of config) groups) w
      else ok collected
