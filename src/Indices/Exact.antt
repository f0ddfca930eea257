-- ===== src/Indices/Exact.antt =====
-- The look-ups of escalations over a hub whose index lists exactly the objects with the value.
use telekom_k8s_breakglass.Prelude.{
  In-append, append-of_In, Bool, true, false, List, [], ◌∷◌, Str, codes, keep, contains, is_empty,
  str_eq, In-of_contains, contains-of_In, Result, ok, err, ok-injective, In, here, there,
  not_In-nil, In-keep, keep-of_In, ◌≡◌, ◌≢◌, ◌↔◌, ◌⊎◌, inl, inr, refl, sym, ap, ◌∙◌, Bool-cases,
  subst, if◌then◌else◌,
}
use telekom_k8s_breakglass.Api.Escalation.{Escalation}
use telekom_k8s_breakglass.Kube.{Kube}
use telekom_k8s_breakglass.Escalations.{
  prefixes_of, cluster_match, collect, get_all_escalations, get_escalations_with_filter,
  get_cluster_escalations, get_cluster_group_target_escalation,
}
use telekom_k8s_breakglass.Escalations.Filter.{
  Serves, Admits, cluster_match_iff, get_cluster_group_target_exact,
}
use telekom_k8s_breakglass.Indices.{escalation_index}

abbrev pub in_index : Str → Str → Escalation → Bool
in_index field value be = contains (escalation_index field be) value

-- The indexed fields of an escalation.
abbrev escalation_fields : List Str
escalation_fields =
    codes "spec.allowed.cluster" ∷ codes "spec.allowed.group" ∷ codes "spec.escalatedGroup" ∷ []

-- The hub holds the escalations `all`, and its index lists those with the value.
pub record IsIndexed {W : Type 0} (kube : Kube W) (w : W) (all : List Escalation) : Type 0 where
  pub listed : kube.list_escalations w ≡ ok all
  pub selected :
      (field value : Str)
      → In field escalation_fields
      → kube.select_escalations ((field, value) ∷ []) w ≡ ok (keep (in_index field value) all)

nonempty-of_In : {a : Escalation} (xs : List Escalation) → In a xs → is_empty xs ≡ false
nonempty-of_In [] m = not_In-nil m
nonempty-of_In (x ∷ xs) m = refl

module _ {W : Type 0} (kube : Kube W) (config : Result (List Str)) (w : W) (all : List Escalation)
    (hub : IsIndexed kube w all) where
  collect-cases :
      (field value : Str)
      → In field escalation_fields
      → (collect kube config field value w ≡ ok all)
        ⊎ (collect kube config field value w ≡ ok (keep (in_index field value) all))
  unfolding collect get_all_escalations
  collect-cases field value f = elim (Bool-cases (is_empty (keep (in_index field value) all))) [
    | inl e ↦ inl (ap pick (hub.selected field value f) ∙ rw (e, hub.listed) refl)
    | inr e ↦ inr (ap pick (hub.selected field value f) ∙ rw e refl)
  ]
    where
      pick : Result (List Escalation) → Result (List Escalation)
      pick r =
          let found : List Escalation = elim r [ ok items ↦ items | err e ↦ [] ] in
          if is_empty found then get_all_escalations kube config w else ok found

  in_target :
      (target : Str) (be : Escalation)
      → target ≢ []
      → be.spec.escalated_group ≡ target
      → in_index (codes "spec.escalatedGroup") target be ≡ true
  unfolding escalation_index str_eq
  in_target target be ne e = contains-of_In _ (found be.spec.escalated_group e)
    where
      found : (g : Str) → g ≡ target → In target (if is_empty g then [] else g ∷ [])
      found [] q = absurd (ne (sym q))
      found (c ∷ g) q = here q

  -- Over a hub whose index works, GetClusterGroupTargetBreakglassEscalation returns exactly those of all
  -- escalations that grant the target group, serve the cluster and admit one of the groups, if the
  -- target group has a name.
  pub target_complete :
      (cluster : Str) (groups : List Str) (target : Str)
      → target ≢ []
      → (out : List Escalation) × (get_cluster_group_target_escalation kube config cluster groups
            target w
          ≡ ok out)
        × ((be : Escalation)
            → In be out ↔ (
                In be all
                × (be.spec.escalated_group ≡ target)
                × Serves cluster be
                × Admits (prefixes_of config) groups be))
  target_complete cluster groups target ne =
      let field = codes "spec.escalatedGroup" in
      elim (collect-cases field target (there (there (here refl)))) [
        | inl e ↦ get_cluster_group_target_exact kube config cluster groups target w all e
        | inr e ↦
            let (out, r, same) =
              get_cluster_group_target_exact kube config cluster groups target w
                (keep (in_index field target) all) e in
            (
              out,
              r,
              λ be. (
                λ m.
                    let (i, g, s, a) = (same be).0 m in
                    ((In-keep (in_index field target) all i).0, g, s, a),
                λ (i, g, s, a).
                    (same be).1 (
                      keep-of_In (in_index field target) all i (in_target target be ne g),
                      g,
                      s,
                      a,
                    ),
              ),
            )
      ]

  -- Over a hub whose index works, once an escalation lists the cluster by its name,
  -- GetClusterBreakglassEscalations returns only escalations that list the cluster, or a ClusterConfig
  -- reference that is its name: references that merely contain the name count only while there is none.
  contained_refs-hidden :
      (cluster : Str) (named : Escalation) (out : List Escalation) (be : Escalation)
      → In named all
      → In cluster named.spec.allowed.clusters
      → get_cluster_escalations kube config cluster w ≡ ok out
      → In be out
      → In cluster be.spec.allowed.clusters ⊎ In cluster be.spec.cluster_config_refs
  unfolding get_cluster_escalations escalation_index str_eq
  contained_refs-hidden cluster named out be m c h i =
      let field = codes "spec.allowed.cluster" in
      let test = in_index field cluster in
      let found = keep test all in
      let inside : In named (keep (cluster_match cluster) found) =
        keep-of_In (cluster_match cluster) found
          (keep-of_In test all m (contains-of_In _ (append-of_In _ _ c)))
          ((cluster_match_iff cluster named).1 (inl c)) in
      let same : keep (cluster_match cluster) found ≡ out = ok-injective (
        rw (nonempty-of_In _ inside) at
          (sym (ap pick (hub.selected field cluster (here refl))) ∙ h)) in
      let (j, _) = In-keep (cluster_match cluster) found (subst (In be) (sym same) i) in
      In-append be.spec.allowed.clusters be.spec.cluster_config_refs
        (In-of_contains _ (In-keep test all j).1)
    where
      pick : Result (List Escalation) → Result (List Escalation)
      pick r =
          let found = keep (cluster_match cluster) (elim r [ ok items ↦ items | err e ↦ [] ]) in
          if is_empty found
          then get_escalations_with_filter kube config (cluster_match cluster) w
          else ok found
