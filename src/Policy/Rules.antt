-- ===== src/Policy/Rules.antt =====
-- scopeMatches and ruleMatches against a reading of their fields as sets.
use telekom_k8s_breakglass.Prelude.{
  Bool, true, not, ◌&&◌, List, [], ◌∷◌, Str, Option, none, some, ◌≡◌, ◌∙◌, ap, ◌↔◌, ◌⊎◌, inl, inr,
  refl, arith, In, here, there, not_In-nil, str_eq, str_eq_iff, is_empty, guard_iff, Bool-cases,
  false≢true,
}
use telekom_k8s_breakglass.Api.Policy.{DenyPolicyScope, DenyRule}
use telekom_k8s_breakglass.Policy.{Action, star, contains, scope_matches, match_any, rule_matches}

-- The value or the star is listed.
abbrev pub Lists : List Str → Str → Type 0
Lists ss v = In v ss ⊎ In star ss

Lists-of_contains : (ss : List Str) (v : Str) → contains ss v ≡ true → Lists ss v
unfolding contains
Lists-of_contains [] v h = elim (false≢true h) [ ]
Lists-of_contains (s ∷ ss) v h = elim (Bool-cases (str_eq s v)) [
  | inl e ↦ inl (here ((str_eq_iff s v).0 e))
  | inr n ↦ elim (Bool-cases (str_eq s star)) [
    | inl e ↦ inr (here ((str_eq_iff s star).0 e))
    | inr n' ↦ elim (Lists-of_contains ss v (rw (n, n') at h)) [
      | inl m ↦ inl (there m)
      | inr m ↦ inr (there m)
    ]
  ]
]

contains-of_Lists : (ss : List Str) (v : Str) → Lists ss v → contains ss v ≡ true
unfolding contains
contains-of_Lists [] v (inl m) = not_In-nil m
contains-of_Lists [] v (inr m) = not_In-nil m
contains-of_Lists (s ∷ ss) v (inl (here e)) = ground (arith, (str_eq_iff s v).1 e)
contains-of_Lists (s ∷ ss) v (inr (here e)) = ground (arith, (str_eq_iff s star).1 e)
contains-of_Lists (s ∷ ss) v (inl (there m)) = ground (arith, contains-of_Lists ss v (inl m))
contains-of_Lists (s ∷ ss) v (inr (there m)) = ground (arith, contains-of_Lists ss v (inr m))

pub contains_iff : (ss : List Str) (v : Str) → (contains ss v ≡ true) ↔ Lists ss v
contains_iff ss v = (Lists-of_contains ss v, contains-of_Lists ss v)

-- An empty selector puts no condition.
abbrev pub Selects : List Str → Str → Type 0
Selects ss v = (ss ≡ []) ⊎ Lists ss v

module _ (glob : Str → Str → Bool) where
  -- Some pattern is the star or matches the value.
  abbrev pub Globs : List Str → Str → Type 0
  Globs ps v = (p : Str) × In p ps × ((p ≡ star) ⊎ (glob p v ≡ true))

  Globs-of_match_any : (ps : List Str) (v : Str) → match_any glob ps v ≡ true → Globs ps v
  unfolding match_any
  Globs-of_match_any [] v h = elim (false≢true h) [ ]
  Globs-of_match_any (p ∷ ps) v h = elim (Bool-cases (str_eq p star)) [
    | inl e ↦ (p, here refl, inl ((str_eq_iff p star).0 e))
    | inr n ↦ elim (Bool-cases (glob p v)) [
      | inl g ↦ (p, here refl, inr g)
      | inr n' ↦ let (q, m, c) = Globs-of_match_any ps v (rw (n, n') at h) in (q, there m, c)
    ]
  ]

  match_any-of_Globs :
      (ps : List Str) (v q : Str)
      → In q ps
      → (q ≡ star) ⊎ (glob q v ≡ true)
      → match_any glob ps v ≡ true
  unfolding match_any
  match_any-of_Globs [] v q m c = not_In-nil m
  match_any-of_Globs (p ∷ ps) v q (here e) (inl s) = ground (arith, (str_eq_iff p star).1 (e ∙ s))
  match_any-of_Globs (p ∷ ps) v q (here e) (inr g) = ground (arith, ap (λ (x : Str). glob x v) e)
  match_any-of_Globs (p ∷ ps) v q (there m) c = ground (arith, match_any-of_Globs ps v q m c)

  match_any_iff : (ps : List Str) (v : Str) → (match_any glob ps v ≡ true) ↔ Globs ps v
  match_any_iff ps v = (Globs-of_match_any ps v, λ (q, m, c). match_any-of_Globs ps v q m c)

-- Every selector of the scope that is not empty lists the action's value.
pub record Covers (s : DenyPolicyScope) (act : Action) : Type 0 where
  pub by_cluster : Selects s.clusters act.cluster_id
  pub by_tenant : Selects s.tenants act.tenant
  pub by_session : Selects s.sessions act.session

abbrev pub InScope : Option DenyPolicyScope → Action → Type 0
InScope none act = Unit
InScope (some s) act = Covers s act

-- Where the scope applies, the evaluator's scope test passes, and conversely; a policy without a
-- scope applies everywhere.
pub scope_matches_iff :
    (s : Option DenyPolicyScope) (act : Action) → (scope_matches s act ≡ true) ↔ InScope s act
unfolding scope_matches
scope_matches_iff none act = (λ _. tt, λ _. refl)
scope_matches_iff (some s) act = (
  λ h. record {
    by_cluster = (guard_iff _ _ (contains_iff _ _)).0 (ground arith);
    by_tenant = (guard_iff _ _ (contains_iff _ _)).0 (ground arith);
    by_session = (guard_iff _ _ (contains_iff _ _)).0 (ground arith);
  },
  λ c. ground (
    arith,
    (guard_iff _ _ (contains_iff s.clusters act.cluster_id)).1 c.by_cluster,
    (guard_iff _ _ (contains_iff s.tenants act.tenant)).1 c.by_tenant,
    (guard_iff _ _ (contains_iff s.sessions act.session)).1 c.by_session,
  ),
)

-- Each field of the rule admits the action; the three optional fields admit all when empty.
pub record Blocks (glob : Str → Str → Bool) (r : DenyRule) (act : Action) : Type 0 where
  pub by_verb : Lists r.verbs act.verb
  pub by_group : Lists r.api_groups act.api_group
  pub by_resource : Lists r.resources act.resource
  pub by_subresource : Selects r.subresources act.subresource
  pub by_namespace : (r.namespaces ≡ []) ⊎ Globs glob r.namespaces act.namespace
  pub by_name : (r.resource_names ≡ []) ⊎ Globs glob r.resource_names act.name

module _ (glob : Str → Str → Bool) where
  subresource_guard :
      (r : DenyRule) (act : Action)
      → (not (is_empty r.subresources)
          && not (contains r.subresources act.subresource)
          && not (contains r.subresources star))
        ≡ (not (is_empty r.subresources) && not (contains r.subresources act.subresource))
  subresource_guard r act = elim (Bool-cases (contains r.subresources star)) [
    | inl e ↦
        rw
          (
            e,
            contains-of_Lists r.subresources act.subresource
                (elim (Lists-of_contains r.subresources star e) [ inl m ↦ inr m | inr m ↦ inr m ]),
          )
          (ground arith)
    | inr n ↦ rw n (ground arith)
  ]

  -- A rule matches exactly when its verbs, groups and resources list the action's, and its
  -- subresources, namespaces and names admit the action's where they are given: an empty list of
  -- namespaces admits every namespace, and the actions outside of namespaces.
  pub rule_matches_iff :
      (r : DenyRule) (act : Action) → (rule_matches glob r act ≡ true) ↔ Blocks glob r act
  unfolding rule_matches
  rule_matches_iff r act = rw (subresource_guard r act) (
    λ h. record {
      by_verb = (contains_iff _ _).0 (ground arith);
      by_group = (contains_iff _ _).0 (ground arith);
      by_resource = (contains_iff _ _).0 (ground arith);
      by_subresource = (guard_iff _ _ (contains_iff _ _)).0 (ground arith);
      by_namespace = (guard_iff _ _ (match_any_iff glob _ _)).0 (ground arith);
      by_name = (guard_iff _ _ (match_any_iff glob _ _)).0 (ground arith);
    },
    λ c. ground (
      arith,
      (contains_iff r.verbs act.verb).1 c.by_verb,
      (contains_iff r.api_groups act.api_group).1 c.by_group,
      (contains_iff r.resources act.resource).1 c.by_resource,
      (guard_iff _ _ (contains_iff r.subresources act.subresource)).1 c.by_subresource,
      (guard_iff _ _ (match_any_iff glob r.namespaces act.namespace)).1 c.by_namespace,
      (guard_iff _ _ (match_any_iff glob r.resource_names act.name)).1 c.by_name,
    ),
  )
