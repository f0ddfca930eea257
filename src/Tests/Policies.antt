-- ===== src/Tests/Policies.antt =====
-- Deny policies on an attempt to delete pods.
use telekom_k8s_breakglass.Prelude.{
  true, [], ◌∷◌, codes, str_eq, In-cons, not_In-nil, some, ok, err, ◌≡◌, ◌≢◌, ◌↔◌, inl, inr,
}
use telekom_k8s_breakglass.Api.Policy.{DenyPolicyScope, DenyPolicy, DenyRule}
use telekom_k8s_breakglass.Policy.{Action, rule_matches, match}
use telekom_k8s_breakglass.Policy.Rules.{Lists, Blocks, rule_matches_iff}
use telekom_k8s_breakglass.Policy.First.{FirstDenial, NoneDenies, denial, allowance, match_first}
use telekom_k8s_breakglass.Tests.Samples.{no_delete}

abbrev deleting : Action
deleting = record {
  verb = codes "delete";
  api_group = [];
  resource = codes "pods";
  namespace = codes "web";
  name = codes "p";
  subresource = [];
  cluster_id = codes "c1";
  tenant = [];
  session = [];
}

abbrev deletion_rule : DenyRule
deletion_rule = record {
  verbs = codes "delete" ∷ [];
  api_groups = [] ∷ [];
  resources = codes "pods" ∷ [];
  namespaces = [];
  resource_names = [];
  subresources = [];
}

abbrev one_session : DenyPolicyScope
one_session = record { clusters = []; tenants = []; sessions = codes "s1" ∷ [] }

abbrev scoped : DenyPolicy
scoped = record no_delete { applies_to = some one_session }

match_first_example :
    ((match str_eq (ok (no_delete ∷ [])) deleting ≡ ok (denial str_eq deleting (codes "no-delete")))
      ↔ FirstDenial str_eq deleting (codes "no-delete") (no_delete ∷ []))
    × ((match str_eq (ok (no_delete ∷ [])) deleting ≡ ok (allowance str_eq deleting))
        ↔ NoneDenies str_eq deleting (no_delete ∷ []))
    × (match str_eq (err (codes "e")) deleting ≡ err (codes "e"))
match_first_example = match_first str_eq deleting (no_delete ∷ []) (codes "no-delete") (codes "e")

rule_matches_iff_example :
    (rule_matches str_eq deletion_rule deleting ≡ true) ↔ Blocks str_eq deletion_rule deleting
rule_matches_iff_example = rule_matches_iff str_eq deletion_rule deleting

empty-not_listed : ¬ Lists (codes "s1" ∷ []) []
empty-not_listed (inl m) = elim (In-cons m) [ inl e ↦ absurd (cc) | inr n ↦ not_In-nil n ]
empty-not_listed (inr m) = elim (In-cons m) [ inl e ↦ absurd (cc) | inr n ↦ not_In-nil n ]

has_sessions : one_session.sessions ≢ []
has_sessions h = cc
