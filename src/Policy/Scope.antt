-- ===== src/Policy/Scope.antt =====
-- What the evaluator does and does not look at.
use telekom_k8s_breakglass.Prelude.{
  ℕ, Bool, List, [], ◌∷◌, Str, Option, some, ◌≡◌, ◌≢◌, inl, inr, refl, subst,
}
use telekom_k8s_breakglass.Api.Policy.{DenyPolicyScope, DenyRule, DenyPolicy}
use telekom_k8s_breakglass.Policy.{Action, rule_matches, match_policies}
use telekom_k8s_breakglass.Policy.Rules.{Lists, Covers}
use telekom_k8s_breakglass.Policy.First.{Denies}

-- A policy whose scope names sessions, neither the empty one nor the star, denies no action that
-- carries no session.
pub session_policy-not_global :
    (glob : Str → Str → Bool) (p : DenyPolicy) (s : DenyPolicyScope) (act : Action)
    → p.applies_to ≡ some s
    → s.sessions ≢ []
    → ¬ Lists s.sessions []
    → act.session ≡ []
    → ¬ Denies glob p act
session_policy-not_global glob p s act e ne out global d = elim covers.by_session [
  | inl empty ↦ ne empty
  | inr listed ↦ out (subst (λ v. Lists s.sessions v) global listed)
]
  where
    covers : Covers s act
    covers = (rw e at d.scope)

-- The policies with their precedences chosen anew.
abbrev pub rerank : (DenyPolicy → Option ℕ) → List DenyPolicy → List DenyPolicy
rerank rank [] = []
rerank rank (p ∷ ps) = record p { precedence = rank p } ∷ rerank rank ps

-- The verdict does not depend on the policies' precedences: any change of them leaves it.
precedence_ignored :
    (glob : Str → Str → Bool) (rank : DenyPolicy → Option ℕ) (act : Action) (ps : List DenyPolicy)
    → match_policies glob (rerank rank ps) act ≡ match_policies glob ps act
unfolding match_policies
precedence_ignored glob rank act [] = refl
precedence_ignored glob rank act (p ∷ ps) = rw (precedence_ignored glob rank act ps)

-- A rule that lists no subresources treats an action and the same action on any subresource alike.
pub no_subresources-any :
    (glob : Str → Str → Bool) (r : DenyRule) (act : Action) (sub : Str)
    → r.subresources ≡ []
    → rule_matches glob r (record act { subresource = sub }) ≡ rule_matches glob r act
unfolding rule_matches
no_subresources-any glob r act sub e = rw e
