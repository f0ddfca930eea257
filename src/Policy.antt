-- ===== src/Policy.antt =====
-- pkg/policy/deny.go: deny policies against an attempted action.
pub mod Rules
pub mod First
pub mod Scope
use telekom_k8s_breakglass.Prelude.{
  Bool, true, false, not, ◌&&◌, ◌||◌, List, [], ◌∷◌, Option, none, some, Str, codes, str_eq,
  is_empty, any, if◌then◌else◌, Result, ok, err,
}
use telekom_k8s_breakglass.Api.Policy.{DenyPolicyScope, DenyRule, DenyPolicy}

pub record Action : Type 0 where
  pub verb : Str
  pub api_group : Str
  pub resource : Str
  pub namespace : Str
  pub name : Str
  pub subresource : Str
  pub cluster_id : Str
  pub tenant : Str
  pub session : Str

-- What `Match` returns when the list call succeeds: `denied` and the policy's name.
pub record Verdict : Type 0 where
  pub denied : Bool
  pub policy : Str

abbrev pub star : Str
star = codes "*"

-- `contains`: some element is the value or the star.
unfoldable pub contains : List Str → Str → Bool
contains [] v = false
contains (s ∷ ss) v = str_eq s v || str_eq s star || contains ss v

unfoldable pub scope_matches : Option DenyPolicyScope → Action → Bool
scope_matches none act = true
scope_matches (some s) act =
    if not (is_empty s.clusters) && not (contains s.clusters act.cluster_id)
    then false
    else if not (is_empty s.tenants) && not (contains s.tenants act.tenant)
    then false
    else if not (is_empty s.sessions) && not (contains s.sessions act.session)
    then false
    else true

-- `glob p v` is the Boolean result of `filepath.Match(p, v)`, false for a malformed pattern.
module _ (glob : Str → Str → Bool) where
  -- The `continue` at the end of the loop's body changes nothing.
  pub match_any : List Str → Str → Bool
  match_any [] value = false
  match_any (p ∷ ps) value =
      if str_eq p star then true else if glob p value then true else match_any ps value

  unfoldable pub rule_matches : DenyRule → Action → Bool
  rule_matches r act =
      if not (contains r.verbs act.verb)
      then false
      else if not (contains r.api_groups act.api_group)
      then false
      else if not (contains r.resources act.resource)
      then false
      else if not (is_empty r.subresources)
          && not (contains r.subresources act.subresource)
          && not (contains r.subresources star)
      then false
      else if not (is_empty r.namespaces) && not (match_any r.namespaces act.namespace)
      then false
      else if not (is_empty r.resource_names) && not (match_any r.resource_names act.name)
      then false
      else true

  -- The two loops of `Match` over the listed policies.
  unfoldable pub match_policies : List DenyPolicy → Action → Verdict
  match_policies [] act = record { denied = false; policy = [] }
  match_policies (pol ∷ pols) act =
      let rest = match_policies pols act in
      if not (scope_matches pol.applies_to act)
      then rest
      else if any (λ r. rule_matches r act) pol.rules
      then record { denied = true; policy = pol.name }
      else rest

  -- `Match`; the argument is the outcome of the list call.
  unfoldable pub match : Result (List DenyPolicy) → Action → Result Verdict
  match (err e) act = err e
  match (ok pols) act = ok (match_policies pols act)
