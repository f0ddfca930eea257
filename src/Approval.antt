-- ===== src/Approval.antt =====
-- pkg/breakglass/session_controller.go: isSessionApprover.
pub mod Exact
use telekom_k8s_breakglass.Prelude.{
  Bool, true, false, not, ◌&&◌, ◌||◌, List, [], ◌∷◌, ◌++◌, Str, codes, any, is_empty, contains,
  str_eq, has_suffix, Option, none, some, if◌then◌else◌, Result, ok, err,
}
use telekom_k8s_breakglass.Api.Session.{Session}
use telekom_k8s_breakglass.Api.Escalation.{Escalation}
use telekom_k8s_breakglass.Api.Cluster.{ClusterConfig}
use telekom_k8s_breakglass.Escalations.{get_cluster_escalations}
use telekom_k8s_breakglass.Env.{Env, Context, lowered, get_email}

abbrev pub or_nil : Result (List Str) → List Str
or_nil (ok gs) = gs
or_nil (err e) = []

module _ {W : Type 0} (env : Env W) where
  -- The approver's groups: the token's, unless they are missing or empty. A failed look-up ends the
  -- check only where the token has no groups at all.
  unfoldable pub approver_groups : Context → Str → Str → W → Result (List Str)
  approver_groups c email cluster w = elim c.groups [
    | none ↦ env.get_user_groups email cluster w
    | some arr ↦ ok (if is_empty arr then or_nil (env.get_user_groups email cluster w) else arr)
  ]

  abbrev config_of : Escalation → Session → W → Result ClusterConfig
  config_of esc session w = env.kube.get_cluster_config esc.namespace session.spec.cluster w

  -- The cluster configuration's settings, overridden by the escalation's.
  unfoldable pub effective_block_self : Escalation → Session → W → Bool
  effective_block_self esc session w = elim esc.spec.block_self_approval [
    | some b ↦ b
    | none ↦ elim (config_of esc session w) [ ok cc ↦ cc.spec.block_self_approval | err e ↦ false ]
  ]

  unfoldable pub effective_allowed_domains : Escalation → Session → W → List Str
  effective_allowed_domains esc session w =
      if is_empty esc.spec.allowed_approver_domains
      then elim (config_of esc session w) [ ok cc ↦ cc.spec.allowed_approver_domains | err e ↦ [] ]
      else esc.spec.allowed_approver_domains

  -- The email ends with `@` and the domain, in lower case.
  pub in_domain : Str → Str → Bool
  in_domain email domain = has_suffix (lowered env email) (codes "@" ++ lowered env domain)

  -- One round of the loop over the escalations: whether it returns true.
  unfoldable pub escalation_approves : Str → List Str → Session → W → Escalation → Bool
  escalation_approves email groups session w esc =
      if not (str_eq esc.spec.escalated_group session.spec.granted_group)
      then false
      else if effective_block_self esc session w && str_eq email session.spec.user
      then false
      else (let domains = effective_allowed_domains esc session w in
          if not (is_empty domains) && not (any (in_domain email) domains)
          then false
          else if contains esc.spec.approvers.users email
          then true
          else any (λ g. contains esc.spec.approvers.groups g) groups)

  unfoldable pub is_session_approver : Context → Session → W → Bool
  is_session_approver c session w = elim (get_email c) [
    | err e ↦ false
    | ok email ↦ elim (approver_groups c email session.spec.cluster w) [
      | err e ↦ false
      | ok groups ↦ elim (get_cluster_escalations env.kube env.config session.spec.cluster w) [
        | err e ↦ false
        | ok escalations ↦ any (escalation_approves email groups session w) escalations
      ]
    ]
  ]
