-- ===== src/Session/Uncounted.antt =====
-- The counters of escalations and the background look-up, which read the escalations of a cluster for no
-- groups.
use telekom_k8s_breakglass.Prelude.{
  List, [], ◌∷◌, Str, codes, str_eq, some, Result-cases, Bool-cases, ok, ◌≡◌, ◌≢◌, inl, inr, refl,
}
use telekom_k8s_breakglass.Api.Session.{OwnerReference}
use telekom_k8s_breakglass.Api.Escalation.{Escalation}
use telekom_k8s_breakglass.Env.{Env}
use telekom_k8s_breakglass.Escalations.{get_cluster_group_escalations}
use telekom_k8s_breakglass.Escalations.Filter.{get_cluster_group-no_groups}
use telekom_k8s_breakglass.Session.Review.{count_first, count_approval}
use telekom_k8s_breakglass.Session.Request.Create.{count_first_request, count_request}
use telekom_k8s_breakglass.Session.Request.Notice.{sync_groups}
use telekom_k8s_breakglass.Members.Keycloak.{GroupMemberResolver}

module _ {W : Type 0} (env : Env W) where
  count_approval-unchanged :
      (cluster : Str) (refs : List OwnerReference) (w : W) → count_approval env cluster refs w ≡ w
  unfolding count_approval count_first
  count_approval-unchanged cluster [] w = refl
  count_approval-unchanged cluster (r ∷ refs) w =
      elim (Bool-cases (str_eq r.kind (codes "BreakglassEscalation"))) [
        | inr q ↦ rw q (count_approval-unchanged cluster refs w)
        | inl q ↦
            elim (Result-cases (get_cluster_group_escalations env.kube env.config cluster [] w)) [
              | inr (x, e) ↦ rw (q, e) (count_approval-unchanged cluster refs w)
              | inl (escs, e) ↦
                  rw (q, e, get_cluster_group-no_groups env.kube env.config cluster w escs e)
                    (count_approval-unchanged cluster refs w)
            ]
      ]

  count_request-unchanged :
      (esc : Escalation) (w : W) → esc.spec.allowed.clusters ≢ [] → count_request env esc w ≡ some w
  unfolding count_request count_first_request
  count_request-unchanged esc w ne = counted esc.spec.allowed.clusters refl
    where
      counted : (cs : List Str) → esc.spec.allowed.clusters ≡ cs → count_request env esc w ≡ some w
      counted [] e = absurd (ne e)
      counted (cluster ∷ others) e =
          elim (Result-cases (get_cluster_group_escalations env.kube env.config cluster [] w)) [
            | inr (x, r) ↦ rw (e, r) refl
            | inl (escs, r) ↦
                rw (e, r, get_cluster_group-no_groups env.kube env.config cluster w escs r) refl
          ]

  -- The counts of an approval and of a request for an escalation that lists a cluster change nothing,
  -- whatever the hub stores; and the background look-up of a request asks the resolver for no group.
  pub counters_unchanged :
      {S : Type 0}
      → (resolver : GroupMemberResolver S) (s : S) (cluster : Str) (refs : List OwnerReference)
        (esc : Escalation) (escs : List Escalation) (w : W)
      → esc.spec.allowed.clusters ≢ []
      → get_cluster_group_escalations env.kube env.config cluster [] w ≡ ok escs
      → (count_approval env cluster refs w ≡ w)
        × (count_request env esc w ≡ some w)
        × (sync_groups resolver escs s ≡ s)
  unfolding sync_groups
  counters_unchanged resolver s cluster refs esc escs w ne e = (
    count_approval-unchanged cluster refs w,
    count_request-unchanged esc w ne,
    rw (get_cluster_group-no_groups env.kube env.config cluster w escs e) refl,
  )
