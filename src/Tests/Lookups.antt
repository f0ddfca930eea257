-- ===== src/Tests/Lookups.antt =====
-- Look-ups of escalations and sessions in the sample cluster.
use telekom_k8s_breakglass.Prelude.{
  List, [], ◌∷◌, Str, codes, keep, In, Result, ok, ◌≡◌, ◌≢◌, ◌↔◌, refl,
}
use telekom_k8s_breakglass.Api.Escalation.{Escalation}
use telekom_k8s_breakglass.Escalations.{collect, prefixes_of, get_cluster_group_target_escalation}
use telekom_k8s_breakglass.Escalations.Filter.{Serves, Admits}
use telekom_k8s_breakglass.Kube.{Kube}
use telekom_k8s_breakglass.Indices.Exact.{IsIndexed, in_index, target_complete}
use telekom_k8s_breakglass.Session.Manager.{get_sessions_with_selector}
use telekom_k8s_breakglass.Tests.Samples.{Store, running, request, escalation, kube, webhook}

abbrev config : Result (List Str)
config = ok []

abbrev dev : List Str
dev = codes "dev" ∷ []

collected_by_cluster :
    collect kube config (codes "spec.allowed.cluster") (codes "c1") [] ≡ ok (escalation ∷ [])
unfolding collect
collected_by_cluster = refl

collected_by_group :
    collect kube config (codes "spec.escalatedGroup") (codes "ops") [] ≡ ok (escalation ∷ [])
unfolding collect
collected_by_group = refl

abbrev sessions : Store
sessions = running ∷ request ∷ []

sessions_listed :
    get_sessions_with_selector webhook.kube
      ((codes "spec.cluster", codes "c1") ∷ (codes "spec.user", codes "ann") ∷ [])
      sessions
    ≡ ok sessions
unfolding get_sessions_with_selector
sessions_listed = refl

-- The escalation for `ops`, and one for another group.
abbrev both : List Escalation
both =
    escalation
    ∷ record escalation { spec = record escalation.spec { escalated_group = codes "db" } }
    ∷ []

abbrev by_index : (Str × Str) → List Escalation
by_index (field, value) = keep (in_index field value) both

abbrev indexed : Kube Store
indexed = record kube {
  list_escalations = λ w. ok both;
  select_escalations = λ sel w. elim sel [ [] ↦ ok both | e ∷ sel ↦ ok (by_index e) ];
}

indexed-IsIndexed : IsIndexed indexed [] both
indexed-IsIndexed = record { listed = refl; selected = λ field value f. refl }

named : codes "ops" ≢ []
named h = cc

target_complete_example :
    (out : List Escalation) × (get_cluster_group_target_escalation indexed config
        (codes "c1")
        dev
        (codes "ops")
        []
      ≡ ok out)
    × ((be : Escalation)
        → In be out ↔ (
            In be both
            × (be.spec.escalated_group ≡ codes "ops")
            × Serves (codes "c1") be
            × Admits (prefixes_of config) dev be))
target_complete_example =
    target_complete indexed config [] both indexed-IsIndexed (codes "c1") dev (codes "ops") named
