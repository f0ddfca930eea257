-- ===== src/Tests/Clusters.antt =====
-- The client provider and the checker on a hub with one ClusterConfig, whose update leaves the status
-- out.
use telekom_k8s_breakglass.Prelude.{
  ℕ, List, [], ◌∷◌, ◌++◌, Str, codes, Bool, true, false, Option, none, some, Result, ok, err,
  ok-injective, look_up, All, ◌+◌, subst, ◌≡◌, ◌≢◌, ◌↔◌, refl, arith, if◌then◌else◌,
}
use telekom_k8s_breakglass.Api.Cluster.{ClusterConfig}
use telekom_k8s_breakglass.Clusters.{Hub, RestConfig}
use telekom_k8s_breakglass.Clusters.Provider.{
  ClientProvider, get_across_all_namespaces, get_in_namespace, get_rest_config, load_rest_config,
  tune, is_loopback,
}
use telekom_k8s_breakglass.Clusters.Sound.{IsNamespace}
use telekom_k8s_breakglass.Clusters.Reached.{
  Reached, fresh, across, get_across-never_cached, get_rest_config-not_local,
}
use telekom_k8s_breakglass.Clusters.Checker.{
  ready, verdict, with_verdict, event_of, is_unreferenced, check_one,
}
use telekom_k8s_breakglass.Clusters.Checker.Checked.{ready-load_rest_config, verdict_not_stored}

abbrev cluster : ClusterConfig
cluster = record {
  name = codes "c1";
  namespace = codes "bg";
  spec = record {
    cluster_id = [];
    tenant = [];
    kubeconfig_secret_ref = record { name = codes "s"; namespace = codes "bg"; key = [] };
    qps = some 20;
    burst = none;
    block_self_approval = false;
    allowed_approver_domains = [];
  };
  status = record { phase = []; message = []; last_check_time = 0 };
}

abbrev local_config : RestConfig (Unit {0})
local_config = record {
  host = codes "https://127.0.0.1:6443";
  qps = none;
  burst = none;
  other = tt;
}

-- The state counts the updates.
abbrev hub : Hub ℕ (Unit {0})
hub = record {
  list_cluster_configs = λ w. ok (cluster ∷ []);
  select_cluster_configs = λ sel w. err (codes "no index");
  get_cluster_config = λ ns n w. ok cluster;
  update_cluster_config = λ c w. (ok tt, w + 1);
  update_cluster_config_status = λ c w. (ok tt, w + 1);
  get_secret = λ ns n w. ok ((codes "value", codes "kubeconfig") ∷ []);
  rest_config_from_kubeconfig = λ s. ok local_config;
  server_version = λ c w. ok tt;
  record_event = λ e w. w;
}

bg-IsNamespace : IsNamespace (codes "bg")
bg-IsNamespace = (98, 103 ∷ [], refl, λ q. omega (arith, q))

namespaced :
    (w : ℕ) (items : List ClusterConfig)
    → hub.list_cluster_configs w ≡ ok items
    → All (λ c. IsNamespace c.namespace) items
namespaced w items e =
    subst (All (λ (c : ClusterConfig). IsNamespace c.namespace)) (ok-injective e)
      (bg-IsNamespace, tt)

abbrev warmed : ClientProvider (Unit {0})
warmed = (get_across_all_namespaces hub (codes "c1") (fresh hub namespaced) 0).1

warmed-Reached : Reached hub namespaced warmed
warmed-Reached = across (codes "c1") 0 Reached.new

get_across-never_cached_example :
    (get_across_all_namespaces hub (codes "c1") warmed 0).0
    ≡ (get_across_all_namespaces hub (codes "c1") (fresh hub namespaced) 0).0
get_across-never_cached_example =
    get_across-never_cached hub namespaced (codes "c1") warmed 0 warmed-Reached

built : (get_rest_config hub (codes "c1") warmed 0).0 ≡ ok (tune cluster local_config)
unfolding get_rest_config look_up telekom_k8s_breakglass.Prelude.find
    telekom_k8s_breakglass.Prelude.str_eq telekom_k8s_breakglass.Prelude.set_at
built = refl

get_rest_config-not_local_example :
    ((tune cluster local_config).host ≢ codes "https://" ++ codes "127.0.0.1" ++ codes ":6443")
    × ((tune cluster local_config).host ≢ codes "https://" ++ codes "localhost" ++ codes ":6443")
get_rest_config-not_local_example =
    get_rest_config-not_local hub namespaced (codes "c1") warmed 0 (tune cluster local_config)
      (codes "https://") (codes ":6443") warmed-Reached built

found_ready : (verdict hub 7 true cluster 0).phase ≡ ready.phase
unfolding verdict look_up telekom_k8s_breakglass.Prelude.str_eq
    telekom_k8s_breakglass.Clusters.Provider.secret_key
found_ready = refl

ready-load_rest_config_example :
    (cfg : RestConfig (Unit {0})) × (load_rest_config hub cluster 0 ≡ ok (tune cluster cfg))
ready-load_rest_config_example = ready-load_rest_config hub 7 true cluster 0 found_ready

referenced : is_unreferenced cluster ≡ false
unfolding is_unreferenced
referenced = refl

verdict_not_stored_example : check_one hub 7 true cluster 0 ≡ (
    if true
    then hub.record_event
        (event_of
          (verdict hub 7 true cluster 0)
          (with_verdict 7 (verdict hub 7 true cluster 0) cluster))
        1
    else 1)
verdict_not_stored_example = verdict_not_stored hub 7 true cluster 0 1 (λ v. refl) referenced refl
