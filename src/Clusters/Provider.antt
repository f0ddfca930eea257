-- ===== src/Clusters/Provider.antt =====
-- pkg/cluster/cache.go: ClientProvider. Its field `data` is `configs` here.
use telekom_k8s_breakglass.Prelude.{
  ℕ, Bool, ◌||◌, [], ◌++◌, Str, codes, find, is_empty, str_eq, has_suffix, has_substring,
  if◌then◌else◌, Option, none, some, Result, ok, err, wrap, ◌>>=◌, StrMap, look_up, set_at,
  delete_keys,
}
use telekom_k8s_breakglass.Api.Cluster.{ClusterConfig}
use telekom_k8s_breakglass.Clusters.{Hub, RestConfig}

pub record ClientProvider (R : Type 0) : Type 0 where
  pub configs : StrMap ClusterConfig
  pub rest : StrMap (RestConfig R)

unfoldable pub cache_key : Str → Str → Str
cache_key namespace name = namespace ++ codes "/" ++ name

-- The ClusterConfig's secret key, or the one of Cluster API.
unfoldable pub secret_key : ClusterConfig → Str
secret_key cc =
    if is_empty cc.spec.kubeconfig_secret_ref.key
    then codes "value"
    else cc.spec.kubeconfig_secret_ref.key

unfoldable pub is_loopback : Str → Bool
is_loopback host = has_substring host (codes "127.0.0.1") || has_substring host (codes "localhost")

-- A loopback host is rewritten to the service of the hub.
unfoldable pub reachable_host : Str → Str
unfolding is_loopback
reachable_host host = if is_loopback host then codes "https://kubernetes.default.svc" else host

abbrev or_else : Option ℕ → Option ℕ → Option ℕ
or_else none o = o
or_else (some n) o = some n

-- The settings of the ClusterConfig on what the kubeconfig gives.
unfoldable pub tune : {R : Type 0} → ClusterConfig → RestConfig R → RestConfig R
unfolding reachable_host
tune cc cfg = record cfg {
  host = reachable_host cfg.host;
  qps = or_else cc.spec.qps cfg.qps;
  burst = or_else cc.spec.burst cfg.burst;
}

module _ {W R : Type 0} (hub : Hub W R) where
  -- GetAcrossAllNamespaces
  unfoldable pub get_across_all_namespaces :
      Str → ClientProvider R → W → Result ClusterConfig × ClientProvider R
  unfolding cache_key
  get_across_all_namespaces name p w = elim (look_up p.configs (cache_key [] name)) [
    | some cfg ↦ (ok cfg, p)
    | none ↦ elim (hub.list_cluster_configs w) [
      | err e ↦ (err (codes "list clusterconfigs: " ++ e), p)
      | ok items ↦ elim (find (λ item. str_eq item.name name) items) [
        | none ↦ (err (codes "clusterconfig " ++ name ++ codes " not found"), p)
        | some cp ↦
            (ok cp, record p { configs = set_at (cache_key cp.namespace cp.name) cp p.configs })
      ]
    ]
  ]

  -- GetInNamespace
  unfoldable pub get_in_namespace :
      Str → Str → ClientProvider R → W → Result ClusterConfig × ClientProvider R
  unfolding cache_key
  get_in_namespace namespace name p w = elim (look_up p.configs (cache_key namespace name)) [
    | some cfg ↦ (ok cfg, p)
    | none ↦ elim (hub.get_cluster_config namespace name w) [
      | err e ↦
          (err (codes "get clusterconfig " ++ namespace ++ codes "/" ++ name ++ codes ": " ++ e), p)
      | ok cp ↦ (ok cp, record p { configs = set_at (cache_key namespace name) cp p.configs })
    ]
  ]

  -- GetRESTConfig from the loaded ClusterConfig on.
  unfoldable pub load_rest_config : ClusterConfig → W → Result (RestConfig R)
  unfolding secret_key tune
  load_rest_config cc w = do
    secret ← wrap "fetch kubeconfig secret" (
        hub.get_secret cc.spec.kubeconfig_secret_ref.namespace cc.spec.kubeconfig_secret_ref.name w)
    raw ← elim (look_up secret (secret_key cc)) [
      | some bytes ↦ ok bytes
      | none ↦ err (
          codes "secret "
          ++ cc.spec.kubeconfig_secret_ref.namespace
          ++ codes "/"
          ++ cc.spec.kubeconfig_secret_ref.name
          ++ codes " missing key "
          ++ secret_key cc)
    ]
    cfg ← wrap "parse kubeconfig" (hub.rest_config_from_kubeconfig raw)
    ok (tune cc cfg)

  -- GetRESTConfig
  unfoldable pub get_rest_config :
      Str → ClientProvider R → W → Result (RestConfig R) × ClientProvider R
  unfolding get_across_all_namespaces load_rest_config
  get_rest_config name p w = elim (look_up p.rest name) [
    | some rc ↦ (ok rc, p)
    | none ↦
        let (found, p') = get_across_all_namespaces name p w in
        elim found [
          | err e ↦ (err e, p')
          | ok cc ↦ elim (load_rest_config cc w) [
            | err e ↦ (err e, p')
            | ok cfg ↦ (ok cfg, record p' { rest = set_at name cfg p'.rest })
          ]
        ]
  ]

-- Invalidate
unfoldable pub invalidate : {R : Type 0} → Str → ClientProvider R → ClientProvider R
invalidate name p = record p {
  configs = delete_keys (λ k. has_suffix k (codes "/" ++ name) || str_eq k name) p.configs;
  rest = delete_keys (λ k. str_eq k name) p.rest;
}
