-- ===== src/Clusters/Manager.antt =====
-- pkg/breakglass/cluster_config_manager.go: ClusterConfigManager.
use telekom_k8s_breakglass.Prelude.{
  List, [], ◌∷◌, ◌++◌, Str, codes, find, str_eq, str_eq_iff, str_eq_refl, find-In, find-of_In,
  Option, none, some, Option-cases, Result, ok, err, Result-cases, In, ◌≡◌, ◌⊎◌, inl, inr, refl,
}
use telekom_k8s_breakglass.Api.Cluster.{ClusterConfig}
use telekom_k8s_breakglass.Clusters.{Hub}

-- The loops over the items of a list.
pub first_named : Str → List ClusterConfig → Option ClusterConfig
first_named name items = find (λ item. str_eq item.name name) items

-- `quote` is the verb `%q` of fmt.
module _ {W R : Type 0} (hub : Hub W R) (quote : Str → Str) where
  -- The full listing, to which GetClusterConfigByName falls back.
  pub scan_all : Str → W → Result ClusterConfig
  unfolding first_named
  scan_all name w = elim (hub.list_cluster_configs w) [
    | err e ↦ err (codes "failed to list ClusterConfig resources: " ++ e)
    | ok items ↦ elim (first_named name items) [
      | some cc ↦ ok cc
      | none ↦
          err (codes "failed to get ClusterConfig by name " ++ quote name ++ codes ": not found")
    ]
  ]

  -- GetClusterConfigByName
  pub get_cluster_config_by_name : Str → W → Result ClusterConfig
  unfolding scan_all
  get_cluster_config_by_name name w =
      elim (hub.select_cluster_configs ((codes "metadata.name", name) ∷ []) w) [
        | err e ↦ scan_all name w
        | ok items ↦ elim (first_named name items) [ some cc ↦ ok cc | none ↦ scan_all name w ]
      ]

  -- GetClusterConfigInNamespace
  pub get_cluster_config_in_namespace : Str → Str → W → Result ClusterConfig
  get_cluster_config_in_namespace namespace name w = hub.get_cluster_config namespace name w

module _ {W R : Type 0} (hub : Hub W R) (quote : Str → Str) where
  -- When the hub lists all ClusterConfigs and one of them has the name, GetClusterConfigByName returns
  -- one with that name, whether the index works or not: it is among the listed ones or among those that
  -- the index gave.
  pub get_by_name_complete :
      (w : W) (all : List ClusterConfig) (cc : ClusterConfig)
      → hub.list_cluster_configs w ≡ ok all
      → In cc all
      → (found : ClusterConfig) × (get_cluster_config_by_name hub quote cc.name w ≡ ok found)
        × (found.name ≡ cc.name)
        × (In found all
            ⊎ ((items : List ClusterConfig) × (hub.select_cluster_configs
                    ((codes "metadata.name", cc.name) ∷ [])
                    w
                  ≡ ok items)
                × In found items))
  unfolding get_cluster_config_by_name scan_all first_named
  get_by_name_complete w all cc e m =
      let test = λ (item : ClusterConfig). str_eq item.name cc.name in
      let (scanned, f) = find-of_In test all m (str_eq_refl cc.name) in
      let (inside, t) = find-In test all f in
      let named = (str_eq_iff scanned.name cc.name).0 t in
      elim (Result-cases (hub.select_cluster_configs ((codes "metadata.name", cc.name) ∷ []) w)) [
        | inr (x, q) ↦
            (scanned, rw (get_cluster_config_by_name, q, scan_all, e, f) refl, named, inl inside)
        | inl (items, q) ↦ elim (Option-cases (find test items)) [
          | inl g ↦ (
            scanned,
            rw (get_cluster_config_by_name, q, g, scan_all, e, f) refl,
            named,
            inl inside,
          )
          | inr (found, g) ↦
              let (i, n) = find-In test items g in
              (
                found,
                rw (get_cluster_config_by_name, q, g) refl,
                (str_eq_iff _ _).0 n,
                inr (items, q, i),
              )
        ]
      ]
