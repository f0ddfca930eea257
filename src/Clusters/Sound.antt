-- ===== src/Clusters/Sound.antt =====
-- The invariant of a ClientProvider: its keys and its REST configurations. Each method keeps it.
use telekom_k8s_breakglass.Prelude.{
  ℕ, false, List, [], ◌∷◌, ◌++◌, Str, codes, find, str_eq, subst, Option-cases, ok, Result-cases,
  ok-injective, ok-ne-err, look_up, All, All-set_at, ◌≡◌, ◌≢◌, refl, sym, ap, ◌∙◌, inl, inr,
  Bool-cases, find-In, All-at, has_substring, has_prefix,
}
use telekom_k8s_breakglass.Api.Cluster.{ClusterConfig}
use telekom_k8s_breakglass.Clusters.{Hub, RestConfig}
use telekom_k8s_breakglass.Clusters.Provider.{
  ClientProvider, cache_key, is_loopback, reachable_host, tune, get_across_all_namespaces,
  get_in_namespace, load_rest_config, get_rest_config, secret_key,
}

-- A name of a namespace: not empty, and not starting with a slash.
abbrev pub IsNamespace : Str → Type 0
IsNamespace ns = (c : ℕ) × (rest : Str) × (ns ≡ c ∷ rest) × (c ≢ b'/')

-- The key of a ClusterConfig in a namespace.
abbrev pub IsKeyed : Str × ClusterConfig → Type 0
IsKeyed entry = (ns : Str) × (name : Str) × IsNamespace ns × (entry.0 ≡ cache_key ns name)

-- The host of the REST configuration passes the test for loopback hosts as none of them.
abbrev pub IsRemote : {R : Type 0} → Str × RestConfig R → Type 0
IsRemote entry = is_loopback entry.1.host ≡ false

pub reachable_host-remote : (host : Str) → is_loopback (reachable_host host) ≡ false
unfolding reachable_host is_loopback has_substring has_prefix
reachable_host-remote host = elim (Bool-cases (is_loopback host)) [
  | inl e ↦ rw (reachable_host, e) refl
  | inr e ↦ rw (reachable_host, e) e
]

pub not-IsKeyed : (cfg : ClusterConfig) (name : Str) → ¬ IsKeyed (cache_key [] name, cfg)
unfolding cache_key
not-IsKeyed cfg name (ns, n, (c, rest, e, ne), q) = ne (first (q ∙ ap (λ s. s ++ codes "/" ++ n) e))
  where
    first : {a b : ℕ} {s t : Str} → (a ∷ s) ≡ (b ∷ t) → b ≡ a
    first h = cc

pub record IsSound {R : Type 0} (p : ClientProvider R) : Type 0 where
  pub keyed : All IsKeyed p.configs
  pub remote : All IsRemote p.rest

module _ {W R : Type 0} (hub : Hub W R)
    -- Listed ClusterConfigs have a namespace.
    (namespaced : (w : W) (items : List ClusterConfig)
      → hub.list_cluster_configs w ≡ ok items
      → All (λ c. IsNamespace c.namespace) items) where
  pub across-IsSound :
      (name : Str) (p : ClientProvider R) (w : W)
      → IsSound p
      → IsSound (get_across_all_namespaces hub name p w).1
  unfolding get_across_all_namespaces
  across-IsSound name p w h = elim (Option-cases (look_up p.configs (cache_key [] name))) [
    | inr (c, e) ↦ rw (get_across_all_namespaces, e) h
    | inl e ↦ elim (Result-cases (hub.list_cluster_configs w)) [
      | inr (x, q) ↦ rw (get_across_all_namespaces, e, q) h
      | inl (items, q) ↦ elim (Option-cases (find (λ item. str_eq item.name name) items)) [
        | inl f ↦ rw (get_across_all_namespaces, e, q, f) h
        | inr (cp, f) ↦
            rw (get_across_all_namespaces, e, q, f)
              (record {
                keyed =
                    All-set_at IsKeyed (cache_key cp.namespace cp.name) cp p.configs
                      (
                        cp.namespace,
                        cp.name,
                        All-at _ items (namespaced w items q) (find-In _ items f).0,
                        refl,
                      )
                      h.keyed;
                remote = h.remote;
              })
      ]
    ]
  ]

  pub in_namespace-IsSound :
      (namespace name : Str) (p : ClientProvider R) (w : W)
      → IsNamespace namespace
      → IsSound p
      → IsSound (get_in_namespace hub namespace name p w).1
  unfolding get_in_namespace
  in_namespace-IsSound namespace name p w n h =
      elim (Option-cases (look_up p.configs (cache_key namespace name))) [
        | inr (c, e) ↦ rw (get_in_namespace, e) h
        | inl e ↦ elim (Result-cases (hub.get_cluster_config namespace name w)) [
          | inr (x, q) ↦ rw (get_in_namespace, e, q) h
          | inl (cp, q) ↦
              rw (get_in_namespace, e, q)
                (record {
                  keyed =
                      All-set_at IsKeyed (cache_key namespace name) cp p.configs
                        (namespace, name, n, refl) h.keyed;
                  remote = h.remote;
                })
        ]
      ]

  pub load_rest_config-IsRemote :
      (name : Str) (cc : ClusterConfig) (w : W) (cfg : RestConfig R)
      → load_rest_config hub cc w ≡ ok cfg
      → IsRemote (name, cfg)
  unfolding load_rest_config tune
  load_rest_config-IsRemote name cc w cfg h =
      let ref = cc.spec.kubeconfig_secret_ref in
      elim (Result-cases (hub.get_secret ref.namespace ref.name w)) [
        | inr (x, e) ↦ absurd (ok-ne-err (sym (rw (load_rest_config, e) at h)))
        | inl (secret, e) ↦ elim (Option-cases (look_up secret (secret_key cc))) [
          | inl f ↦ absurd (ok-ne-err (sym (rw (load_rest_config, e, f) at h)))
          | inr (raw, f) ↦ elim (Result-cases (hub.rest_config_from_kubeconfig raw)) [
            | inr (x, g) ↦ absurd (ok-ne-err (sym (rw (load_rest_config, e, f, g) at h)))
            | inl (rc, g) ↦
                subst (λ (c : RestConfig R). is_loopback c.host ≡ false)
                  (ok-injective (rw (load_rest_config, e, f, g) at h))
                  (reachable_host-remote rc.host)
          ]
        ]
      ]

  pub rest_config-IsSound :
      (name : Str) (p : ClientProvider R) (w : W)
      → IsSound p
      → IsSound (get_rest_config hub name p w).1
  unfolding get_rest_config
  rest_config-IsSound name p w h =
      let p' = (get_across_all_namespaces hub name p w).1 in
      let s = across-IsSound name p w h in
      elim (Option-cases (look_up p.rest name)) [
        | inr (rc, e) ↦ rw (get_rest_config, e) h
        | inl e ↦ elim (Result-cases (get_across_all_namespaces hub name p w).0) [
          | inr (x, q) ↦ rw (get_rest_config, e, q) s
          | inl (cc, q) ↦ elim (Result-cases (load_rest_config hub cc w)) [
            | inr (x, f) ↦ rw (get_rest_config, e, q, f) s
            | inl (cfg, f) ↦
                rw (get_rest_config, e, q, f)
                  (record {
                    keyed = s.keyed;
                    remote =
                        All-set_at IsRemote name cfg p'.rest
                          (load_rest_config-IsRemote name cc w cfg f) s.remote;
                  })
          ]
        ]
      ]
