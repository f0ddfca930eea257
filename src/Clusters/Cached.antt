-- ===== src/Clusters/Cached.antt =====
-- The cache of ClientProvider: its keys, what it answers, and what Invalidate removes.
use mathlib.Core.List.{append_assoc}
use telekom_k8s_breakglass.Prelude.{
  true, ◌||◌, ◌++◌, Str, codes, str_eq, str_eq_refl, has_suffix, has_suffix-append, none, some,
  Option-cases, ok, Result-cases, ok-injective, ok-ne-err, look_up, delete_keys, look_up-set_at,
  look_up-delete_keys, ◌≡◌, refl, sym, ap, inl, inr, or-eq-true,
}
use telekom_k8s_breakglass.Api.Cluster.{ClusterConfig}
use telekom_k8s_breakglass.Clusters.{Hub}
use telekom_k8s_breakglass.Clusters.Provider.{
  ClientProvider, cache_key, get_in_namespace, invalidate,
}

module _ {W R : Type 0} (hub : Hub W R) where
  get_in_namespace-stored :
      (namespace name : Str) (p p' : ClientProvider R) (w : W) (cfg : ClusterConfig)
      → get_in_namespace hub namespace name p w ≡ (ok cfg, p')
      → look_up p'.configs (cache_key namespace name) ≡ some cfg
  unfolding get_in_namespace
  get_in_namespace-stored namespace name p p' w cfg h =
      elim (Option-cases (look_up p.configs (cache_key namespace name))) [
        | inr (c, e) ↦
            let q = rw (e, get_in_namespace) at h in
            rw (← ap (λ r. r.1) q, e) (ap some (ok-injective (ap (λ r. r.0) q)))
        | inl e ↦ elim (Result-cases (hub.get_cluster_config namespace name w)) [
          | inr (x, g) ↦ absurd (ok-ne-err (sym (ap (λ r. r.0) (rw (e, g, get_in_namespace) at h))))
          | inl (c, g) ↦
              let q = rw (e, g, get_in_namespace) at h in
              rw (← ap (λ r. r.1) q, look_up-set_at (cache_key namespace name) c p.configs)
                (ap some (ok-injective (ap (λ r. r.0) q)))
        ]
      ]

  -- After GetInNamespace has answered with a ClusterConfig, it answers with the same one, from the
  -- cache, whatever the hub holds by then.
  pub get_in_namespace_again :
      (later_hub : Hub W R) (namespace name : Str) (p p' : ClientProvider R) (w later : W)
      (cfg : ClusterConfig)
      → get_in_namespace hub namespace name p w ≡ (ok cfg, p')
      → get_in_namespace later_hub namespace name p' later ≡ (ok cfg, p')
  unfolding get_in_namespace
  get_in_namespace_again later_hub namespace name p p' w later cfg h =
      rw (get_in_namespace, get_in_namespace-stored namespace name p p' w cfg h) refl

  -- After Invalidate of a name, GetInNamespace of that name in any namespace asks the hub, and
  -- GetRESTConfig of it builds the configuration again.
  pub invalidate-clears :
      (namespace name : Str) (p : ClientProvider R) (w : W) (cfg : ClusterConfig)
      → hub.get_cluster_config namespace name w ≡ ok cfg
      → ((get_in_namespace hub namespace name (invalidate name p) w).0 ≡ ok cfg)
        × (look_up (invalidate name p).rest name ≡ none)
  unfolding get_in_namespace invalidate cache_key
  invalidate-clears namespace name p w cfg e = (
    rw (get_in_namespace, gone, e) refl,
    look_up-delete_keys (λ k. str_eq k name) name p.rest (str_eq_refl name),
  )
    where
      ends : has_suffix (namespace ++ codes "/" ++ name) (codes "/" ++ name) ≡ true
      ends =
          rw (append_assoc namespace (codes "/") name)
            (has_suffix-append namespace (codes "/" ++ name))

      gone :
          look_up
            (delete_keys (λ k. has_suffix k (codes "/" ++ name) || str_eq k name) p.configs)
            (namespace ++ codes "/" ++ name)
          ≡ none
      gone =
          look_up-delete_keys (λ k. has_suffix k (codes "/" ++ name) || str_eq k name)
            (namespace ++ codes "/" ++ name) p.configs ((or-eq-true _ _).1 (inl ends))
