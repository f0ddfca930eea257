-- ===== src/UserGroups/Asked.antt =====
-- Whom getUserGroupsFn asks.
use telekom_k8s_breakglass.Prelude.{
  List, Str, ok, err, Result-cases, ok-injective, ok-ne-err, ◌≡◌, ◌⊎◌, inl, inr, sym,
}
use telekom_k8s_breakglass.Escalations.{strip_oidc_prefixes, prefixes_of}
use telekom_k8s_breakglass.Clusters.{RestConfig}
use telekom_k8s_breakglass.Clusters.Provider.{ClientProvider, get_rest_config}
use telekom_k8s_breakglass.UserGroups.{
  Reviewer, Review, outcome, v1, get_config_for_cluster_name, review_user, get_user_groups,
  ask_target, get_user_groups_fn,
}

module _ {W R : Type 0} (env : Reviewer W R) where
  -- The groups of a review of the user, without their prefixes.
  abbrev pub Reviewed : Review → List Str → Type 0
  Reviewed review groups =
      (raw : List Str) × (outcome review ≡ ok raw)
      × (groups ≡ strip_oidc_prefixes raw (prefixes_of env.config))

  ask_target-Reviewed :
      (rc : RestConfig R) (user : Str) (w : W) (groups : List Str)
      → ask_target env rc user w ≡ ok groups
      → Reviewed (env.self_review v1 rc user w) groups
  unfolding ask_target
  ask_target-Reviewed rc user w groups h = elim (Result-cases (env.new_client rc)) [
    | inr (x, e) ↦ absurd (ok-ne-err (sym (rw (ask_target, e) at h)))
    | inl (_, e) ↦ elim (Result-cases (outcome (env.self_review v1 rc user w))) [
      | inr (x, q) ↦ absurd (ok-ne-err (sym (rw (ask_target, e, q) at h)))
      | inl (raw, q) ↦ (raw, q, sym (ok-injective (rw (ask_target, e, q) at h)))
    ]
  ]

  get_user_groups-Reviewed :
      (user cluster : Str) (w : W) (groups : List Str)
      → get_user_groups env user cluster w ≡ ok groups
      → (cfg : RestConfig R) × (get_config_for_cluster_name env cluster ≡ ok cfg)
        × Reviewed (review_user env cfg user w) groups
  unfolding get_user_groups
  get_user_groups-Reviewed user cluster w groups h =
      elim (Result-cases (get_config_for_cluster_name env cluster)) [
        | inr (x, e) ↦ absurd (ok-ne-err (sym (rw (get_user_groups, e) at h)))
        | inl (cfg, e) ↦ elim (Result-cases (env.new_client cfg)) [
          | inr (x, q) ↦ absurd (ok-ne-err (sym (rw (get_user_groups, e, q) at h)))
          | inl (_, q) ↦ elim (Result-cases (outcome (review_user env cfg user w))) [
            | inr (x, r) ↦ absurd (ok-ne-err (sym (rw (get_user_groups, e, q, r) at h)))
            | inl (raw, r) ↦
                (cfg, e, (raw, r, sym (ok-injective (rw (get_user_groups, e, q, r) at h))))
          ]
        ]
      ]

  -- Groups that getUserGroupsFn returns are those of a review of the user, less their prefixes: on the
  -- target cluster where the client provider has a configuration for it, and else in the context that
  -- is named after the cluster.
  pub get_user_groups_fn_sound :
      (user cluster : Str) (p : ClientProvider R) (w : W) (groups : List Str)
      → (get_user_groups_fn env user cluster p w).0 ≡ ok groups
      → ((rc : RestConfig R) × ((get_rest_config env.hub cluster p w).0 ≡ ok rc)
          × Reviewed (env.self_review v1 rc user w) groups)
        ⊎ ((e : Str) × (cfg : RestConfig R) × ((get_rest_config env.hub cluster p w).0 ≡ err e)
            × (get_config_for_cluster_name env cluster ≡ ok cfg)
            × Reviewed (review_user env cfg user w) groups)
  unfolding get_user_groups_fn
  get_user_groups_fn_sound user cluster p w groups h =
      elim (Result-cases (get_rest_config env.hub cluster p w).0) [
        | inl (rc, e) ↦
            inl (rc, e, ask_target-Reviewed rc user w groups (rw (get_user_groups_fn, e) at h))
        | inr (x, e) ↦
            let (cfg, c, r) =
              get_user_groups-Reviewed user cluster w groups (rw (get_user_groups_fn, e) at h) in
            inr (x, cfg, e, c, r)
      ]
