-- ===== src/Clusters/Reached.antt =====
-- The states that a ClientProvider reaches, as a step relation, and what holds in all of them.
use telekom_k8s_breakglass.Prelude.{
  Bool, false, ◌||◌, ◌++◌, codes, ◌≢◌, ap, ◌∙◌, arith, false≢true, has_substring,
  has_substring-append, List, [], Str, find, str_eq, subst, Option-cases, ok, Result-cases,
  ok-injective, ok-ne-err, look_up, All, All-delete_keys, All-look_up, ◌≡◌, refl, sym, inl, inr,
}
use telekom_k8s_breakglass.Api.Cluster.{ClusterConfig}
use telekom_k8s_breakglass.Clusters.{Hub, RestConfig}
use telekom_k8s_breakglass.Clusters.Provider.{
  ClientProvider, cache_key, is_loopback, get_across_all_namespaces, get_in_namespace,
  load_rest_config, get_rest_config, invalidate,
}
use telekom_k8s_breakglass.Clusters.Sound.{
  IsNamespace, IsKeyed, IsRemote, IsSound, not-IsKeyed, across-IsSound, in_namespace-IsSound,
  load_rest_config-IsRemote, rest_config-IsSound,
}

module _ {W R : Type 0} (hub : Hub W R)
    -- Listed ClusterConfigs have a namespace.
    (namespaced : (w : W) (items : List ClusterConfig)
      → hub.list_cluster_configs w ≡ ok items
      → All (λ c. IsNamespace c.namespace) items) where
  abbrev pub fresh : ClientProvider R
  fresh = record { configs = []; rest = [] }

  -- What the provider's methods lead to, each called with any state of the hub.
  pub data Reached : ClientProvider R → Type 0 where
    new : Reached fresh
    across :
        {p : ClientProvider R} (name : Str) (w : W)
        → Reached p
        → Reached (get_across_all_namespaces hub name p w).1
    in_namespace :
        {p : ClientProvider R} (namespace name : Str) (w : W)
        → IsNamespace namespace
        → Reached p
        → Reached (get_in_namespace hub namespace name p w).1
    rest_config :
        {p : ClientProvider R} (name : Str) (w : W)
        → Reached p
        → Reached (get_rest_config hub name p w).1
    invalidated : {p : ClientProvider R} (name : Str) → Reached p → Reached (invalidate name p)

  Reached-IsSound : {p : ClientProvider R} → Reached p → IsSound p
  unfolding invalidate
  Reached-IsSound new = record { keyed = tt; remote = tt }
  Reached-IsSound (across {p} name w r) = across-IsSound hub namespaced name p w (Reached-IsSound r)
  Reached-IsSound (in_namespace {p} namespace name w n r) =
      in_namespace-IsSound hub namespaced namespace name p w n (Reached-IsSound r)
  Reached-IsSound (rest_config {p} name w r) =
      rest_config-IsSound hub namespaced name p w (Reached-IsSound r)
  Reached-IsSound (invalidated {p} name r) =
      let h = Reached-IsSound r in
      record {
        keyed = All-delete_keys IsKeyed _ p.configs h.keyed;
        remote = All-delete_keys IsRemote _ p.rest h.remote;
      }

  get_rest_config-IsRemote :
      (name : Str) (p : ClientProvider R) (w : W) (rc : RestConfig R)
      → Reached p
      → (get_rest_config hub name p w).0 ≡ ok rc
      → is_loopback rc.host ≡ false
  unfolding get_rest_config
  get_rest_config-IsRemote name p w rc r h = elim (Option-cases (look_up p.rest name)) [
    | inr (c, e) ↦
        subst (λ (c : RestConfig R). is_loopback c.host ≡ false)
          (ok-injective (rw (get_rest_config, e) at h))
          (All-look_up IsRemote p.rest e (Reached-IsSound r).remote)
    | inl e ↦ elim (Result-cases (get_across_all_namespaces hub name p w).0) [
      | inr (x, q) ↦ absurd (ok-ne-err (sym (rw (get_rest_config, e, q) at h)))
      | inl (cc, q) ↦ elim (Result-cases (load_rest_config hub cc w)) [
        | inr (x, f) ↦ absurd (ok-ne-err (sym (rw (get_rest_config, e, q, f) at h)))
        | inl (cfg, f) ↦
            subst (λ (c : RestConfig R). is_loopback c.host ≡ false)
              (ok-injective (rw (get_rest_config, e, q, f) at h))
              (load_rest_config-IsRemote hub namespaced name cc w cfg f)
      ]
    ]
  ]

  -- In every state that the provider reaches, a REST configuration that GetRESTConfig returns, from the
  -- cache or newly loaded, has a host in which neither the text `127.0.0.1` nor the text `localhost`
  -- occurs. Other names of the loopback interface are not excluded.
  pub get_rest_config-not_local :
      (name : Str) (p : ClientProvider R) (w : W) (rc : RestConfig R) (before after : Str)
      → Reached p
      → (get_rest_config hub name p w).0 ≡ ok rc
      → (rc.host ≢ before ++ codes "127.0.0.1" ++ after)
        × (rc.host ≢ before ++ codes "localhost" ++ after)
  unfolding is_loopback
  get_rest_config-not_local name p w rc before after r h =
      let remote = get_rest_config-IsRemote name p w rc r h in
      let number = codes "127.0.0.1" in
      let word = codes "localhost" in
      (
        λ e. false≢true (
            sym (or-false remote).0
            ∙ ap (λ s. has_substring s number) e
            ∙ has_substring-append before number after),
        λ e. false≢true (
            sym (or-false remote).1
            ∙ ap (λ s. has_substring s word) e
            ∙ has_substring-append before word after),
      )
    where
      or-false : {a b : Bool} → (a || b) ≡ false → (a ≡ false) × (b ≡ false)
      or-false q = (ground arith, ground arith)

  -- GetAcrossAllNamespaces stores a ClusterConfig under its namespace but looks it up under the empty
  -- one: in every state that the provider reaches it answers as a provider with an empty cache does.
  pub get_across-never_cached :
      (name : Str) (p : ClientProvider R) (w : W)
      → Reached p
      → (get_across_all_namespaces hub name p w).0 ≡ (get_across_all_namespaces hub name fresh w).0
  unfolding get_across_all_namespaces look_up
  get_across-never_cached name p w r = elim (Option-cases (look_up p.configs (cache_key [] name))) [
    | inr (c, e) ↦
        absurd (not-IsKeyed c name (All-look_up IsKeyed p.configs e (Reached-IsSound r).keyed))
    | inl e ↦ elim (Result-cases (hub.list_cluster_configs w)) [
      | inr (x, q) ↦ rw (get_across_all_namespaces, e, q) refl
      | inl (items, q) ↦ elim (Option-cases (find (λ item. str_eq item.name name) items)) [
        | inl f ↦ rw (get_across_all_namespaces, e, q, f) refl
        | inr (cp, f) ↦ rw (get_across_all_namespaces, e, q, f) refl
      ]
    ]
  ]
