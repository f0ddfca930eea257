-- ===== src/Clusters/Checker/Checked.antt =====
-- What the verdict of a check says, and where it is stored.
use telekom_k8s_breakglass.Prelude.{
  Bool, false, Str, codes, if◌then◌else◌, some, Option-cases, ok, Result-cases, StrMap, look_up,
  ◌≡◌, ◌≢◌, ◌↔◌, refl, ap, ◌∙◌, inl, inr,
}
use telekom_k8s_breakglass.Api.Session.{Time}
use telekom_k8s_breakglass.Api.Cluster.{ClusterConfig}
use telekom_k8s_breakglass.Kube.{Written}
use telekom_k8s_breakglass.Clusters.{Hub, RestConfig}
use telekom_k8s_breakglass.Clusters.Provider.{secret_key, tune, load_rest_config}
use telekom_k8s_breakglass.Clusters.Checker.{
  Verdict, ready, with_verdict, event_of, is_unreferenced, verdict, persist, set_status_and_event,
  check_one,
}

failed-ne-ready : codes "Failed" ≢ codes "Ready"
failed-ne-ready q = cc

module _ {W R : Type 0} (hub : Hub W R) (now : Time) (has_recorder : Bool) where
  -- The secret exists and has the key, its value parses as a kubeconfig, and the cluster answers.
  abbrev pub IsUsable : ClusterConfig → W → Type 0
  IsUsable cc w =
      (secret : StrMap Str) × (bytes : Str) × (cfg : RestConfig R) × (hub.get_secret
          cc.spec.kubeconfig_secret_ref.namespace cc.spec.kubeconfig_secret_ref.name w
        ≡ ok secret)
      × (look_up secret (secret_key cc) ≡ some bytes)
      × (hub.rest_config_from_kubeconfig bytes ≡ ok cfg)
      × (hub.server_version cfg w ≡ ok tt)

  ready-IsUsable :
      (config : ClusterConfig) (w : W)
      → (verdict hub now has_recorder config w).phase ≡ ready.phase
      → IsUsable config w
  unfolding verdict
  ready-IsUsable config w h =
      let ref = config.spec.kubeconfig_secret_ref in
      elim (Result-cases (hub.get_secret ref.namespace ref.name w)) [
        | inr (x, e) ↦ absurd (failed-ne-ready (rw (verdict, e) at h))
        | inl (secret, e) ↦ elim (Option-cases (look_up secret (secret_key config))) [
          | inl f ↦ absurd (failed-ne-ready (rw (verdict, e, f) at h))
          | inr (bytes, f) ↦ elim (Result-cases (hub.rest_config_from_kubeconfig bytes)) [
            | inr (x, g) ↦ absurd (failed-ne-ready (rw (verdict, e, f, g) at h))
            | inl (cfg, g) ↦ elim (Result-cases (hub.server_version cfg w)) [
              | inr (x, k) ↦ absurd (failed-ne-ready (rw (verdict, e, f, g, k) at h))
              | inl (_, k) ↦ (secret, bytes, cfg, e, f, g, k)
            ]
          ]
        ]
      ]

  -- The phase that a check finds is `Ready` exactly when the secret exists and has the key, its value
  -- parses as a kubeconfig, and the cluster answers.
  pub verdict-ready_iff :
      (config : ClusterConfig) (w : W)
      → ((verdict hub now has_recorder config w).phase ≡ ready.phase) ↔ IsUsable config w
  unfolding verdict
  verdict-ready_iff config w =
      (ready-IsUsable config w, λ (secret, bytes, cfg, e, f, g, k). rw (verdict, e, f, g, k) refl)

  -- Where a check finds the phase `Ready`, the client provider can build the REST configuration of the
  -- same ClusterConfig.
  pub ready-load_rest_config :
      (config : ClusterConfig) (w : W)
      → (verdict hub now has_recorder config w).phase ≡ ready.phase
      → (cfg : RestConfig R) × (load_rest_config hub config w ≡ ok (tune config cfg))
  unfolding load_rest_config
  ready-load_rest_config config w h =
      let (secret, bytes, cfg, e, f, g, k) = ready-IsUsable config w h in
      (cfg, rw (load_rest_config, e, f, g) refl)

  persist-ok :
      (config : ClusterConfig) (w w' : W)
      → hub.update_cluster_config config w ≡ (ok tt, w')
      → persist hub now has_recorder config w ≡ (ok tt, w')
  unfolding persist
  persist-ok config w w' e = rw (persist, e) (ap (λ (x : Written W). (ok tt, x.1)) e)

  -- On a hub whose update of a ClusterConfig leaves the status out, as with a status subresource, a
  -- successful update stores nothing of the verdict: the check leaves the hub as after an update of
  -- the ClusterConfig as it was, but for the event.
  pub verdict_not_stored :
      (config : ClusterConfig) (w w' : W)
      → ((v : Verdict)
          → hub.update_cluster_config (with_verdict now v config) w
            ≡ hub.update_cluster_config config w)
      → is_unreferenced config ≡ false
      → hub.update_cluster_config config w ≡ (ok tt, w')
      → let v = verdict hub now has_recorder config w in
        check_one hub now has_recorder config w ≡ (
          if has_recorder then hub.record_event (event_of v (with_verdict now v config)) w' else w')
  unfolding check_one set_status_and_event
  verdict_not_stored config w w' same r e =
      let v = verdict hub now has_recorder config w in
      let stored = persist-ok (with_verdict now v config) w w' (same v ∙ e) in
      rw (check_one, r, set_status_and_event, stored)
        (ap
          (λ (x : Written W).
            if has_recorder
            then hub.record_event (event_of v (with_verdict now v config)) x.1
            else x.1)
          stored)
