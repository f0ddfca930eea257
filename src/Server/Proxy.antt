-- ===== src/Server/Proxy.antt =====
-- What the proxy to the OIDC authority sends.
use telekom_k8s_breakglass.Prelude.{
  [], ◌++◌, Str, ◌==◌, Option, none, some, ok, Result-cases, ◌≡◌, ◌≢◌, refl, ap, ◌∙◌, inl, inr,
}
use telekom_k8s_breakglass.Names.{trim_right}
use telekom_k8s_breakglass.Http.{Response}
use telekom_k8s_breakglass.Server.{
  ServerConfig, insecure_skip_verify, proxy_tls, ProxyRequest, Upstream, answer, relayed,
  ProxyClient, proxy_request, handle_oidc_proxy,
}

answer-ne-relayed : {r : Response} {u : Upstream} → answer r ≢ relayed u
answer-ne-relayed q = cc

relayed-injective : {t u : Upstream} → relayed t ≡ relayed u → t ≡ u
relayed-injective q = cc

module _ (client : ProxyClient) (cfg : ServerConfig) where
  -- What the proxy relays is the answer to a request whose URL is the configured authority, without
  -- slashes at its end, followed by the path that the caller asked for.
  pub relayed_from-authority :
      (authority : Option Str) (path accept : Str) (resp : Upstream)
      → handle_oidc_proxy client cfg authority path accept ≡ relayed resp
      → (a : Str) × (req : ProxyRequest) × (authority ≡ some a)
        × (req.url ≡ trim_right (λ c. c == b'/') a ++ path)
        × (client.send req ≡ ok resp)
  unfolding handle_oidc_proxy proxy_request
  relayed_from-authority none path accept resp h = absurd (answer-ne-relayed h)
  relayed_from-authority (some a) path accept resp h =
      let req = proxy_request client cfg a path accept in
      elim (Result-cases (client.new_request req.url)) [
        | inr (x, e) ↦ absurd (answer-ne-relayed (rw (handle_oidc_proxy, e) at h))
        | inl (_, e) ↦ elim (Result-cases (client.send req)) [
          | inr (x, q) ↦ absurd (answer-ne-relayed (rw (handle_oidc_proxy, e, q) at h))
          | inl (r, q) ↦ (
            a,
            req,
            refl,
            refl,
            q ∙ ap ok (relayed-injective (rw (handle_oidc_proxy, e, q) at h)),
          )
        ]
      ]

  -- Where no certificate authority is configured, the proxy's requests do not verify the authority's
  -- certificate.
  pub proxy_request-insecure :
      (authority path accept : Str)
      → cfg.certificate_authority ≡ []
      → (proxy_request client cfg authority path accept).tls ≡ insecure_skip_verify
  unfolding proxy_request proxy_tls
  proxy_request-insecure authority path accept e = rw e refl
