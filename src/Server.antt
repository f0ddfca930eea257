-- ===== src/Server.antt =====
-- pkg/api/api.go: the routes of NewServer and RegisterAll, getConfig, and the proxy to the OIDC authority.
pub mod Proxy
pub mod Routes
use telekom_k8s_breakglass.Prelude.{
  ℕ, Bool, true, false, not, List, [], ◌∷◌, ◌++◌, Str, codes, is_empty, str_eq, has_prefix, ◌==◌,
  if◌then◌else◌, Option, none, some, Result, ok, err,
}
use telekom_k8s_breakglass.Names.{trim_right}
use telekom_k8s_breakglass.Http.{Response, Body, json}

-- config.Config: what the server reads of it.
pub record ServerConfig : Type 0 where
  pub oidc_authority : Str
  pub oidc_client_id : Str
  pub branding_name : Str
  pub authorization_url : Str
  pub jwks_endpoint : Str
  pub certificate_authority : Str

-- The answer to a path without a route: `custom NoRoute`.
pub data Fallback : Type 0 where
  api_not_found : Str → Fallback
  frontend : Fallback

pub no_route : Str → Fallback
no_route path = if has_prefix path (codes "/api/") then api_not_found path else frontend

-- `s.oidcAuthority`; `parse_url` is `url.Parse` followed by `String`, none for an error.
pub oidc_authority_of : (Str → Option Str) → ServerConfig → Option Str
oidc_authority_of parse_url cfg =
    if is_empty cfg.oidc_authority then none else parse_url cfg.oidc_authority

-- APIController: the base path, and the outcome of `Register` under a route.
pub record Controller : Type 0 where
  pub base_path : Str
  pub register : Str → Result (Unit {0})

abbrev pub api_route : Controller → Str
api_route c = codes "/api/" ++ c.base_path

abbrev pub root_route : Controller → Str
root_route c = codes "/" ++ c.base_path

pub is_webhook : Controller → Bool
is_webhook c = str_eq c.base_path (codes "breakglass/webhook")

-- The registration under the legacy root path.
pub register_root : Controller → List Str → Result (Unit {0}) × List Str
unfolding is_webhook
register_root c routes =
    if is_webhook c
    then elim (c.register (root_route c)) [
      | err e ↦ (err e, routes)
      | ok _ ↦ (ok tt, routes ++ root_route c ∷ [])
    ]
    else (ok tt, routes)

-- RegisterAll, with the routes registered so far.
pub register_all : List Controller → List Str → Result (Unit {0}) × List Str
unfolding register_root
register_all [] routes = (ok tt, routes)
register_all (c ∷ cs) routes = elim (c.register (api_route c)) [
  | err e ↦ (err e, routes)
  | ok _ ↦
      let (r, routes') = register_root c (routes ++ api_route c ∷ []) in
      let rest = register_all cs routes' in elim r [ err e ↦ (err e, routes') | ok _ ↦ rest ]
]

-- PublicConfig
pub record PublicConfig : Type 0 where
  pub oidc_authority : Str
  pub oidc_client_id : Str
  pub branding_name : Str
  pub url : Str
  pub jwks_endpoint : Str

-- getConfig; the first argument is `s.oidcAuthority`.
pub get_config : Option Str → ServerConfig → PublicConfig
get_config authority cfg = record {
  oidc_authority = elim authority [
    | none ↦ cfg.oidc_authority
    | some _ ↦ codes "/api/oidc/authority"
  ];
  oidc_client_id = cfg.oidc_client_id;
  branding_name = cfg.branding_name;
  url = cfg.authorization_url;
  jwks_endpoint = cfg.jwks_endpoint;
}

-- How the transport checks the authority's certificate.
pub data TlsCheck : Type 0 where
  roots : Str → TlsCheck
  system_roots : TlsCheck
  insecure_skip_verify : TlsCheck

-- The transport of the proxy; `parses` is `AppendCertsFromPEM`.
pub proxy_tls : (Str → Bool) → ServerConfig → TlsCheck
proxy_tls parses cfg =
    if is_empty cfg.certificate_authority
    then insecure_skip_verify
    else if parses cfg.certificate_authority
    then roots cfg.certificate_authority
    else system_roots

pub record ProxyRequest : Type 0 where
  pub url : Str
  pub accept : Str
  pub tls : TlsCheck

-- The answer of the authority; `streamed` is whether its body was copied to the end.
pub record Upstream : Type 0 where
  pub status_code : ℕ
  pub headers : List (Str × Str)
  pub body : Str
  pub streamed : Bool

-- What the proxy answers: by itself, or what the authority answered. A stream that breaks off has its
-- status sent already.
pub data ProxyAnswer : Type 0 where
  answer : Response → ProxyAnswer
  relayed : Upstream → ProxyAnswer

-- The libraries: `http.NewRequestWithContext` for a URL, and `http.Client.Do`.
pub record ProxyClient : Type 0 where
  pub parses : Str → Bool
  pub new_request : Str → Result (Unit {0})
  pub send : ProxyRequest → Result Upstream

module _ (client : ProxyClient) (cfg : ServerConfig) where
  pub proxy_request : Str → Str → Str → ProxyRequest
  unfolding proxy_tls
  proxy_request authority proxy_path accept = record {
    url = trim_right (λ c. c == b'/') authority ++ proxy_path;
    accept = accept;
    tls = proxy_tls client.parses cfg;
  }

  -- handleOIDCProxy, for `s.oidcAuthority`, the path's wildcard and the Accept header.
  pub handle_oidc_proxy : Option Str → Str → Str → ProxyAnswer
  unfolding proxy_request
  handle_oidc_proxy none proxy_path accept =
      answer (json 404 (Body.problem (codes "OIDC authority not configured")))
  handle_oidc_proxy (some authority) proxy_path accept =
      let req = proxy_request authority proxy_path accept in
      elim (client.new_request req.url) [
        | err e ↦ answer (json 500 (Body.problem (codes "failed to build proxy request")))
        | ok _ ↦ elim (client.send req) [
          | err e ↦ answer (json 502 (Body.problem (codes "failed to fetch from authority")))
          | ok resp ↦ relayed resp
        ]
      ]
