-- ===== src/Startup.antt =====
-- What the main function of cmd/main.go and NewAuth of pkg/api/auth.go choose when the program starts.
pub mod Noop
use telekom_k8s_breakglass.Prelude.{
  ℤ, Bool, true, false, not, ◌&&◌, ◌||◌, [], ◌++◌, Str, codes, is_empty, str_eq, if◌then◌else◌,
  Option, none, some,
}
use telekom_k8s_breakglass.Api.Session.{Time}
use telekom_k8s_breakglass.Members.Keycloak.{
  GroupMemberResolver, KeycloakConfig, KcCache, Client, resolve_members,
}

-- The configuration of `&KeycloakGroupMemberResolver{}`: all fields have their zero value.
abbrev zero_keycloak : KeycloakConfig
zero_keycloak = record {
  base_url = [];
  realm = [];
  client_id = [];
  client_secret = [];
  cache_ttl = [];
  request_timeout = [];
  disable = false;
}

-- main: Keycloak is used where it is not disabled and is fully configured.
unfoldable pub keycloak_enabled : KeycloakConfig → Bool
keycloak_enabled cfg =
    not cfg.disable
    && not (is_empty cfg.base_url)
    && not (is_empty cfg.realm)
    && not (is_empty cfg.client_id)

-- The resolver that main gives to the escalation manager and to the updater.
pub chosen_resolver : Client → KeycloakConfig → Time → GroupMemberResolver KcCache
unfolding keycloak_enabled
chosen_resolver client cfg now = record {
  members = λ g cache.
      resolve_members client (if keycloak_enabled cfg then cfg else zero_keycloak) now g cache;
}

-- The recorder's namespace, from `POD_NAMESPACE`
pub recorder_namespace : Str → Str
recorder_namespace pod_ns = if is_empty pod_ns then codes "default" else pod_ns

-- Whether the webhooks are registered, from `ENABLE_WEBHOOK_MANAGER`
pub webhook_manager_enabled : Str → Bool
webhook_manager_enabled value = is_empty value || str_eq value (codes "true")

-- config.AuthorizationServer: what NewAuth reads
pub record AuthorizationServer : Type 0 where
  pub url : Str
  pub jwks_endpoint : Str
  pub certificate_authority : Str
  pub insecure_skip_verify : Bool

-- The TLS configuration of the client that fetches the keys: a certificate pool, no verification, or
-- that of the system.
pub data JwksTls : Type 0 where
  root_cas : Str → JwksTls
  skip_verify : JwksTls
  system_roots : JwksTls

pub jwks_url : AuthorizationServer → Str
jwks_url cfg = cfg.url ++ codes "/" ++ cfg.jwks_endpoint

-- The argument is AppendCertsFromPEM; none is the exit of log.Fatalf.
pub jwks_tls : (Str → Bool) → AuthorizationServer → Option JwksTls
jwks_tls append_certs cfg =
    if not (is_empty cfg.certificate_authority)
    then (if append_certs cfg.certificate_authority
        then some (JwksTls.root_cas cfg.certificate_authority)
        else none)
    else if cfg.insecure_skip_verify
    then some JwksTls.skip_verify
    else some JwksTls.system_roots
