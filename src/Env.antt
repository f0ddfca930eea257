-- ===== src/Env.antt =====
-- What a handler of pkg/breakglass works with: the hub cluster's client, the clock, the injected
-- functions, and the request with the identity that the middleware put into its context
-- (pkg/breakglass/identity_provider.go).
use telekom_k8s_breakglass.Prelude.{
  ℕ, ℤ, List, Str, codes, map, is_empty, Option, Result, ok, err, if◌then◌else◌,
}
use telekom_k8s_breakglass.Api.Session.{Time}
use telekom_k8s_breakglass.Kube.{Kube}

pub record Env (W : Type 0) : Type 0 where
  pub kube : Kube W
  -- `config.Load`, reduced to `Kubernetes.OIDCPrefixes`
  pub config : Result (List Str)
  -- `time.Now`: a handler's run is taken to happen at one instant
  pub now : Time
  -- `time.ParseDuration`, in nanoseconds; none for an error
  pub parse_duration : Str → Option ℤ
  -- `unicode.ToLower`
  pub to_lower : ℕ → ℕ
  -- the verb `%q` of fmt
  pub quote : Str → Str
  -- `getUserGroupsFn` of a user on a cluster
  pub get_user_groups : Str → Str → W → Result (List Str)

-- `strings.ToLower`
unfoldable pub lowered : {W : Type 0} → Env W → Str → Str
lowered env s = map env.to_lower s

-- gin.Context: the values set by the middleware, the path's `:name`, and the decoded `reason`.
pub record Context : Type 0 where
  pub email : Str
  pub username : Str
  pub groups : Option (List Str)
  pub param_name : Str
  pub reason : Str

-- KeycloakIdentityProvider.GetEmail
unfoldable pub get_email : Context → Result Str
get_email c =
    if is_empty c.email
    then err (codes "keycloak provider failed to retrieve email identity")
    else ok c.email

-- `approverEmail, _ := GetEmail(c)`: the empty text beside an error.
pub email_or_empty : Context → Str
email_or_empty c = c.email

-- KeycloakIdentityProvider.GetUsername
pub get_username : Context → Str
get_username c = c.username
