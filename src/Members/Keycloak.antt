-- ===== src/Members/Keycloak.antt =====
-- pkg/breakglass/escalation_status_updater.go: GroupMemberResolver, and KeycloakGroupMemberResolver with
-- its cache. The HTTP client, the escaping of net/url, the JSON decoders and strings.EqualFold are
-- parameters.
pub mod Cached
use telekom_k8s_breakglass.Prelude.{
  ℕ, ◌*◌, ◌+◌, ℤ, Bool, true, false, ◌||◌, List, [], ◌∷◌, ◌++◌, Str, String, codes, is_empty, ltb,
  str_eq, ◌==◌, if◌then◌else◌, Option, none, some, Result, ok, err, ◌>>=◌, StrMap, look_up, set_at,
  decimal,
}
use telekom_k8s_breakglass.Api.Session.{Time}
use telekom_k8s_breakglass.Names.{trim_right}
use telekom_k8s_breakglass.Session.{positive_or}
use telekom_k8s_breakglass.Members.{normalize_members}

-- GroupMemberResolver, with the state `S` that an implementation keeps: `Members` of a group.
pub record GroupMemberResolver (S : Type 0) : Type 0 where
  pub members : Str → S → Result (List Str) × S

-- `config.Keycloak`
pub record KeycloakConfig : Type 0 where
  pub base_url : Str
  pub realm : Str
  pub client_id : Str
  pub client_secret : Str
  pub cache_ttl : Str
  pub request_timeout : Str
  pub disable : Bool

pub record KcEntry : Type 0 where
  pub members : List Str
  pub expires : Time

pub record KcCache : Type 0 where
  pub items : StrMap KcEntry
  pub ttl : Time

-- kcCache.get
unfoldable pub get : Time → Str → KcCache → Option (List Str)
get now k c = elim (look_up c.items k) [
  | none ↦ none
  | some e ↦ if ltb e.expires now then none else some e.members
]

-- kcCache.set
pub set : Time → Str → List Str → KcCache → KcCache
set now k v c = record c {
  items = set_at k (record { members = v; expires = now + c.ttl }) c.items;
}

abbrev second : Time
second = 1000000000

-- What NewKeycloakGroupMemberResolver sets up: the client's timeout and the empty cache.
pub record KeycloakSetup : Type 0 where
  pub timeout : Time
  pub cache : KcCache

-- NewKeycloakGroupMemberResolver; the argument is `time.ParseDuration`, none for an error.
pub new_resolver : (Str → Option ℤ) → KeycloakConfig → KeycloakSetup
new_resolver parse cfg = record {
  timeout = positive_or (10 * second) (parse cfg.request_timeout);
  cache = record { items = []; ttl = positive_or (10 * 60 * second) (parse cfg.cache_ttl) };
}

pub record HttpRequest : Type 0 where
  pub method : Str
  pub url : Str
  pub authorization : Str
  pub content_type : Str
  pub body : Str

pub record HttpResponse : Type 0 where
  pub status_code : ℕ
  pub body : Str

pub record KcGroup : Type 0 where
  pub id : Str
  pub name : Str

pub record KcMember : Type 0 where
  pub username : Str
  pub email : Str

-- The libraries that the resolver calls.
pub record Client : Type 0 where
  -- `http.Client.Do`
  pub send : HttpRequest → Result HttpResponse
  pub path_escape : Str → Str
  pub query_escape : Str → Str
  -- `url.Values.Encode`
  pub encode_form : List (Str × Str) → Str
  -- `json.Decode` into the groups, the members, and the field `access_token`
  pub decode_groups : Str → Result (List KcGroup)
  pub decode_members : Str → Result (List KcMember)
  pub decode_token : Str → Result Str
  pub equal_fold : Str → Str → Bool
  -- `unicode.ToLower`
  pub to_lower : ℕ → ℕ

-- The search of the group's ID by name; the empty text where none fits.
pub group_id : (Str → Str → Bool) → Str → List KcGroup → Str
group_id equal_fold group [] = []
group_id equal_fold group (g ∷ gs) =
    if equal_fold g.name group then g.id else group_id equal_fold group gs

-- The loop over the members: the email, or else the user name.
pub identifiers : List KcMember → List Str
identifiers [] = []
identifiers (m ∷ ms) =
    let rest = identifiers ms in
    if is_empty m.email
    then (if is_empty m.username then rest else m.username ∷ rest)
    else m.email ∷ rest

-- The mapping of the mode without a client secret.
pub static_members : Str → List Str
static_members group =
    if str_eq group (codes "emergency-response")
    then codes "senior-approver@example.com" ∷ codes "security-lead@example.com" ∷ []
    else []

-- Disabled, or without a server, a realm or a client.
unfoldable pub is_unconfigured : KeycloakConfig → Bool
is_unconfigured cfg =
    cfg.disable || is_empty cfg.base_url || is_empty cfg.realm || is_empty cfg.client_id

module _ (client : Client) (cfg : KeycloakConfig) where
  abbrev realm_url : String → Str
  realm_url path =
      trim_right (λ c. c == b'/') cfg.base_url
      ++ codes "/realms/"
      ++ client.path_escape cfg.realm
      ++ codes path

  -- A request whose answer must be 200; `what` stands in the error's text.
  pub body_of : String → HttpRequest → Result Str
  body_of what req = do
    resp ← client.send req
    if resp.status_code == 200
        then ok resp.body
        else err (codes what ++ codes " status " ++ decimal resp.status_code)

  abbrev get_request : Str → Str → HttpRequest
  get_request token url = record {
    method = codes "GET";
    url = url;
    authorization = codes "Bearer " ++ token;
    content_type = [];
    body = [];
  }

  pub client_creds_token : Result Str
  unfolding body_of
  client_creds_token =
      if is_empty cfg.client_secret
      then err (codes "keycloak clientSecret empty; only client_credentials supported now")
      else (do
        body ← body_of "keycloak token" (record {
          method = codes "POST";
          url = realm_url "/protocol/openid-connect/token";
          authorization = [];
          content_type = codes "application/x-www-form-urlencoded";
          body = client.encode_form (
              (codes "grant_type", codes "client_credentials")
              ∷ (codes "client_id", cfg.client_id)
              ∷ (codes "client_secret", cfg.client_secret)
              ∷ []);
        })
        token ← client.decode_token body
        if is_empty token then err (codes "empty keycloak access_token") else ok token)

  -- The second request: the members of the group with an ID.
  pub list_members : Str → Str → Result (List Str)
  unfolding body_of identifiers
  list_members token id = do
    body ←
        body_of "keycloak members"
          (get_request token (realm_url "/groups/" ++ client.path_escape id ++ codes "/members"))
    raw ← client.decode_members body
    ok (normalize_members client.to_lower (identifiers raw))

  -- Members past the cache. Each of the code's ways out without an error stores what it returns.
  pub fetch_members : Str → Result (List Str)
  unfolding client_creds_token body_of group_id list_members static_members
  fetch_members group = if is_empty cfg.client_secret then ok (static_members group) else (do
    token ← client_creds_token
    body ←
        body_of "keycloak groups search"
          (get_request token (realm_url "/groups?search=" ++ client.query_escape group))
    groups ← client.decode_groups body
    if is_empty (group_id client.equal_fold group groups)
        then ok []
        else list_members token (group_id client.equal_fold group groups))

  -- KeycloakGroupMemberResolver.Members at an instant.
  unfoldable pub resolve_members : Time → Str → KcCache → Result (List Str) × KcCache
  unfolding is_unconfigured get set fetch_members
  resolve_members now group cache =
      if is_unconfigured cfg then (ok [], cache) else elim (get now group cache) [
        | some v ↦ (ok v, cache)
        | none ↦ elim (fetch_members group) [
          | ok ms ↦ (ok ms, set now group ms cache)
          | err e ↦ (err e, cache)
        ]
      ]
