-- ===== src/Auth.antt =====
-- pkg/api/auth.go: the middleware that reads the bearer token, and the groups that it takes from the
-- claims. The verification of tokens and the refresh of the key set are parameters.
pub mod Groups
pub mod Passed
use telekom_k8s_breakglass.Prelude.{
  Bool, true, false, not, List, [], ◌∷◌, ◌++◌, Str, codes, is_empty, str_eq, has_prefix,
  trim_prefix, has_substring, trim_space, ◌==◌, if◌then◌else◌, Option, none, some, Result, ok, err,
}
use telekom_k8s_breakglass.Names.{trim_left}
use telekom_k8s_breakglass.Distinct.{collect_distinct}
use telekom_k8s_breakglass.Http.{Response, Body, json}

-- A claim that may hold groups: a JSON array, with none for an element that is not a text; a `[]string`;
-- or anything else.
pub data GroupsClaim : Type 0 where
  items : List (Option Str) → GroupsClaim
  strings : List Str → GroupsClaim
  other : GroupsClaim

-- jwt.MapClaims: the claims that the middleware reads. A missing claim, and one that is not a text, is
-- the empty text here, as gin's `GetString` reads it back. `realm_roles` is `realm_access.roles`, none
-- where one of the two is missing or `realm_access` is not an object.
pub record Claims : Type 0 where
  pub sub : Str
  pub email : Str
  pub preferred_username : Str
  pub groups : Option GroupsClaim
  pub realm_roles : Option GroupsClaim

-- The elements that are texts and not empty.
pub text_items : List (Option Str) → List Str
text_items [] = []
text_items (none ∷ vs) = text_items vs
text_items (some s ∷ vs) = if is_empty s then text_items vs else s ∷ text_items vs

pub groups_of : GroupsClaim → List Str
unfolding text_items
groups_of (GroupsClaim.items vs) = text_items vs
groups_of (GroupsClaim.strings ss) = ss
groups_of GroupsClaim.other = []

-- The groups as the token has them: the claim `groups`, or the roles of the realm where it is missing.
pub raw_groups : Claims → List Str
unfolding groups_of
raw_groups claims = elim claims.groups [
  | some g ↦ groups_of g
  | none ↦ elim claims.realm_roles [ some g ↦ groups_of g | none ↦ [] ]
]

-- What follows the last slash, if there is one.
pub after_last_slash : Str → Option Str
after_last_slash [] = none
after_last_slash (c ∷ s) = elim (after_last_slash s) [
  | some t ↦ some t
  | none ↦ if c == b'/' then some s else none
]

-- The last element of a path; a path that ends with a slash stays.
pub last_element : Str → Str
unfolding after_last_slash
last_element g = elim (after_last_slash g) [ none ↦ g | some t ↦ if is_empty t then g else t ]

-- The body of the loop: no spaces around, no leading slash, the last element of the path.
pub normalize_group : Str → Str
unfolding last_element
normalize_group g = last_element (trim_left (λ c. c == b'/') (trim_space g))

pub normalize_groups : List Str → List Str
unfolding normalize_group
normalize_groups groups = collect_distinct normalize_group [] groups

-- What the middleware puts into the request's context; `groups` is none where it sets none.
pub record Identity : Type 0 where
  pub user_id : Str
  pub email : Str
  pub username : Str
  pub groups : Option (List Str)

unfoldable pub identity_of : Claims → Identity
unfolding raw_groups normalize_groups
identity_of claims = record {
  user_id = claims.sub;
  email = claims.email;
  username = claims.preferred_username;
  groups =
      if is_empty (normalize_groups (raw_groups claims))
      then none
      else some (normalize_groups (raw_groups claims));
}

-- The key set: `J` is what the AuthHandler holds of it.
pub record KeySet (J : Type 0) : Type 0 where
  -- `jwt.ParseWithClaims` of a token with the keys: the claims of a valid token
  pub parse : Str → J → Result Claims
  -- `jwks.Refresh`
  pub refresh : J → Result (Unit {0}) × J

-- What becomes of the request: the next handler runs, with an identity unless the request's method is
-- OPTIONS, or the middleware answers.
pub data Passage : Type 0 where
  next : Option Identity → Passage
  aborted : Response → Passage

module _ {J : Type 0} (keys : KeySet J) where
  -- The parsing, with one refresh of the key set for an unknown key.
  pub parse_token : Str → J → Result Claims × J
  parse_token bearer j = elim (keys.parse bearer j) [
    | ok claims ↦ (ok claims, j)
    | err e ↦
        if has_substring e (codes "key ID")
        then (let (r, j') = keys.refresh j in
            elim r [ ok _ ↦ (keys.parse bearer j', j') | err _ ↦ (err e, j') ])
        else (err e, j)
  ]

  -- Middleware, for a request's method and its Authorization header.
  unfoldable pub middleware : Str → Str → J → Passage × J
  unfolding parse_token identity_of
  middleware method header j =
      if str_eq method (codes "OPTIONS")
      then (next none, j)
      else if not (has_prefix header (codes "Bearer "))
      then (
        aborted
            (json 400 (Body.problem (codes "No Bearer token provided in Authorization header"))),
        j,
      )
      else (let (claims, j') = parse_token (trim_prefix header (codes "Bearer ")) j in
          elim claims [
            | err e ↦ (aborted (json 401 (Body.problem e)), j')
            | ok c ↦ (next (some (identity_of c)), j')
          ])
