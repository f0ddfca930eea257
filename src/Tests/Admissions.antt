-- ===== src/Tests/Admissions.antt =====
-- The admission validators, and the middleware, on sample objects.
use telekom_k8s_breakglass.Prelude.{
  ℕ, zero, suc, is_empty, List, [], ◌∷◌, ◌++◌, Str, codes, Bool, true, false, Option, none, some,
  Result, ok, err, In, In-cons, not_In-nil, ◌≡◌, ◌≢◌, ◌↔◌, ◌⊎◌, inl, inr, refl, ap, sym, ◌∙◌,
}
use telekom_k8s_breakglass.Api.Session.{Session}
use telekom_k8s_breakglass.Validation.{
  Webhooks, session_meta, validate_session_create, validate_session_update,
}
use telekom_k8s_breakglass.Validation.Unique.{IsUniqueIn, UniqueNames}
use telekom_k8s_breakglass.Validation.Admitted.{
  validate_session_update_iff, validate_session_create-UniqueNames,
}
use telekom_k8s_breakglass.Auth.{Claims, strings, identity_of, KeySet, next, middleware}
use telekom_k8s_breakglass.Tests.Samples.{request}

abbrev hooks : Webhooks Session
hooks = record { cache = some (ok (request ∷ [])); client = some (ok (request ∷ [])) }

abbrev other_request : Session
other_request = record request { name = codes "s2" }

abbrev elsewhere : Session
elsewhere = record request { namespace = codes "other" }

validate_session_update_iff_example : (validate_session_update hooks request request ≡ []) ↔ (
    (request.spec ≡ request.spec) × IsUniqueIn session_meta (session_meta request) (request ∷ []))
validate_session_update_iff_example =
    validate_session_update_iff hooks (request ∷ []) request request refl

other_admitted : validate_session_create hooks other_request ≡ []
unfolding validate_session_create telekom_k8s_breakglass.Prelude.find
    telekom_k8s_breakglass.Prelude.str_eq
other_admitted = refl

elsewhere_refused : is_empty (validate_session_create hooks elsewhere) ≡ false
unfolding validate_session_create telekom_k8s_breakglass.Prelude.find
    telekom_k8s_breakglass.Prelude.str_eq
elsewhere_refused = refl

one-UniqueNames : UniqueNames session_meta (request ∷ [])
one-UniqueNames a i b j e = ap (λ (s : Session). s.namespace) (sym (only b j) ∙ only a i)
  where
    only : (s : Session) → In s (request ∷ []) → request ≡ s
    only s m = elim (In-cons m) [ inl q ↦ q | inr n ↦ not_In-nil n ]

validate_session_create-UniqueNames_example :
    UniqueNames session_meta (other_request ∷ request ∷ [])
validate_session_create-UniqueNames_example =
    validate_session_create-UniqueNames hooks (request ∷ []) other_request (inl refl)
      one-UniqueNames other_admitted

abbrev claims : Claims
claims = record {
  sub = codes "1";
  email = codes "ann";
  preferred_username = codes "ann";
  groups = some (strings (codes "/team/dev" ∷ codes "dev" ∷ []));
  realm_roles = none;
}

-- The key set is a number: the key is known from its first refresh on.
abbrev keys : KeySet ℕ
keys = record {
  parse = λ bearer j. elim j [ zero ↦ err (codes "key ID") | suc n ↦ ok claims ];
  refresh = λ j. (ok tt, 1);
}

abbrev header : Str
header = codes "Bearer t"

passes : middleware keys (codes "GET") header 0 ≡ (next (some (identity_of claims)), 1)
unfolding middleware telekom_k8s_breakglass.Prelude.str_eq telekom_k8s_breakglass.Prelude.has_prefix
    telekom_k8s_breakglass.Prelude.has_substring
passes = refl

groups_of_ann : (identity_of claims).groups ≡ some (codes "dev" ∷ [])
unfolding identity_of telekom_k8s_breakglass.Distinct.collect_distinct
    telekom_k8s_breakglass.Names.trim_left telekom_k8s_breakglass.Prelude.trim_space
    telekom_k8s_breakglass.Prelude.drop_spaces telekom_k8s_breakglass.Prelude.is_space
    telekom_k8s_breakglass.Prelude.contains telekom_k8s_breakglass.Prelude.str_eq
groups_of_ann = refl
