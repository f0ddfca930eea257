-- ===== src/Tests/Endpoints.antt =====
-- Ann withdraws her request through the API, with a token whose key is known after a refresh.
use telekom_k8s_breakglass.Prelude.{
  ℕ, zero, suc, List, [], ◌∷◌, ◌++◌, Str, codes, none, some, ok, err, ◌≡◌, refl,
}
use telekom_k8s_breakglass.Http.{Response}
use telekom_k8s_breakglass.Auth.{Claims, strings, KeySet, identity_of}
use telekom_k8s_breakglass.Auth.Passed.{MayUse}
use telekom_k8s_breakglass.Session.Endpoints.{withdraws, context_of, serve}
use telekom_k8s_breakglass.Session.Endpoints.Entitled.{Changed, serve_sound}
use telekom_k8s_breakglass.Tests.Samples.{Store, request, env}

abbrev claims_of_ann : Claims
claims_of_ann = record {
  sub = codes "1";
  email = codes "ann";
  preferred_username = codes "ann";
  groups = some (strings (codes "dev" ∷ []));
  realm_roles = none;
}

abbrev keys : KeySet ℕ
keys = record {
  parse = λ bearer j. elim j [ zero ↦ err (codes "key ID") | suc n ↦ ok claims_of_ann ];
  refresh = λ j. (ok tt, 1);
}

abbrev header : Str
header = codes "Bearer t"

abbrev store : Store
store = request ∷ []

abbrev served : (Response × Store) × ℕ
served = serve env keys withdraws header (codes "s1") [] 0 store

withdrawal_served : served.0.0.code ≡ 200
unfolding serve telekom_k8s_breakglass.Auth.middleware telekom_k8s_breakglass.Prelude.str_eq
    telekom_k8s_breakglass.Prelude.has_prefix telekom_k8s_breakglass.Prelude.has_substring
    telekom_k8s_breakglass.Session.Owner.handle_withdraw
    telekom_k8s_breakglass.Session.Manager.get_session_by_name
    telekom_k8s_breakglass.Session.Owner.withdraw telekom_k8s_breakglass.Env.get_email
    telekom_k8s_breakglass.Session.is_session_pending_approval
    telekom_k8s_breakglass.Session.Manager.update_session_status context_of identity_of
withdrawal_served = refl

serve_sound_example :
    (bearer : Str) × (claims : Claims) × (header ≡ codes "Bearer " ++ bearer)
    × (keys.parse bearer served.1 ≡ ok claims)
    × MayUse keys bearer 0 served.1
    × Changed env withdraws
        (context_of (some (identity_of claims)) (codes "s1") [])
        store
        served.0.0
serve_sound_example =
    serve_sound env keys withdraws header (codes "s1") [] 0 store withdrawal_served
