-- ===== src/Startup/Noop.antt =====
-- The updater of the escalations' status where Keycloak is not configured.
use telekom_k8s_breakglass.Prelude.{ℕ, false, List, [], Str, some, ok, In, ◌≡◌, refl}
use telekom_k8s_breakglass.Api.Session.{Time}
use telekom_k8s_breakglass.Members.Bag.{bag}
use telekom_k8s_breakglass.Members.Keycloak.{KeycloakConfig, KcCache, Client}
use telekom_k8s_breakglass.Members.Updater.{Expanded, expand_groups}
use telekom_k8s_breakglass.Members.Updater.Settled.{stored, expand_groups_current}
use telekom_k8s_breakglass.Startup.{keycloak_enabled, chosen_resolver}

chosen_resolver-empty :
    (client : Client) (cfg : KeycloakConfig) (now : Time)
    → keycloak_enabled cfg ≡ false
    → (g : Str) (cache : KcCache) → ((chosen_resolver client cfg now).members g cache).0 ≡ ok []
unfolding chosen_resolver telekom_k8s_breakglass.Members.Keycloak.resolve_members
    telekom_k8s_breakglass.Members.Keycloak.is_unconfigured
chosen_resolver-empty client cfg now off g cache = rw off refl

-- Where Keycloak is disabled or not fully configured, a run of the updater with the resolver that the
-- main function chooses leaves no members stored for any group that it expands, whatever was stored.
pub unconfigured-cleared :
    (client : Client) (cfg : KeycloakConfig) (now : Time) (to_lower : ℕ → ℕ) (gs : List Str)
    (x : Expanded KcCache) (g : Str)
    → keycloak_enabled cfg ≡ false
    → In g gs
    → stored (expand_groups (some (chosen_resolver client cfg now)) to_lower gs x).status g ≡ bag []
unfolding telekom_k8s_breakglass.Members.normalize_members
    telekom_k8s_breakglass.Distinct.collect_distinct
unconfigured-cleared client cfg now to_lower gs x g off m =
    expand_groups_current (chosen_resolver client cfg now) to_lower (λ h. ok [])
      (chosen_resolver-empty client cfg now off) gs x g [] m refl
