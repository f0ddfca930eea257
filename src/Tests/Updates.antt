-- ===== src/Tests/Updates.antt =====
-- The escalation status updater on sample groups, and the cache of the Keycloak resolver.
use telekom_k8s_breakglass.Prelude.{
  ℕ, List, [], ◌∷◌, Str, codes, In, here, Bool, true, false, Option, none, some, Result, ok, err,
  ◌≡◌, ◌≢◌, ◌↔◌, ◌⊎◌, refl, ◌+◌, ◌≤◌, arith,
}
use telekom_k8s_breakglass.Api.Escalation.{Escalation, EscalationStatus}
use telekom_k8s_breakglass.Members.{normalize_members, equal_string_slices}
use telekom_k8s_breakglass.Members.Bag.{bag, equal_string_slices_iff}
use telekom_k8s_breakglass.Members.Keycloak.{
  GroupMemberResolver, KeycloakConfig, KcCache, Client, is_unconfigured, get, resolve_members, set,
}
use telekom_k8s_breakglass.Members.Keycloak.Cached.{resolve_members_again}
use telekom_k8s_breakglass.Members.Updater.{Expanded, expand_groups, refresh_escalation, run_once}
use telekom_k8s_breakglass.Members.Updater.Settled.{
  stored, IsCurrent, refresh_escalation_again, resolution_errors_lost,
}
use telekom_k8s_breakglass.Members.Updater.Stored.{refresh_escalation-IsCurrent}
use telekom_k8s_breakglass.Tests.Samples.{kube, escalation}

abbrev two : List Str
two = codes "a" ∷ codes "b" ∷ []

equal_string_slices_iff_example :
    (equal_string_slices two (codes "b" ∷ codes "a" ∷ []) ≡ true)
    ↔ (bag two ≡ bag (codes "b" ∷ codes "a" ∷ []))
equal_string_slices_iff_example = equal_string_slices_iff two (codes "b" ∷ codes "a" ∷ [])

swapped_equal : equal_string_slices two (codes "b" ∷ codes "a" ∷ []) ≡ true
unfolding equal_string_slices telekom_k8s_breakglass.Prelude.str_eq
swapped_equal = refl

repeated_differs : equal_string_slices (codes "a" ∷ codes "a" ∷ []) two ≡ false
unfolding equal_string_slices telekom_k8s_breakglass.Prelude.str_eq
repeated_differs = refl

abbrev members : List Str
members = codes " ann " ∷ codes "bob" ∷ codes "ann" ∷ []

members_normalized : normalize_members (λ c. c) members ≡ codes "ann" ∷ codes "bob" ∷ []
unfolding normalize_members telekom_k8s_breakglass.Distinct.collect_distinct
    telekom_k8s_breakglass.Prelude.trim_space telekom_k8s_breakglass.Prelude.drop_spaces
    telekom_k8s_breakglass.Prelude.is_space telekom_k8s_breakglass.Prelude.contains
    telekom_k8s_breakglass.Prelude.str_eq
members_normalized = refl

-- Answers every group with the members above.
abbrev resolver : GroupMemberResolver ℕ
resolver = record { members = λ g s. (ok members, s) }

-- Answers every group with an error.
abbrev failing : GroupMemberResolver ℕ
failing = record { members = λ g s. (err (codes "down"), s) }

abbrev groups : List Str
groups = codes "admins" ∷ []

abbrev grouped : Escalation
grouped = record escalation {
  spec = record (escalation.spec) { approvers = record { users = []; groups = groups } };
}

abbrev before : Expanded ℕ
before = record { status = escalation.status; changed = false; resolver_state = 0 }

refresh_escalation-IsCurrent_example :
    (st : EscalationStatus) × ((g : Str)
      → In g grouped.spec.approvers.groups
      → IsCurrent resolver (λ c. c) (λ h. ok members) (λ h s. refl) g st)
    × (((refresh_escalation (some resolver) (λ c. c) kube grouped (0, [])).1
          ≡ (kube.update_escalation_status (record grouped { status = st }) []).1)
        ⊎ (((refresh_escalation (some resolver) (λ c. c) kube grouped (0, [])).1 ≡ [])
            × ((g : Str) → stored grouped.status g ≡ stored st g)))
refresh_escalation-IsCurrent_example =
    refresh_escalation-IsCurrent resolver (λ c. c) (λ g. ok members) (λ g s. refl) kube grouped 0 []

abbrev updated : Escalation
updated = record grouped { status = (expand_groups (some resolver) (λ c. c) groups before).status }

refresh_escalation_again_example :
    (refresh_escalation (some resolver) (λ c. c) kube updated (0, [])).1 ≡ []
refresh_escalation_again_example =
    refresh_escalation_again resolver (λ c. c) (λ g. ok members) (λ g s. refl) kube updated before 0
      [] refl

resolution_errors_lost_example : (run_once (some failing) (λ c. c) kube (0, [])).1 ≡ []
resolution_errors_lost_example =
    resolution_errors_lost failing (λ c. c) (λ g. codes "down") (λ g s. refl) kube 0 []

-- The mode without a client secret.
abbrev config : KeycloakConfig
config = record {
  base_url = codes "https://kc";
  realm = codes "r";
  client_id = codes "c";
  client_secret = [];
  cache_ttl = [];
  request_timeout = [];
  disable = false;
}

abbrev client : Client
client = record {
  send = λ req. err (codes "offline");
  path_escape = λ s. s;
  query_escape = λ s. s;
  encode_form = λ form. [];
  decode_groups = λ s. ok [];
  decode_members = λ s. ok [];
  decode_token = λ s. ok s;
  equal_fold = λ a b. true;
  to_lower = λ c. c;
}

abbrev empty_cache : KcCache
empty_cache = record { items = []; ttl = 100 }

abbrev approvers : List Str
approvers = codes "senior-approver@example.com" ∷ codes "security-lead@example.com" ∷ []

configured : is_unconfigured config ≡ false
unfolding is_unconfigured
configured = refl

not_cached : get 10 (codes "emergency-response") empty_cache ≡ none
unfolding get telekom_k8s_breakglass.Prelude.look_up
not_cached = refl

first_look_up :
    resolve_members client config 10 (codes "emergency-response") empty_cache
    ≡ (ok approvers, set 10 (codes "emergency-response") approvers empty_cache)
unfolding resolve_members telekom_k8s_breakglass.Prelude.look_up
    telekom_k8s_breakglass.Prelude.str_eq
first_look_up = refl

resolve_members_again_example :
    resolve_members client config 110
      (codes "emergency-response")
      (set 10 (codes "emergency-response") approvers empty_cache)
    ≡ (ok approvers, set 10 (codes "emergency-response") approvers empty_cache)
resolve_members_again_example =
    resolve_members_again client config client 10 110 (codes "emergency-response") approvers
      empty_cache (set 10 (codes "emergency-response") approvers empty_cache) configured not_cached
      first_look_up within
  where
    within : 110 ≤ 10 + 100
    within = omega arith
