-- ===== src/Members/Keycloak/Cached.antt =====
-- The cache of KeycloakGroupMemberResolver: what a look-up leaves for the next one.
use telekom_k8s_breakglass.Prelude.{
  ◌+◌, ◌≤◌, ◌<◌, false, Str, List, none, some, ok, Result-cases, look_up-set_at, ◌≡◌, refl, sym, ap,
  inl, inr, arith, ok-ne-err,
}
use telekom_k8s_breakglass.Api.Session.{Time}
use telekom_k8s_breakglass.Members.Keycloak.{
  KeycloakConfig, KcCache, Client, get, set, fetch_members, is_unconfigured, resolve_members,
}

get-set :
    (now later : Time) (k : Str) (v : List Str) (c : KcCache)
    → later ≤ now + c.ttl
    → get later k (set now k v c) ≡ some v
unfolding get set
get-set now later k v c h =
    rw (get, look_up-set_at k (record { members = v; expires = now + c.ttl }) c.items)
      (ground arith)

get-set_late :
    (now later : Time) (k : Str) (v : List Str) (c : KcCache)
    → now + c.ttl < later
    → get later k (set now k v c) ≡ none
unfolding get set
get-set_late now later k v c h =
    rw (get, look_up-set_at k (record { members = v; expires = now + c.ttl }) c.items)
      (ground arith)

module _ (client : Client) (cfg : KeycloakConfig) where
  -- After a look-up that had to ask the identity provider and got members, a look-up of the same group
  -- within the cache's time to live gives the same members and leaves the cache as it is, whatever the
  -- provider answers by then.
  pub resolve_members_again :
      (later_client : Client) (now later : Time) (group : Str) (ms : List Str)
      (cache after : KcCache)
      → is_unconfigured cfg ≡ false
      → get now group cache ≡ none
      → resolve_members client cfg now group cache ≡ (ok ms, after)
      → later ≤ now + cache.ttl
      → resolve_members later_client cfg later group after ≡ (ok ms, after)
  unfolding resolve_members
  resolve_members_again later_client now later group ms cache after on miss h t =
      elim (Result-cases (fetch_members client cfg group)) [
        | inr (x, e) ↦ absurd (ok-ne-err (sym (ap (λ p. p.0) (rw (on, miss, e) at h))))
        | inl (found, e) ↦
            let q = rw (on, miss, e) at h in
            let same : set now group found cache ≡ after = ap (λ p. p.1) q in
            let got : get later group after ≡ some found =
              rw (← same) (get-set now later group found cache t) in
            rw (on, got) (ap (λ x. (x, after)) (ap (λ p. p.0) q))
      ]

  -- Once the time to live has passed, the same look-up asks the provider again.
  pub resolve_members_late :
      (later_client : Client) (now later : Time) (group : Str) (ms : List Str)
      (cache after : KcCache)
      → is_unconfigured cfg ≡ false
      → get now group cache ≡ none
      → resolve_members client cfg now group cache ≡ (ok ms, after)
      → now + cache.ttl < later
      → (resolve_members later_client cfg later group after).0
        ≡ fetch_members later_client cfg group
  unfolding resolve_members
  resolve_members_late later_client now later group ms cache after on miss h t =
      elim (Result-cases (fetch_members client cfg group)) [
        | inr (x, e) ↦ absurd (ok-ne-err (sym (ap (λ p. p.0) (rw (on, miss, e) at h))))
        | inl (found, e) ↦
            let same : set now group found cache ≡ after = ap (λ p. p.1) (rw (on, miss, e) at h) in
            let gone : get later group after ≡ none =
              rw (← same) (get-set_late now later group found cache t) in
            elim (Result-cases (fetch_members later_client cfg group)) [
              | inl (x, q) ↦ rw (on, gone, q) refl
              | inr (x, q) ↦ rw (on, gone, q) refl
            ]
      ]
