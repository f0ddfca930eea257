-- ===== src/Auth/Passed.antt =====
-- Which requests the middleware lets pass, and with which identity.
use telekom_k8s_breakglass.Prelude.{
  true, ◌++◌, Str, codes, str_eq, has_prefix, trim_prefix, has_prefix-split, has_substring, Option,
  none, some, ok, err, Result-cases, ok-ne-err, ◌≡◌, ◌≢◌, ◌⊎◌, inl, inr, refl, sym, ap, ◌∙◌,
  Bool-cases,
}
use telekom_k8s_breakglass.Http.{Response}
use telekom_k8s_breakglass.Auth.{
  Claims, Identity, identity_of, KeySet, next, aborted, parse_token, middleware,
}

none-ne-some : {i : Identity} → next none ≢ next (some i)
none-ne-some q = cc

aborted-ne-next : {a : Response} {i : Option Identity} → aborted a ≢ next i
aborted-ne-next q = cc

next-injective : {i k : Identity} → next (some i) ≡ next (some k) → i ≡ k
next-injective q = cc

module _ {J : Type 0} (keys : KeySet J) where
  -- The key set before the request, or after a refresh that the error about an unknown key asks for.
  abbrev pub MayUse : Str → J → J → Type 0
  MayUse bearer j j' =
      (j' ≡ j)
      ⊎ ((e : Str) × (keys.parse bearer j ≡ err e)
          × (has_substring e (codes "key ID") ≡ true)
          × (keys.refresh j ≡ (ok tt, j')))

  parse_token-verified :
      (bearer : Str) (j : J) (claims : Claims)
      → (parse_token keys bearer j).0 ≡ ok claims
      → let j' = (parse_token keys bearer j).1 in
        (keys.parse bearer j' ≡ ok claims) × MayUse bearer j j'
  unfolding parse_token
  parse_token-verified bearer j claims h = elim (Result-cases (keys.parse bearer j)) [
    | inl (c, e) ↦ rw (parse_token, e) (e ∙ rw (parse_token, e) at h, inl refl)
    | inr (x, e) ↦ elim (Bool-cases (has_substring x (codes "key ID"))) [
      | inr k ↦ absurd (ok-ne-err (sym (rw (parse_token, e, k) at h)))
      | inl k ↦ elim (Result-cases (keys.refresh j).0) [
        | inr (y, q) ↦ absurd (ok-ne-err (sym (rw (parse_token, e, k, q) at h)))
        | inl (u, q) ↦
            rw (parse_token, e, k, q) (rw (parse_token, e, k, q) at h, inr (x, refl, k, refl))
      ]
    ]
  ]

  -- A request that the middleware lets pass with an identity carries a bearer token that the key set
  -- verifies, as it was or after a refresh that an error about an unknown key asked for; the identity is
  -- that of the token's claims.
  pub middleware_sound :
      (method header : Str) (j j' : J) (id : Identity)
      → middleware keys method header j ≡ (next (some id), j')
      → (bearer : Str) × (claims : Claims) × (header ≡ codes "Bearer " ++ bearer)
        × (keys.parse bearer j' ≡ ok claims)
        × MayUse bearer j j'
        × (id ≡ identity_of claims)
  unfolding middleware
  middleware_sound method header j j' id h = elim (Bool-cases (str_eq method (codes "OPTIONS"))) [
    | inl m ↦ absurd (none-ne-some (ap (λ r. r.0) (rw (middleware, m) at h)))
    | inr m ↦ elim (Bool-cases (has_prefix header (codes "Bearer "))) [
      | inr b ↦ absurd (aborted-ne-next (ap (λ r. r.0) (rw (middleware, m, b) at h)))
      | inl b ↦
          let bearer = trim_prefix header (codes "Bearer ") in
          elim (Result-cases (parse_token keys bearer j).0) [
            | inr (x, e) ↦ absurd (aborted-ne-next (ap (λ r. r.0) (rw (middleware, m, b, e) at h)))
            | inl (claims, e) ↦
                let q = rw (middleware, m, b, e) at h in
                let (v, u) = parse_token-verified bearer j claims e in
                let same = ap (λ r. r.1) q in
                (
                  bearer,
                  claims,
                  has_prefix-split header (codes "Bearer ") b,
                  rw (same) at v,
                  rw (same) at u,
                  sym (next-injective (ap (λ r. r.0) q)),
                )
          ]
    ]
  ]
