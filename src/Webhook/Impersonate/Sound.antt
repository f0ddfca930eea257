-- ===== src/Webhook/Impersonate/Sound.antt =====
-- What an access review through a session rests on.
use telekom_k8s_breakglass.Prelude.{
  Bool, true, List, [], ◌∷◌, Str, codes, none, some, Result, ok, ◌≡◌, ◌≢◌, ◌⊎◌, inl, inr, refl, sym,
  ◌∙◌, arith, In, here, there, In-cons, not_In-nil, Bool-cases, Result-cases, Option-cases, some-eq,
  subst, ok-ne-err,
}
use telekom_k8s_breakglass.Api.Session.{Session}
use telekom_k8s_breakglass.Webhook.Env.{ResourceAttributes, AccessReview, WebhookEnv}
use telekom_k8s_breakglass.Webhook.Impersonate.{
  SessionGrant, session_groups, try_groups, try_sessions, authorize_via_sessions,
}
use telekom_k8s_breakglass.Webhook.Impersonate.Groups.{Impersonates, session_groups_exact}

module _ {W R : Type 0} (env : WebhookEnv W R) where
  -- The review of one group on the target cluster.
  abbrev pub reviewed : R → ResourceAttributes → Str → W → Result Bool
  reviewed rc ra g w = env.subject_review rc (codes "system:breakglass-session") (g ∷ []) ra w

  module _ (rc : R) (ra : ResourceAttributes) (w : W) where
    try_groups-cons :
        (g : Str) (gs : List Str)
        → ((reviewed rc ra g w ≡ ok true) × (try_groups env rc ra (g ∷ gs) w ≡ some g))
          ⊎ ((reviewed rc ra g w ≢ ok true)
              × (try_groups env rc ra (g ∷ gs) w ≡ try_groups env rc ra gs w))
    unfolding try_groups
    try_groups-cons g gs = elim (Result-cases (reviewed rc ra g w)) [
      | inr (x, e) ↦ inr (λ q. ground arith, rw (e, try_groups))
      | inl (b, e) ↦ elim (Bool-cases b) [
        | inl t ↦ inl (ground arith, ground arith)
        | inr f ↦ inr (λ q. ground arith, ground arith)
      ]
    ]

    try_groups_sound :
        (g : Str) (gs : List Str)
        → try_groups env rc ra gs w ≡ some g
        → In g gs × (reviewed rc ra g w ≡ ok true)
    try_groups_sound g [] h = absurd (unfold try_groups in cc)
    try_groups_sound g (x ∷ xs) h = elim (try_groups-cons x xs) [
      | inl (r, e) ↦
          let q : x ≡ g = some-eq (sym e ∙ h) in
          (here q, subst (λ k. reviewed rc ra k w ≡ ok true) q r)
      | inr (n, e) ↦ let (m, r) = try_groups_sound g xs (sym e ∙ h) in (there m, r)
    ]

    try_groups_complete :
        (g : Str) (gs : List Str)
        → In g gs
        → reviewed rc ra g w ≡ ok true
        → (k : Str) × (try_groups env rc ra gs w ≡ some k)
    try_groups_complete g [] m r = not_In-nil m
    try_groups_complete g (x ∷ xs) (here q) r = elim (try_groups-cons x xs) [
      | inl (_, e) ↦ (x, e)
      | inr (n, e) ↦ absurd (n (subst (λ k. reviewed rc ra k w ≡ ok true) (sym q) r))
    ]
    try_groups_complete g (x ∷ xs) (there m) r = elim (try_groups-cons x xs) [
      | inl (_, e) ↦ (x, e)
      | inr (n, e) ↦ let (k, q) = try_groups_complete g xs m r in (k, e ∙ q)
    ]

    -- A session allows the request with this grant: the target cluster allows it for the group that the
    -- webhook impersonated, which is the session's granted group, bare or behind a prefix.
    pub record Allows (s : Session) (grant : SessionGrant) : Type 0 where
      pub group : grant.group ≡ s.spec.granted_group
      pub session : grant.session ≡ s.name
      pub shape : Impersonates env.oidc_prefixes s.spec.granted_group grant.impersonated
      pub allowed : reviewed rc ra grant.impersonated w ≡ ok true

    abbrev grant_of : Session → Str → SessionGrant
    grant_of s g = record { group = s.spec.granted_group; session = s.name; impersonated = g }

    try_sessions-cons :
        (incoming : AccessReview) (s : Session) (ss : List Session)
        → ((g : Str) × (try_groups env rc ra (session_groups env s incoming w) w ≡ some g)
            × (try_sessions env rc ra incoming (s ∷ ss) w ≡ some (grant_of s g)))
          ⊎ ((try_groups env rc ra (session_groups env s incoming w) w ≡ none)
              × (try_sessions env rc ra incoming (s ∷ ss) w ≡ try_sessions env rc ra incoming ss w))
    unfolding try_sessions
    try_sessions-cons incoming s ss =
        elim (Option-cases (try_groups env rc ra (session_groups env s incoming w) w)) [
          | inl e ↦ inr (e, rw (e, try_sessions))
          | inr (g, e) ↦ inl (g, e, rw (e, try_sessions))
        ]

    try_sessions_sound :
        (incoming : AccessReview) (ss : List Session) (grant : SessionGrant)
        → try_sessions env rc ra incoming ss w ≡ some grant
        → (s : Session) × In s ss × Allows s grant
    try_sessions_sound incoming [] grant h = absurd (unfold try_sessions in cc)
    try_sessions_sound incoming (s ∷ ss) grant h = elim (try_sessions-cons incoming s ss) [
      | inl (g, q, e) ↦
          let (m, r) = try_groups_sound g (session_groups env s incoming w) q in
          (
            s,
            here refl,
            subst (λ k. Allows s k) (some-eq (sym e ∙ h))
                (record {
                  group = refl;
                  session = refl;
                  shape = (session_groups_exact env s incoming w g).0 m;
                  allowed = r;
                }),
          )
      | inr (q, e) ↦
          let (t, m, a) = try_sessions_sound incoming ss grant (sym e ∙ h) in (t, there m, a)
    ]

    try_sessions_complete :
        (incoming : AccessReview) (ss : List Session) (s : Session) (g : Str)
        → In s ss
        → Impersonates env.oidc_prefixes s.spec.granted_group g
        → reviewed rc ra g w ≡ ok true
        → (grant : SessionGrant) × (try_sessions env rc ra incoming ss w ≡ some grant)
    try_sessions_complete incoming [] s g m i r = not_In-nil m
    try_sessions_complete incoming (t ∷ ss) s g m i r = elim (try_sessions-cons incoming t ss) [
      | inl (k, q, e) ↦ (grant_of t k, e)
      | inr (q, e) ↦ elim (In-cons m) [
        | inl same ↦
            let (k, found) =
              try_groups_complete g (session_groups env t incoming w)
                ((session_groups_exact env t incoming w g).1
                  (subst (λ x. Impersonates env.oidc_prefixes x.spec.granted_group g) (sym same) i))
                r in
            absurd (cc)
        | inr n ↦
            let (grant, found) = try_sessions_complete incoming ss s g n i r in (grant, e ∙ found)
      ]
    ]

  authorize-cases :
      (rc : R) (sessions : List Session) (incoming : AccessReview) (ra : ResourceAttributes) (w : W)
      → incoming.resource_attributes ≡ some ra
      → (((sessions ≡ []) ⊎ (env.new_client rc ≢ ok tt))
          × (authorize_via_sessions env rc sessions incoming w ≡ none))
        ⊎ ((env.new_client rc ≡ ok tt)
            × (authorize_via_sessions env rc sessions incoming w
                ≡ try_sessions env rc ra incoming sessions w))
  unfolding authorize_via_sessions
  authorize-cases rc [] incoming ra w e = inl (inl refl, rw e refl)
  authorize-cases rc (t ∷ ts) incoming ra w e = elim (Result-cases (env.new_client rc)) [
    | inl (u, c) ↦ inr (c, rw (e, c) refl)
    | inr (x, c) ↦ inl (inr (λ q. ok-ne-err (sym q ∙ c)), rw (e, c) refl)
  ]

  -- The session reviews grant exactly what the target cluster allows. A grant names a session of the
  -- list, with its granted group, and a group that the target cluster allows, that group being the
  -- granted one bare or behind a configured prefix. When the review has resource attributes, a client
  -- can be made, and the target cluster allows such a group of some session of the list, there is a
  -- grant.
  pub authorize_via_sessions_exact :
      (rc : R) (sessions : List Session) (incoming : AccessReview) (ra : ResourceAttributes) (w : W)
      → incoming.resource_attributes ≡ some ra
      → ((grant : SessionGrant)
          → authorize_via_sessions env rc sessions incoming w ≡ some grant
          → (s : Session) × In s sessions × Allows rc ra w s grant)
        × ((s : Session) (g : Str)
            → env.new_client rc ≡ ok tt
            → In s sessions
            → Impersonates env.oidc_prefixes s.spec.granted_group g
            → reviewed rc ra g w ≡ ok true
            → (grant : SessionGrant) × (authorize_via_sessions env rc sessions incoming w
                ≡ some grant))
  authorize_via_sessions_exact rc sessions incoming ra w e = (
    λ grant h. elim (authorize-cases rc sessions incoming ra w e) [
      | inl (_, q) ↦ absurd (cc)
      | inr (c, q) ↦ try_sessions_sound rc ra w incoming sessions grant (sym q ∙ h)
    ],
    λ s g c m i r. elim (authorize-cases rc sessions incoming ra w e) [
      | inl (inl none_left, q) ↦ not_In-nil (rw none_left at m)
      | inl (inr no_client, q) ↦ absurd (no_client c)
      | inr (c', q) ↦
          let (grant, found) = try_sessions_complete rc ra w incoming sessions s g m i r in
          (grant, q ∙ found)
    ],
  )
