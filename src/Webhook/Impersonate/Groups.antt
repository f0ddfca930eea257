-- ===== src/Webhook/Impersonate/Groups.antt =====
-- The groups that the webhook impersonates for a session.
use telekom_k8s_breakglass.Prelude.{
  not, ◌&&◌, List, [], ◌∷◌, ◌++◌, Str, keep, is_empty, str_eq, str_eq_iff, has_prefix, has_suffix,
  ◌≡◌, ◌↔◌, ◌⊎◌, inl, inr, refl, sym, ap, ◌∙◌, In, here, there, In-cons, In-keep, keep-of_In,
  Bool-cases, In-cast, In-map, map-of_In,
}
use telekom_k8s_breakglass.Api.Session.{Session}
use telekom_k8s_breakglass.Webhook.Env.{AccessReview, WebhookEnv}
use telekom_k8s_breakglass.Webhook.Impersonate.{
  fitting_prefix, prefix_of_group, primary_prefix, groups_to_try, session_groups,
  allowed_groups_to_check,
}

-- The text is empty, or one of the prefixes.
abbrev IsPrimary : List Str → Str → Type 0
IsPrimary prefixes p = (p ≡ []) ⊎ In p prefixes

fitting_prefix-IsPrimary :
    (prefixes : List Str) (ig allowed : Str)
    → IsPrimary prefixes (fitting_prefix prefixes ig allowed)
unfolding fitting_prefix
fitting_prefix-IsPrimary [] ig allowed = inl refl
fitting_prefix-IsPrimary (p ∷ ps) ig allowed =
    elim (Bool-cases (has_prefix ig p && has_suffix ig allowed)) [
      | inl e ↦ rw e (inr (here refl))
      | inr e ↦
          rw e (elim (fitting_prefix-IsPrimary ps ig allowed) [
            | inl q ↦ inl q
            | inr m ↦ inr (there m)
          ])
    ]

prefix_of_group-IsPrimary :
    (prefixes allowed : List Str) (ig : Str)
    → IsPrimary prefixes (prefix_of_group prefixes allowed ig)
unfolding prefix_of_group
prefix_of_group-IsPrimary prefixes [] ig = inl refl
prefix_of_group-IsPrimary prefixes (a ∷ as') ig =
    elim (Bool-cases (is_empty (fitting_prefix prefixes ig a))) [
      | inl e ↦ rw e (prefix_of_group-IsPrimary prefixes as' ig)
      | inr e ↦ rw e (fitting_prefix-IsPrimary prefixes ig a)
    ]

primary_prefix-IsPrimary :
    (prefixes allowed igs : List Str) → IsPrimary prefixes (primary_prefix prefixes allowed igs)
unfolding primary_prefix
primary_prefix-IsPrimary prefixes allowed [] = inl refl
primary_prefix-IsPrimary prefixes allowed (ig ∷ igs) =
    elim (Bool-cases (is_empty (prefix_of_group prefixes allowed ig))) [
      | inl e ↦ rw e (primary_prefix-IsPrimary prefixes allowed igs)
      | inr e ↦ rw e (prefix_of_group-IsPrimary prefixes allowed ig)
    ]

-- The group is the granted one, bare or behind one of the prefixes.
abbrev pub Impersonates : List Str → Str → Str → Type 0
Impersonates prefixes granted g = (g ≡ granted) ⊎ ((p : Str) × In p prefixes × (g ≡ p ++ granted))

groups_to_try_sound :
    (prefixes : List Str) (primary granted g : Str)
    → IsPrimary prefixes primary
    → In g (groups_to_try prefixes primary granted)
    → Impersonates prefixes granted g
unfolding groups_to_try
groups_to_try_sound prefixes [] granted g h m = elim (In-cons m) [
  | inl e ↦ inl (sym e)
  | inr n ↦ let (p, k, e) = In-map (λ p. p ++ granted) prefixes n in inr (p, k, sym e)
]
groups_to_try_sound prefixes (c ∷ s) granted g h m = elim (In-cons m) [
  | inl e ↦ inr (c ∷ s, elim h [ inl q ↦ absurd (cc) | inr k ↦ k ], sym e)
  | inr n ↦ elim (In-cons n) [
    | inl e ↦ inl (sym e)
    | inr k ↦
        let (p, j, e) =
          In-map (λ p. p ++ granted) (keep (λ p. not (str_eq p (c ∷ s))) prefixes) k in
        inr (p, (In-keep _ prefixes j).0, sym e)
  ]
]

groups_to_try_complete :
    (prefixes : List Str) (primary granted g : Str)
    → Impersonates prefixes granted g
    → In g (groups_to_try prefixes primary granted)
unfolding groups_to_try
groups_to_try_complete prefixes [] granted g (inl e) = here (sym e)
groups_to_try_complete prefixes [] granted g (inr (p, m, e)) =
    there (In-cast (sym e) (map-of_In (λ p. p ++ granted) prefixes m))
groups_to_try_complete prefixes (c ∷ s) granted g (inl e) = there (here (sym e))
groups_to_try_complete prefixes (c ∷ s) granted g (inr (p, m, e)) =
    elim (Bool-cases (str_eq p (c ∷ s))) [
      | inl q ↦ here (ap (λ (x : Str). x ++ granted) (sym ((str_eq_iff p (c ∷ s)).0 q)) ∙ sym e)
      | inr q ↦ there (
          there (
            In-cast (sym e) (
              map-of_In (λ p. p ++ granted) _
                (keep-of_In (λ p. not (str_eq p (c ∷ s))) prefixes m (ap not q)))))
    ]

module _ {W R : Type 0} (env : WebhookEnv W R) where
  -- The groups that the webhook impersonates for a session are exactly the session's granted group, bare
  -- and behind each configured prefix, whatever groups the incoming review carries.
  pub session_groups_exact :
      (s : Session) (incoming : AccessReview) (w : W) (g : Str)
      → In g (session_groups env s incoming w)
        ↔ Impersonates env.oidc_prefixes s.spec.granted_group g
  unfolding session_groups
  session_groups_exact s incoming w g = (
    groups_to_try_sound env.oidc_prefixes _ s.spec.granted_group g (
        primary_prefix-IsPrimary env.oidc_prefixes (allowed_groups_to_check env s w)
          incoming.groups),
    groups_to_try_complete env.oidc_prefixes _ s.spec.granted_group g,
  )
