-- ===== src/Distinct.antt =====
-- The loop that normalises texts, skips the empty ones and drops repetitions, which
-- pkg/breakglass/escalation_status_updater.go (normalizeMembers) and pkg/api/auth.go (Middleware) share.
use telekom_k8s_breakglass.Prelude.{
  AllDistinct, true, not, List, [], ◌∷◌, Str, map, keep, is_empty, contains, if◌then◌else◌, ◌≡◌,
  ◌≢◌, ◌↔◌, refl, ap, In, In-map, In-cast, map-of_In, In-keep, keep-of_In, Bool-cases, inl, inr,
}
use telekom_k8s_breakglass.Webhook.Sessions.{dedupe_from, dedupe_strings}
use telekom_k8s_breakglass.Webhook.Sessions.Laws.{dedupe_strings_exact}

-- The loop, with the texts seen so far.
unfoldable pub collect_distinct : (Str → Str) → List Str → List Str → List Str
collect_distinct norm seen [] = []
collect_distinct norm seen (m ∷ ms) =
    let n = norm m in
    let rest = collect_distinct norm seen ms in
    let fresh = n ∷ collect_distinct norm (n ∷ seen) ms in
    if is_empty n then rest else if contains seen n then rest else fresh

abbrev nonempty : List Str → List Str
nonempty ms = keep (λ m. not (is_empty m)) ms

module _ (norm : Str → Str) where
  collect_distinct-dedupe :
      (seen ms : List Str)
      → collect_distinct norm seen ms ≡ dedupe_from seen (nonempty (map norm ms))
  unfolding collect_distinct dedupe_from keep
  collect_distinct-dedupe seen [] = refl
  collect_distinct-dedupe seen (m ∷ ms) =
      let n = norm m in
      elim (Bool-cases (is_empty n)) [
        | inl e ↦ rw (e, collect_distinct-dedupe seen ms)
        | inr e ↦ elim (Bool-cases (contains seen n)) [
          | inl k ↦ rw (e, k, collect_distinct-dedupe seen ms)
          | inr k ↦ rw (e, k) (ap (λ l. n ∷ l) (collect_distinct-dedupe (n ∷ seen) ms))
        ]
      ]

  nonempty_iff : (v : Str) → (not (is_empty v) ≡ true) ↔ (v ≢ [])
  nonempty_iff [] = (λ h. cc, λ h. absurd (h refl))
  nonempty_iff (c ∷ v) = (λ _ q. cc, λ _. refl)

  -- The texts are distinct, and they are exactly the normal forms of the list's, less the empty one.
  pub collect_distinct_exact :
      (ms : List Str)
      → AllDistinct (collect_distinct norm [] ms)
        × ((v : Str)
            → In v (collect_distinct norm [] ms)
              ↔ ((v ≢ []) × ((m : Str) × In m ms × (norm m ≡ v))))
  unfolding dedupe_strings
  collect_distinct_exact ms =
      let texts = nonempty (map norm ms) in
      let (distinct, same) = dedupe_strings_exact texts in
      rw (collect_distinct-dedupe [] ms) (
        distinct,
        λ v. (
          λ i.
              let (j, t) = In-keep _ (map norm ms) ((same v).0 i) in
              ((nonempty_iff v).0 t, In-map norm ms j),
          λ (ne, (m, i, e)). (same v).1 (
              keep-of_In _ (map norm ms) (In-cast e (map-of_In norm ms i)) ((nonempty_iff v).1 ne)),
        ),
      )
