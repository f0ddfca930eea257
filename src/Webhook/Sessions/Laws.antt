-- ===== src/Webhook/Sessions/Laws.antt =====
-- Which sessions the webhook counts, and what removing duplicates keeps.
use telekom_k8s_breakglass.Prelude.{
  ◌<◌, ◌≤◌, true, List, [], ◌∷◌, Str, codes, keep, contains, str_eq, ok, ◌≡◌, ◌↔◌, ◌⊎◌, inl, inr,
  refl, arith, AllDistinct, In, here, there, In-cons, In-keep, keep-of_In, not_In-nil,
  In-of_contains, contains-of_In, Bool-cases, sym, ◌∙◌, false≢true, str_eq_iff,
}
use telekom_k8s_breakglass.Api.Session.{Time, Session}
use telekom_k8s_breakglass.Session.Manager.{get_sessions_with_selector}
use telekom_k8s_breakglass.Webhook.Env.{WebhookEnv}
use telekom_k8s_breakglass.Webhook.Sessions.{counts, get_sessions, dedupe_from, dedupe_strings}

counts_iff :
    (now : Time) (s : Session)
    → (counts now s ≡ true)
      ↔ ((now ≤ s.status.retained_until) × (s.status.rejected_at ≡ 0) × (now < s.status.expires_at))
unfolding counts
counts_iff now s = (λ h. ground arith, λ h. ground arith)

module _ {W R : Type 0} (env : WebhookEnv W R) where
  -- When the hub lists the sessions `all` for the user on the cluster, the webhook counts those of them
  -- whose retention has not passed, that were not rejected, and whose expiry time is still to come, and
  -- no others.
  pub get_sessions_exact :
      (username cluster : Str) (w : W) (all : List Session)
      → get_sessions_with_selector env.kube
          ((codes "spec.cluster", cluster) ∷ (codes "spec.user", username) ∷ [])
          w
        ≡ ok all
      → (out : List Session) × (get_sessions env username cluster w ≡ ok out)
        × ((s : Session)
            → In s out ↔ (
                In s all
                × (env.now ≤ s.status.retained_until)
                × (s.status.rejected_at ≡ 0)
                × (env.now < s.status.expires_at)))
  unfolding get_sessions
  get_sessions_exact username cluster w all e = (
    keep (counts env.now) all,
    rw e,
    λ s. (
      λ m.
          let (n, t) = In-keep (counts env.now) all m in
          let (a, b, c) = (counts_iff env.now s).0 t in (n, a, b, c),
      λ (n, a, b, c). keep-of_In (counts env.now) all n ((counts_iff env.now s).1 (a, b, c)),
    ),
  )

seen-or_not : (seen : List Str) (v : Str) → In v seen ⊎ ¬ In v seen
seen-or_not seen v = elim (Bool-cases (contains seen v)) [
  | inl e ↦ inl (In-of_contains seen e)
  | inr e ↦ inr (λ m. false≢true (sym e ∙ contains-of_In seen m))
]

In-dedupe_from : (seen vs : List Str) {v : Str} → In v (dedupe_from seen vs) → In v vs × ¬ In v seen
unfolding dedupe_from
In-dedupe_from seen [] m = not_In-nil m
In-dedupe_from seen (u ∷ vs) {v} m = elim (Bool-cases (contains seen u)) [
  | inl e ↦ let (n, o) = In-dedupe_from seen vs (rw e at m) in (there n, o)
  | inr e ↦ elim (In-cons (rw e at m)) [
    | inl q ↦ (here q, λ k. false≢true (sym e ∙ contains-of_In seen (rw (← q) at k)))
    | inr k ↦ let (n, o) = In-dedupe_from (u ∷ seen) vs k in (there n, λ h. o (there h))
  ]
]

dedupe_from-of_In :
    (seen vs : List Str) {v : Str} → In v vs → ¬ In v seen → In v (dedupe_from seen vs)
unfolding dedupe_from
dedupe_from-of_In seen [] m o = not_In-nil m
dedupe_from-of_In seen (u ∷ vs) {v} (here q) o = elim (Bool-cases (contains seen u)) [
  | inl e ↦ absurd (o (rw q at (In-of_contains seen e)))
  | inr e ↦ rw e (here q)
]
dedupe_from-of_In seen (u ∷ vs) {v} (there n) o = elim (Bool-cases (contains seen u)) [
  | inl e ↦ rw e (dedupe_from-of_In seen vs n o)
  | inr e ↦ rw e (elim (Bool-cases (str_eq u v)) [
    | inl q ↦ here ((str_eq_iff u v).0 q)
    | inr q ↦ there (
        dedupe_from-of_In (u ∷ seen) vs n (λ k. elim (In-cons k) [
          | inl same ↦ absurd (false≢true (sym q ∙ (str_eq_iff u v).1 same))
          | inr old ↦ o old
        ]))
  ])
]

AllDistinct-dedupe_from : (seen vs : List Str) → AllDistinct (dedupe_from seen vs)
unfolding dedupe_from
AllDistinct-dedupe_from seen [] = tt
AllDistinct-dedupe_from seen (u ∷ vs) = elim (Bool-cases (contains seen u)) [
  | inl e ↦ rw e (AllDistinct-dedupe_from seen vs)
  | inr e ↦
      rw e
        (λ m. (In-dedupe_from (u ∷ seen) vs m).1 (here refl), AllDistinct-dedupe_from (u ∷ seen) vs)
]

-- Removing duplicates keeps exactly the strings of the list, and leaves each of them once.
pub dedupe_strings_exact :
    (vs : List Str)
    → AllDistinct (dedupe_strings vs) × ((v : Str) → In v (dedupe_strings vs) ↔ In v vs)
unfolding dedupe_strings
dedupe_strings_exact vs = (
  AllDistinct-dedupe_from [] vs,
  λ v. (λ m. (In-dedupe_from [] vs m).0, λ m. dedupe_from-of_In [] vs m (λ n. not_In-nil n)),
)
