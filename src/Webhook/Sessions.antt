-- ===== src/Webhook/Sessions.antt =====
-- getSessions, getUserGroupsAndSessions and dedupeStrings.
pub mod Laws
use telekom_k8s_breakglass.Prelude.{
  ℕ, ◌<◌, ◌≤◌, Bool, true, false, not, ◌&&◌, ◌||◌, List, [], ◌∷◌, ◌++◌, Str, codes, map, keep,
  contains, str_eq, ltb, ◌==◌, if◌then◌else◌, Result, ok, err, ◌>>=◌, ◌≡◌, ◌≢◌, ◌↔◌, ◌⊎◌, inl, inr,
  refl, arith, In, here, there, In-cons, In-keep, keep-of_In, not_In-nil, ok-injective,
  Result-cases, In-of_contains, contains-of_In, Bool-cases, sym, ◌∙◌,
}
use telekom_k8s_breakglass.Api.Session.{Time, is_zero, Session}
use telekom_k8s_breakglass.Session.{is_session_retained}
use telekom_k8s_breakglass.Session.Manager.{get_sessions_with_selector}
use telekom_k8s_breakglass.Webhook.Env.{WebhookEnv}

-- The loop's test on a session.
unfoldable pub counts : Time → Session → Bool
unfolding is_session_retained
counts now s =
    not (is_session_retained now s)
    && (is_zero s.status.rejected_at
        && not (is_zero s.status.expires_at)
        && ltb now s.status.expires_at)

-- dedupeStrings, with the strings seen so far.
unfoldable pub dedupe_from : List Str → List Str → List Str
dedupe_from seen [] = []
dedupe_from seen (v ∷ vs) =
    let fresh = v ∷ dedupe_from (v ∷ seen) vs in
    let known = dedupe_from seen vs in if contains seen v then known else fresh

unfoldable pub dedupe_strings : List Str → List Str
unfolding dedupe_from
dedupe_strings vs = dedupe_from [] vs

-- What getUserGroupsAndSessions returns.
pub record UserAccess : Type 0 where
  pub groups : List Str
  pub sessions : List Session
  pub tenant : Str

module _ {W R : Type 0} (env : WebhookEnv W R) where
  pub get_sessions : Str → Str → W → Result (List Session)
  get_sessions username cluster w = do
    all ←
        get_sessions_with_selector env.kube
          ((codes "spec.cluster", cluster) ∷ (codes "spec.user", username) ∷ []) w
    ok (keep (counts env.now) all)

  unfoldable pub get_user_groups_and_sessions : Str → Str → W → Result UserAccess
  unfolding get_sessions
  get_user_groups_and_sessions username cluster w = do
    sessions ← get_sessions username cluster w
    ok (record {
      groups = map (λ s. s.spec.granted_group) sessions;
      sessions = sessions;
      tenant = elim (env.cluster_config cluster w) [ ok cfg ↦ cfg.spec.tenant | err e ↦ [] ];
    })
