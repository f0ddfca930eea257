-- ===== src/Webhook/Granted.antt =====
-- What the endpoints on a session mean for the webhook, over a hub that stores sessions: the
-- composition of Session with the webhook's look-up.
pub mod Allowed
pub mod Requested
use telekom_k8s_breakglass.Prelude.{
  ℕ, ◌+◌, ◌<◌, ◌≤◌, Bool, true, false, List, [], ◌∷◌, ◌++◌, Str, codes, map, keep, In, In-cons,
  In-map, In-keep, here, there, map-of_In, keep-of_In, not_In-nil, AllDistinct, Result, ok, ◌>>=◌,
  wrap, ◌≡◌, ◌≢◌, ◌⊎◌, inl, inr, refl, sym, ap, subst, ◌∙◌, arith, str_eq_refl, contains,
  ok-injective, ok-ne-err, Result-cases, str_eq,
}
use telekom_k8s_breakglass.Api.Session.{Time, Session}
use telekom_k8s_breakglass.Kube.{Kube, Selector}
use telekom_k8s_breakglass.Kube.Store.{
  IsStore, names, selected, middle_names, In-middle, unique_name, In-split,
}
use telekom_k8s_breakglass.Indices.{session_index}
use telekom_k8s_breakglass.Env.{Env, Context}
use telekom_k8s_breakglass.Session.Manager.{get_sessions_with_selector}
use telekom_k8s_breakglass.Session.Endpoints.{Action, approves, rejects, withdraws, drops, cancels}
use telekom_k8s_breakglass.Session.Review.{approved_status, rejected_status}
use telekom_k8s_breakglass.Session.Owner.{withdrawn_status, dropped_status}
use telekom_k8s_breakglass.Session.Cancel.{cancelled_status}
use telekom_k8s_breakglass.Session.Lifecycle.Handled.{handle}
use telekom_k8s_breakglass.Session.{
  default_valid_for, default_retain_for, duration_or, record_approver,
}
use telekom_k8s_breakglass.Session.Lifecycle.Written.{stored, handle-stored}
use telekom_k8s_breakglass.Webhook.Env.{WebhookEnv}
use telekom_k8s_breakglass.Webhook.Sessions.{UserAccess, get_sessions, get_user_groups_and_sessions}
use telekom_k8s_breakglass.Webhook.Sessions.Laws.{get_sessions_exact}

selects_own :
    (s : Session)
    → selected ((codes "spec.cluster", s.spec.cluster) ∷ (codes "spec.user", s.spec.user) ∷ []) s
      ≡ true
unfolding session_index str_eq contains
selects_own s = ground (arith, str_eq_refl s.spec.cluster, str_eq_refl s.spec.user)

-- The webhook beside the API, at the time `t`.
abbrev pub webhook_at : {W R : Type 0} → Env W → WebhookEnv W R → Time → WebhookEnv W R
webhook_at env webhook t = record webhook { kube = env.kube; now = t }

module _ {W R : Type 0} (env : Env W) (webhook : WebhookEnv W R) {sessions : W → List Session}
    (hub : IsStore env.kube sessions) where
  -- The sessions of the user on the cluster that the webhook counts at the time `t`.
  counted_sessions :
      (t : Time) (username cluster : Str) (w : W)
      → (user : UserAccess) × (get_user_groups_and_sessions
            (webhook_at env webhook t)
            username
            cluster
            w
          ≡ ok user)
        × (user.groups ≡ map (λ s. s.spec.granted_group) user.sessions)
        × ((s : Session) → In s user.sessions → In s (sessions w) × (s.status.rejected_at ≡ 0))
        × ((s : Session)
            → In s (sessions w)
            → s.spec.user ≡ username
            → s.spec.cluster ≡ cluster
            → t ≤ s.status.retained_until
            → s.status.rejected_at ≡ 0
            → t < s.status.expires_at
            → In s user.sessions)
  unfolding get_user_groups_and_sessions get_sessions_with_selector
  counted_sessions t username cluster w =
      let sel : Selector = (codes "spec.cluster", cluster) ∷ (codes "spec.user", username) ∷ [] in
      let all : List Session = keep (selected sel) (sessions w) in
      let (out, e, same) =
        get_sessions_exact (webhook_at env webhook t) username cluster w all
          (rw (hub.selects sel w) refl) in
      elim (Result-cases
        (get_user_groups_and_sessions (webhook_at env webhook t) username cluster w)) [
          | inr (x, q) ↦ absurd (ok-ne-err (rw (get_user_groups_and_sessions, e) at q))
          | inl (user, q) ↦
              let found = ok-injective (rw (get_user_groups_and_sessions, e) at q) in
              let same_sessions : out ≡ user.sessions = ap (λ (u : UserAccess). u.sessions) found in
              (
                user,
                q,
                sym (ap (λ (u : UserAccess). u.groups) found)
                    ∙ ap (λ (ss : List Session). map (λ s. s.spec.granted_group) ss) same_sessions,
                λ s m.
                    let (n, _, r, _) = (same s).0 (rw (← same_sessions) at m) in
                    ((In-keep (selected sel) (sessions w) n).0, r),
                λ s m u c retained rejected expires. rw (← same_sessions) (
                    (same s).1 (
                      keep-of_In (selected sel) (sessions w) m (rw (← u, ← c) (selects_own s)),
                      retained,
                      rejected,
                      expires,
                    )),
              )
        ]

  -- What an approval sets for the webhook, and what every other endpoint does.
  approved_times :
      (c : Context) (bs : Session) (w : W)
      → let st = (stored env approves c bs w).status in
        (st.rejected_at ≡ 0)
        × (st.expires_at
            ≡ env.now + duration_or env.parse_duration default_valid_for bs.spec.max_valid_for)
        × (st.retained_until
            ≡ env.now + duration_or env.parse_duration default_retain_for bs.spec.retain_for)
  unfolding approved_status record_approver
  approved_times c bs w = (ground arith, ground arith, ground arith)

  ended_time :
      (a : Action) (c : Context) (bs : Session) (w : W)
      → a ≢ approves
      → (stored env a c bs w).status.rejected_at ≡ env.now
  unfolding rejected_status withdrawn_status dropped_status cancelled_status record_approver
  ended_time approves c bs w ne = absurd (ne refl)
  ended_time rejects c bs w ne = ground arith
  ended_time withdraws c bs w ne = ground arith
  ended_time drops c bs w ne = ground arith
  ended_time cancels c bs w ne = ground arith

  -- Over a hub that stores sessions of distinct names: after an approval that is answered with 200, and
  -- until the session's time is over, the webhook counts a session with the granted group among those
  -- of the session's user on its cluster. The time is the one that the specification asks for, or the
  -- default, from the approval on; and the retention must not be over before.
  pub approved-granted :
      (c : Context) (bs : Session) (w : W) (t : Time)
      → In bs (sessions w)
      → AllDistinct (names (sessions w))
      → (handle env approves c bs w).0.code ≡ 200
      → t < env.now + duration_or env.parse_duration default_valid_for bs.spec.max_valid_for
      → t ≤ env.now + duration_or env.parse_duration default_retain_for bs.spec.retain_for
      → (user : UserAccess) × (get_user_groups_and_sessions
            (webhook_at env webhook t)
            bs.spec.user
            bs.spec.cluster
            (handle env approves c bs w).1
          ≡ ok user)
        × ((s : Session) × In s user.sessions × (s.spec.granted_group ≡ bs.spec.granted_group))
  approved-granted c bs w t m d h before kept =
      let (p, q, e) = In-split (sessions w) m in
      let (version, e') = handle-stored env hub approves c bs w p q e d h in
      let new : Session = record bs {
        status = (stored env approves c bs w).status;
        resource_version = version;
      } in
      let (none_rejected, expires, retained) = approved_times c bs w in
      let (user, found, _, _, counts) =
        counted_sessions t bs.spec.user bs.spec.cluster (handle env approves c bs w).1 in
      let counted : In new user.sessions =
        counts new (rw e' (In-middle p q new)) refl refl (rw retained kept) none_rejected
          (rw expires before) in
      (user, found, (new, counted, refl))

  -- Over a hub that stores sessions of distinct names: after a rejection, a withdrawal, a drop or a
  -- cancellation that is answered with 200, at a time after the zero time, the webhook never again counts
  -- the session, for any user, cluster and time, as long as the hub stays as it is.
  pub ended-not_counted :
      (a : Action) (c : Context) (bs : Session) (w : W) (t : Time) (username cluster : Str)
      (user : UserAccess) (s : Session)
      → a ≢ approves
      → 0 < env.now
      → In bs (sessions w)
      → AllDistinct (names (sessions w))
      → (handle env a c bs w).0.code ≡ 200
      → get_user_groups_and_sessions
          (webhook_at env webhook t)
          username
          cluster
          (handle env a c bs w).1
        ≡ ok user
      → In s user.sessions
      → s.name ≢ bs.name
  ended-not_counted a c bs w t username cluster user s ne later m d h found counted named =
      let (p, q, e) = In-split (sessions w) m in
      let (version, e') = handle-stored env hub a c bs w p q e d h in
      let new : Session = record bs {
        status = (stored env a c bs w).status;
        resource_version = version;
      } in
      let w' = (handle env a c bs w).1 in
      let (user', found', _, open_only, _) = counted_sessions t username cluster w' in
      let same : user ≡ user' = ok-injective (sym found ∙ found') in
      let (inside, not_rejected) = open_only s (rw same at counted) in
      let d' : AllDistinct (names (sessions w')) =
        rw (ap names e' ∙ middle_names p q bs new refl ∙ sym (ap names e)) d in
      let is_new : s ≡ new =
        unique_name (sessions w') d' inside (rw e' (In-middle p q new)) named in
      let ended = ended_time a c bs w ne in
      let zero_now : env.now ≡ 0 =
        sym ended ∙ ap (λ (s : Session). s.status.rejected_at) (sym is_new) ∙ not_rejected in
      absurd (omega arith)
