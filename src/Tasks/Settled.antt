-- ===== src/Tasks/Settled.antt =====
-- The whole round of CleanupRoutine, against a description of it on the list of the sessions.
use telekom_k8s_breakglass.Prelude.{
  ◌<◌, ◌≤◌, Bool, true, false, not, List, [], ◌∷◌, map, keep, In, In-cast, In-keep, In-map,
  keep-of_In, subst, map-of_In, AllDistinct, ◌≡◌, ◌⊎◌, inl, inr, refl, ap, ◌∙◌, Bool-cases, arith,
}
use telekom_k8s_breakglass.Api.Session.{Time, Session, approved, pending, timeout}
use telekom_k8s_breakglass.Kube.{Kube}
use telekom_k8s_breakglass.Kube.Store.{IsStore, names, AllDistinct-keep}
use telekom_k8s_breakglass.Session.{is_session_approval_timed_out, is_session_expired}
use telekom_k8s_breakglass.Session.Manager.{get_all_sessions}
use telekom_k8s_breakglass.Tasks.{
  timed_out_status, expired_status, expire_pending_sessions, expire_approved_sessions,
  should_delete, mark_cleanup_expired_session, cleanup_round,
}
use telekom_k8s_breakglass.Tasks.Round.{
  unversioned, view, after_timeout, is_due, after_expiry, each-view, time_out, expire,
  time_out-Advances, expire-Advances, pending_loop-each, approved_loop-each, sweep_loop-sessions,
}

map-view :
    (f : Session → Session)
    → ((s : Session) → unversioned (f s) ≡ f (unversioned s))
    → (ss : List Session) → view (map f ss) ≡ map f (view ss)
map-view f e [] = refl
map-view f e (s ∷ ss) = rw (e s, map-view f e ss)

after_timeout-unversioned :
    (now : Time) (s : Session)
    → unversioned (after_timeout now s) ≡ after_timeout now (unversioned s)
unfolding is_session_approval_timed_out
after_timeout-unversioned now s = elim (Bool-cases (is_session_approval_timed_out now s)) [
  | inl e ↦ rw e refl
  | inr e ↦ rw e refl
]

after_expiry-unversioned :
    (now : Time) (s : Session) → unversioned (after_expiry now s) ≡ after_expiry now (unversioned s)
unfolding is_session_expired
after_expiry-unversioned now s = elim (Bool-cases (is_due now s)) [
  | inl e ↦ rw e refl
  | inr e ↦ rw e refl
]

module _ {W : Type 0} (kube : Kube W) where
  abbrev pub stays : Time → Session → Bool
  stays now s = not (should_delete kube now s)

  keep-view :
      (now : Time) (ss : List Session) → view (keep (stays now) ss) ≡ keep (stays now) (view ss)
  unfolding keep should_delete
  keep-view now [] = refl
  keep-view now (s ∷ ss) = elim (Bool-cases (stays now s)) [
    | inl e ↦ rw (e, keep-view now ss) refl
    | inr e ↦ rw (e, keep-view now ss) refl
  ]

  -- What holds of each session that is stored after a round.
  pub record IsSettled (t₁ t₂ t₃ : Time) (s : Session) : Type 0 where
    pub timed_out :
        s.status.approved_at ≡ 0
        → s.status.rejected_at ≡ 0
        → 0 < s.status.timeout_at
        → s.status.timeout_at < t₁
        → s.status.state ≡ timeout
    pub not_due : s.status.state ≡ approved → (s.status.expires_at ≡ 0) ⊎ (t₂ ≤ s.status.expires_at)
    pub retained : (s.status.retained_until ≡ 0) ⊎ (t₃ ≤ s.status.retained_until)
    pub owned : s.owner_references ≡ [] → s.status.retained_until ≡ 0 → s.status.state ≡ pending

  settled_tests :
      (t₁ t₂ t₃ : Time) (s : Session)
      → stays t₃ (after_expiry t₂ (after_timeout t₁ s)) ≡ true
      → let r = after_expiry t₂ (after_timeout t₁ s) in
        (is_session_approval_timed_out t₁ r ≡ true → r.status.state ≡ timeout)
        × (is_due t₂ r ≡ false)
        × (should_delete kube t₃ r ≡ false)
  unfolding is_session_approval_timed_out timed_out_status expired_status is_session_expired
  settled_tests t₁ t₂ t₃ s h = (λ k. ground arith, ground arith, ground arith)

  IsSettled-of_tests :
      (t₁ t₂ t₃ : Time) (s : Session)
      → (is_session_approval_timed_out t₁ s ≡ true → s.status.state ≡ timeout)
      → is_due t₂ s ≡ false
      → should_delete kube t₃ s ≡ false
      → IsSettled t₁ t₂ t₃ s
  unfolding is_session_approval_timed_out is_session_expired should_delete
  IsSettled-of_tests t₁ t₂ t₃ s a b c = record {
    timed_out = λ x y z u. a (ground arith);
    not_due = λ x. ground arith;
    retained = ground arith;
    owned = λ x y. ground arith;
  }

  versioned-IsSettled :
      (t₁ t₂ t₃ : Time) (s : Session) → IsSettled t₁ t₂ t₃ (unversioned s) → IsSettled t₁ t₂ t₃ s
  versioned-IsSettled t₁ t₂ t₃ s u = record {
    timed_out = u.timed_out;
    not_due = u.not_due;
    retained = u.retained;
    owned = u.owned;
  }

  round-IsSettled :
      (t₁ t₂ t₃ : Time) (s : Session)
      → stays t₃ (after_expiry t₂ (after_timeout t₁ s)) ≡ true
      → IsSettled t₁ t₂ t₃ (after_expiry t₂ (after_timeout t₁ s))
  round-IsSettled t₁ t₂ t₃ s h =
      let (a, b, c) = settled_tests t₁ t₂ t₃ s h in IsSettled-of_tests t₁ t₂ t₃ _ a b c

  -- Nothing of the round applies to the session.
  abbrev pub IsQuiet : Time → Time → Time → Session → Type 0
  IsQuiet t₁ t₂ t₃ s =
      (is_session_approval_timed_out t₁ s ≡ false)
      × (is_due t₂ s ≡ false)
      × (should_delete kube t₃ s ≡ false)

  quiet-unversioned :
      (t₁ t₂ t₃ : Time) (s : Session)
      → IsQuiet t₁ t₂ t₃ s
      → (after_expiry t₂ (after_timeout t₁ (unversioned s)) ≡ unversioned s)
        × (stays t₃ (unversioned s) ≡ true)
  unfolding is_session_approval_timed_out is_session_expired should_delete
  quiet-unversioned t₁ t₂ t₃ s (a, b, c) = (rw (a, b) refl, ap not c)

module _ {W : Type 0} {kube : Kube W} {sessions : W → List Session}
    (store : IsStore kube sessions) where
  pending-view :
      (now : Time) (w : W)
      → AllDistinct (names (sessions w))
      → (view (sessions (expire_pending_sessions kube now w))
          ≡ map (after_timeout now) (view (sessions w)))
        × AllDistinct (names (sessions (expire_pending_sessions kube now w)))
  unfolding expire_pending_sessions get_all_sessions
  pending-view now w d =
      let (v, d') =
        each-view kube sessions (after_timeout now) (time_out store now)
          (time_out-Advances store now) [] (sessions w) w refl d in
      rw (expire_pending_sessions, store.listed w, pending_loop-each store now (sessions w) w)
        (v ∙ map-view (after_timeout now) (after_timeout-unversioned now) (sessions w), d')

  approved-view :
      (now : Time) (w : W)
      → AllDistinct (names (sessions w))
      → (view (sessions (expire_approved_sessions kube now w))
          ≡ map (after_expiry now) (view (sessions w)))
        × AllDistinct (names (sessions (expire_approved_sessions kube now w)))
  unfolding expire_approved_sessions get_all_sessions
  approved-view now w d =
      let (v, d') =
        each-view kube sessions (after_expiry now) (expire store now) (expire-Advances store now) []
          (sessions w) w refl d in
      rw (expire_approved_sessions, store.listed w, approved_loop-each store now (sessions w) w)
        (v ∙ map-view (after_expiry now) (after_expiry-unversioned now) (sessions w), d')

  sweep-view :
      (now : Time) (w : W)
      → AllDistinct (names (sessions w))
      → view (sessions (mark_cleanup_expired_session kube now w))
        ≡ keep (stays kube now) (view (sessions w))
  unfolding mark_cleanup_expired_session
  sweep-view now w d =
      rw (mark_cleanup_expired_session, store.listed w)
        (ap view (sweep_loop-sessions store now [] (sessions w) w refl d)
          ∙ keep-view kube now (sessions w))

  -- Over a hub that stores sessions of distinct names, a round of the periodic task brings what the hub
  -- stores, up to the resource versions, to: every session after the approval timeout, then after the
  -- expiry, less those that the sweep's test selects. Nothing else changes.
  pub cleanup_round-refines :
      (t₁ t₂ t₃ : Time) (w : W)
      → AllDistinct (names (sessions w))
      → view (sessions (cleanup_round kube t₁ t₂ t₃ w))
        ≡ keep (stays kube t₃) (map (after_expiry t₂) (map (after_timeout t₁) (view (sessions w))))
  unfolding cleanup_round
  cleanup_round-refines t₁ t₂ t₃ w d =
      let (v₁, d₁) = pending-view t₁ w d in
      let w₁ = expire_pending_sessions kube t₁ w in
      let (v₂, d₂) = approved-view t₂ w₁ d₁ in
      sweep-view t₃ (expire_approved_sessions kube t₂ w₁) d₂
      ∙ ap (λ (ss : List Session). keep (stays kube t₃) ss)
          (v₂ ∙ ap (λ (ss : List Session). map (after_expiry t₂) ss) v₁)

  -- A round keeps the names distinct.
  pub cleanup_round-distinct :
      (t₁ t₂ t₃ : Time) (w : W)
      → AllDistinct (names (sessions w))
      → AllDistinct (names (sessions (cleanup_round kube t₁ t₂ t₃ w)))
  unfolding cleanup_round mark_cleanup_expired_session
  cleanup_round-distinct t₁ t₂ t₃ w d =
      let w₁ = expire_pending_sessions kube t₁ w in
      let d₁ = (pending-view t₁ w d).1 in
      let w₂ = expire_approved_sessions kube t₂ w₁ in
      let d₂ = (approved-view t₂ w₁ d₁).1 in
      rw
        (
          mark_cleanup_expired_session,
          store.listed w₂,
          sweep_loop-sessions store t₃ [] (sessions w₂) w₂ refl d₂,
        )
        (AllDistinct-keep (stays kube t₃) (sessions w₂) d₂)

  -- Over a hub that stores sessions of distinct names, one round of the periodic task settles every
  -- session. Of those that are stored after it, each that was neither approved nor rejected and has passed
  -- its approval timeout is in the state of a timeout; no approved one has passed its expiry time; none has
  -- passed its retention time; and one without owner and retention time is pending. And a session to which
  -- none of the tests of the round applied is stored as before, up to its resource version.
  pub cleanup_round-settles :
      (t₁ t₂ t₃ : Time) (w : W)
      → AllDistinct (names (sessions w))
      → ((s : Session)
          → In s (sessions (cleanup_round kube t₁ t₂ t₃ w))
          → IsSettled kube t₁ t₂ t₃ s)
        × ((s : Session)
            → In s (sessions w)
            → IsQuiet kube t₁ t₂ t₃ s
            → In (unversioned s) (view (sessions (cleanup_round kube t₁ t₂ t₃ w))))
  cleanup_round-settles t₁ t₂ t₃ w d =
      let refined = cleanup_round-refines t₁ t₂ t₃ w d in
      let timed : List Session = map (after_timeout t₁) (view (sessions w)) in
      (
        λ s m.
            let (k, h) =
              In-keep (stays kube t₃) (map (after_expiry t₂) timed)
                (rw refined at (map-of_In unversioned _ m)) in
            let (y, n, e) = In-map (after_expiry t₂) timed k in
            let (x, _, f) = In-map (after_timeout t₁) (view (sessions w)) n in
            let g : after_expiry t₂ (after_timeout t₁ x) ≡ unversioned s =
              ap (after_expiry t₂) f ∙ e in
            versioned-IsSettled kube t₁ t₂ t₃ s (
              subst (IsSettled kube t₁ t₂ t₃) g
                (round-IsSettled kube t₁ t₂ t₃ x (ap (stays kube t₃) g ∙ h))),
        λ s m q.
            let (e, h) = quiet-unversioned kube t₁ t₂ t₃ s q in
            rw refined (
              keep-of_In (stays kube t₃) (map (after_expiry t₂) timed)
                (In-cast e (
                  map-of_In (after_expiry t₂) timed
                    (map-of_In (after_timeout t₁) (view (sessions w)) (map-of_In unversioned _ m))))
                h),
      )
