-- ===== src/Tasks/Timeout.antt =====
-- The approval timeout over the rounds of the periodic task.
use telekom_k8s_breakglass.Prelude.{
  ◌+◌, ◌<◌, ◌≤◌, true, List, [], ◌∷◌, map, In, In-map, keep-of_In, map-of_In, All, AllDistinct, ◌≡◌,
  refl, sym, ap, subst, ◌∙◌, arith, length, length-append,
}
use telekom_k8s_breakglass.Api.Session.{Time, Session, SessionStatus}
use telekom_k8s_breakglass.Kube.{Kube}
use telekom_k8s_breakglass.Kube.Store.{IsStore, names}
use telekom_k8s_breakglass.Session.{
  is_session_pending_approval, is_session_approval_timed_out, is_session_active,
}
use telekom_k8s_breakglass.Tasks.{timed_out_status, cleanup_round, should_delete}
use telekom_k8s_breakglass.Tasks.Round.{unversioned, view, after_timeout, after_expiry}
use telekom_k8s_breakglass.Tasks.Settled.{stays, cleanup_round-refines, cleanup_round-distinct}

-- The clock's readings in the parts of a round.
abbrev pub Readings : Type 0
Readings = Time × Time × Time

-- The rounds of CleanupRoutine, one after the other.
abbrev pub rounds : {W : Type 0} → Kube W → List Readings → W → W
rounds kube [] w = w
rounds kube ((t₁, t₂, t₃) ∷ ts) w = rounds kube ts (cleanup_round kube t₁ t₂ t₃ w)

-- The round comes after the approval timeout of the session, and before its retention is over.
abbrev pub IsBetween : SessionStatus → Readings → Type 0
IsBetween st (t₁, t₂, t₃) = (st.timeout_at < t₁) × (t₃ ≤ st.retained_until)

timed_out_tests :
    {W : Type 0} (kube : Kube W) (t₁ t₂ t₃ t : Time) (s : Session)
    → is_session_approval_timed_out t s ≡ true
    → 0 < s.status.retained_until
    → IsBetween s.status (t₁, t₂, t₃)
    → let r : Session = record s { status = timed_out_status t₁ s.status } in
      (after_expiry t₂ (after_timeout t₁ s) ≡ r) × (stays kube t₃ r ≡ true)
unfolding is_session_approval_timed_out timed_out_status should_delete
timed_out_tests kube t₁ t₂ t₃ t s h kept (late, retained) = (ground arith, ground arith)

module _ {W : Type 0} {kube : Kube W} {sessions : W → List Session}
    (store : IsStore kube sessions) where
  round_again :
      (t₁ t₂ t₃ t : Time) (w : W) (s : Session)
      → AllDistinct (names (sessions w))
      → In s (sessions w)
      → is_session_approval_timed_out t s ≡ true
      → 0 < s.status.retained_until
      → IsBetween s.status (t₁, t₂, t₃)
      → (s' : Session) × In s' (sessions (cleanup_round kube t₁ t₂ t₃ w))
        × (s'.name ≡ s.name)
        × (s'.status ≡ timed_out_status t₁ s.status)
  unfolding is_session_approval_timed_out
  round_again t₁ t₂ t₃ t w s d m h kept between =
      let u = unversioned s in
      let (after, stays_on) = timed_out_tests kube t₁ t₂ t₃ t u h kept between in
      let ss = view (sessions w) in
      let there_after : In (after_expiry t₂ (after_timeout t₁ u))
          (map (after_expiry t₂) (map (after_timeout t₁) ss)) =
        map-of_In (after_expiry t₂) _
          (map-of_In (after_timeout t₁) ss (map-of_In unversioned (sessions w) m)) in
      let stored : In (after_expiry t₂ (after_timeout t₁ u))
          (view (sessions (cleanup_round kube t₁ t₂ t₃ w))) =
        rw (cleanup_round-refines store t₁ t₂ t₃ w d)
          (keep-of_In (stays kube t₃) _ there_after (rw after stays_on)) in
      let (s', m', e) = In-map unversioned (sessions (cleanup_round kube t₁ t₂ t₃ w)) stored in
      (s', m', ap (λ (x : Session). x.name) (e ∙ after), ap (λ (x : Session). x.status) (e ∙ after))

  -- Over a hub that stores sessions of distinct names: a session that has passed its approval timeout
  -- without an approval or a rejection is not done with. After any number of rounds of the periodic
  -- task, each after the timeout and before the end of the retention, the hub stores it with one
  -- condition more for each round, it still counts as pending approval and passes the timeout's test,
  -- and it counts as active whenever it did before.
  pub times_out_again :
      (ts : List Readings) (t : Time) (w : W) (s : Session)
      → AllDistinct (names (sessions w))
      → In s (sessions w)
      → is_session_approval_timed_out t s ≡ true
      → 0 < s.status.retained_until
      → All (IsBetween s.status) ts
      → (s' : Session) × In s' (sessions (rounds kube ts w))
        × (s'.name ≡ s.name)
        × (is_session_approval_timed_out t s' ≡ true)
        × (is_session_pending_approval s' ≡ true)
        × (length s'.status.conditions ≡ length s.status.conditions + length ts)
        × (is_session_active t s' ≡ is_session_active t s)
  unfolding is_session_approval_timed_out is_session_active timed_out_status
  times_out_again [] t w s d m h kept all = (s, m, refl, h, ground arith, omega arith, refl)
  times_out_again ((t₁, t₂, t₃) ∷ ts) t w s d m h kept (between, all) =
      let (s₁, m₁, named, e) = round_again t₁ t₂ t₃ t w s d m h kept between in
      let d₁ = cleanup_round-distinct store t₁ t₂ t₃ w d in
      let (s₂, m₂, same, out, waits, count, live) =
        times_out_again ts t (cleanup_round kube t₁ t₂ t₃ w) s₁ d₁ m₁ (rw e h) (rw e kept)
          (subst (λ st. All (IsBetween st) ts) (sym e) all) in
      let one : length s₁.status.conditions ≡ length s.status.conditions + 1 =
        rw e (omega (arith, length-append {0} s.status.conditions (_ ∷ []))) in
      (s₂, m₂, same ∙ named, out, waits, omega (arith, count, one), live ∙ rw e refl)
