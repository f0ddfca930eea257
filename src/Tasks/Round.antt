-- ===== src/Tasks/Round.antt =====
-- A round of CleanupRoutine over a hub that stores sessions: what it does to each of them.
use telekom_k8s_breakglass.Prelude.{
  Bool, not, ◌&&◌, List, [], ◌∷◌, ◌++◌, Str, map, keep, AllDistinct, if◌then◌else◌, ok, ◌≡◌, inl,
  inr, refl, sym, ap, subst, ◌∙◌, Bool-cases,
}
use mathlib.Core.List.{append_assoc, map-append}
use telekom_k8s_breakglass.Api.Session.{Time, Session, state_eq, approved}
use telekom_k8s_breakglass.Kube.{Kube}
use telekom_k8s_breakglass.Kube.Store.{
  IsStore, names, middle_names, In-middle, AllDistinct-without, get_session_by_name-stored,
}
use telekom_k8s_breakglass.Session.{is_session_approval_timed_out, is_session_expired}
use telekom_k8s_breakglass.Session.Manager.{
  get_session_by_name, update_session, update_session_status, delete_session,
}
use telekom_k8s_breakglass.Tasks.{
  Attempts, timed_out_status, expired_status, refresh_metadata, attempt_updates, expire_session,
  expire_pending_loop, expire_approved_loop, should_delete, sweep_loop,
}

-- A session without its resource version, which every write changes.
abbrev pub unversioned : Session → Session
unversioned s = record s { resource_version = [] }

abbrev pub view : List Session → List Session
view ss = map unversioned ss

-- What a round makes of a session: the approval times out, an approved session expires.
abbrev pub after_timeout : Time → Session → Session
after_timeout now s =
    if is_session_approval_timed_out now s
    then record s { status = timed_out_status now s.status }
    else s

abbrev pub is_due : Time → Session → Bool
is_due now s = state_eq s.status.state approved && is_session_expired now s

abbrev pub after_expiry : Time → Session → Session
after_expiry now s = if is_due now s then record s { status = expired_status now s.status } else s

names-view : (ss : List Session) → names (view ss) ≡ names ss
names-view [] = refl
names-view (s ∷ ss) = ap (λ ns. s.name ∷ ns) (names-view ss)

module _ {W : Type 0} (kube : Kube W) (sessions : W → List Session) where
  -- One step of a loop brings the stored session `t` to `f t`, and leaves the others.
  abbrev pub Advances : (Session → Session) → (Session → W → W) → Type 0
  Advances f step =
      (w : W) (p q : List Session) (t : Session)
      → sessions w ≡ p ++ t ∷ q
      → AllDistinct (names (sessions w))
      → (t' : Session) × (unversioned t' ≡ unversioned (f t))
        × (t'.name ≡ t.name)
        × (sessions (step t w) ≡ p ++ t' ∷ q)

  abbrev pub each : (Session → W → W) → List Session → W → W
  each step [] w = w
  each step (s ∷ ss) w = each step ss (step s w)

  pub each-view :
      (f : Session → Session) (step : Session → W → W)
      → Advances f step
      → (p ss : List Session) (w : W) → sessions w ≡ p ++ ss
      → AllDistinct (names (sessions w))
      → (view (sessions (each step ss w)) ≡ view p ++ view (map f ss))
        × AllDistinct (names (sessions (each step ss w)))
  each-view f step advances p [] w e d = (ap view e ∙ map-append unversioned p [], d)
  each-view f step advances p (s ∷ ss) w e d =
      let (t, same, name, e') = advances w p ss s e d in
      let regrouped : sessions (step s w) ≡ (p ++ t ∷ []) ++ ss =
        e' ∙ sym (append_assoc p (t ∷ []) ss) in
      let names_kept : names (sessions (step s w)) ≡ names (sessions w) =
        ap names e' ∙ middle_names p ss s t name ∙ sym (ap names e) in
      let (v, d') =
        each-view f step advances (p ++ t ∷ []) ss (step s w) regrouped (rw names_kept d) in
      (v ∙ simp (map-append, append_assoc, same), d')

module _ {W : Type 0} {kube : Kube W} {sessions : W → List Session}
    (store : IsStore kube sessions) where
  pub time_out : Time → Session → W → W
  time_out now s w =
      if is_session_approval_timed_out now s
      then (update_session_status kube (record s { status = timed_out_status now s.status }) w).1
      else w

  pub time_out-Advances : (now : Time) → Advances kube sessions (after_timeout now) (time_out now)
  unfolding time_out update_session_status
  time_out-Advances now w p q t e d = elim (Bool-cases (is_session_approval_timed_out now t)) [
    | inr h ↦ rw h (t, refl, refl, e)
    | inl h ↦
        let (v, _, e') =
          store.status_updated w p q t (record t { status = timed_out_status now t.status }) e d
            refl refl refl in
        rw h (
          record t { status = timed_out_status now t.status; resource_version = v },
          refl,
          refl,
          e',
        )
  ]

  pub expire : Time → Session → W → W
  expire now s w = if is_due now s then expire_session kube now s w else w

  -- The full update that follows attempts that failed.
  written : Time → Attempts W → W
  written now r = if r.failed then (update_session kube r.session r.world).1 else r.world

  expire_session-stored :
      (now : Time) (w : W) (p q : List Session) (t : Session)
      → sessions w ≡ p ++ t ∷ q
      → AllDistinct (names (sessions w))
      → (v : Str) × (sessions (expire_session kube now t w)
          ≡ p ++ record t { status = expired_status now t.status; resource_version = v } ∷ q)
  unfolding expire_session attempt_updates refresh_metadata update_session_status written
  expire_session-stored now w p q t e d =
      let marked = record t { status = expired_status now t.status } in
      let read : get_session_by_name kube t.name w ≡ ok t =
        get_session_by_name-stored store t w (rw e (In-middle p q t)) d in
      let refreshed : refresh_metadata kube now marked w ≡ marked =
        rw (refresh_metadata, read) refl in
      let (v, accepted, e') = store.status_updated w p q t marked e d refl refl refl in
      (
        v,
        subst
            (λ s.
              sessions (written now (attempt_updates kube now 3 s w))
              ≡ p ++ record t { status = expired_status now t.status; resource_version = v } ∷ q)
            (sym refreshed) (rw (attempt_updates, accepted) e'),
      )

  pub expire-Advances : (now : Time) → Advances kube sessions (after_expiry now) (expire now)
  unfolding expire
  expire-Advances now w p q t e d = elim (Bool-cases (is_due now t)) [
    | inr h ↦ rw h (t, refl, refl, e)
    | inl h ↦
        let (v, e') = expire_session-stored now w p q t e d in
        rw h
          (record t { status = expired_status now t.status; resource_version = v }, refl, refl, e')
  ]

  pub pending_loop-each :
      (now : Time) (ss : List Session) (w : W)
      → expire_pending_loop kube now ss w ≡ each kube sessions (time_out now) ss w
  unfolding expire_pending_loop time_out
  pending_loop-each now [] w = refl
  pending_loop-each now (s ∷ ss) w = pending_loop-each now ss (time_out now s w)

  pub approved_loop-each :
      (now : Time) (ss : List Session) (w : W)
      → expire_approved_loop kube now ss w ≡ each kube sessions (expire now) ss w
  unfolding expire_approved_loop expire
  approved_loop-each now [] w = refl
  approved_loop-each now (s ∷ ss) w = approved_loop-each now ss (expire now s w)

  pub sweep_loop-sessions :
      (now : Time) (p ss : List Session) (w : W)
      → sessions w ≡ p ++ ss
      → AllDistinct (names (sessions w))
      → sessions (sweep_loop kube now ss w) ≡ p ++ keep (λ s. not (should_delete kube now s)) ss
  unfolding sweep_loop keep delete_session
  sweep_loop-sessions now p [] w e d = e
  sweep_loop-sessions now p (s ∷ ss) w e d = elim (Bool-cases (should_delete kube now s)) [
    | inr h ↦
        rw (sweep_loop, h)
          (sweep_loop-sessions now (p ++ s ∷ []) ss w (e ∙ sym (append_assoc p (s ∷ []) ss)) d
            ∙ append_assoc p (s ∷ []) _)
    | inl h ↦
        let (_, e') = store.deleted w p ss s e d in
        rw (sweep_loop, h)
          (sweep_loop-sessions now p ss (delete_session kube s w).1 e'
            (rw e' (AllDistinct-without p ss s (rw (ap names e) at d))))
  ]
