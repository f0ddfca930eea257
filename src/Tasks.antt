-- ===== src/Tasks.antt =====
-- pkg/breakglass: the periodic task of cleanup_task.go with its three parts, ExpirePendingSessions,
-- ExpireApprovedSessions and markCleanupExpiredSession. A round reads the clock once per part.
pub mod Timeout
pub mod Retry
pub mod Round
pub mod Settled
use telekom_k8s_breakglass.Prelude.{
  ℕ, zero, suc, Bool, true, false, not, ◌&&◌, ◌||◌, List, [], ◌∷◌, ◌++◌, Str, codes, is_empty, ltb,
  Option, none, some, Result, ok, err, if◌then◌else◌,
}
use telekom_k8s_breakglass.Api.Session.{
  Time, is_zero, Session, SessionStatus, SessionState, state_eq, Condition, approved, expired,
  pending, timeout, expire,
}
use telekom_k8s_breakglass.Kube.{Kube, Written}
use telekom_k8s_breakglass.Session.{is_session_approval_timed_out, is_session_expired}
use telekom_k8s_breakglass.Session.Manager.{
  get_all_sessions, get_session_by_name, update_session, update_session_status, delete_session,
}

unfoldable pub timed_out_status : Time → SessionStatus → SessionStatus
timed_out_status now st = record st {
  state = timeout;
  conditions =
      st.conditions
      ++ record {
        kind = expire;
        last_transition = now;
        reason = codes "ApprovalTimeout";
        message = codes "Session approval timed out.";
      }
        ∷ [];
}

unfoldable pub expired_status : Time → SessionStatus → SessionStatus
expired_status now st = record st {
  state = expired;
  conditions =
      st.conditions
      ++ record {
        kind = expire;
        last_transition = now;
        reason = codes "ExpiredByTime";
        message = codes "Session expired because its ExpiresAt has been reached.";
      }
        ∷ [];
  reason_ended = codes "timeExpired";
}

-- How the loop of status updates ended: whether the last attempt failed, and the session as last
-- re-read.
pub record Attempts (W : Type 0) : Type 0 where
  pub failed : Bool
  pub session : Session
  pub world : W

module _ {W : Type 0} (kube : Kube W) (now : Time) where
  pub expire_pending_loop : List Session → W → W
  expire_pending_loop [] w = w
  expire_pending_loop (ses ∷ rest) w = expire_pending_loop rest (
      if is_session_approval_timed_out now ses
      then (update_session_status kube (record ses { status = timed_out_status now ses.status })
          w).1
      else w)

  -- ExpirePendingSessions
  pub expire_pending_sessions : W → W
  unfolding expire_pending_loop
  expire_pending_sessions w = elim (get_all_sessions kube w) [
    | err e ↦ w
    | ok sessions ↦ expire_pending_loop sessions w
  ]

  -- `copy any necessary metadata so client can locate the object`
  pub refresh_metadata : Session → W → Session
  refresh_metadata ses w = elim (get_session_by_name kube ses.name w) [
    | ok stored ↦ record ses {
      namespace = stored.namespace;
      resource_version = stored.resource_version;
    }
    | err e ↦ ses
  ]

  -- `copy status changes onto updated object and retry`
  pub reapply : Session → Session → Session
  reapply ses updated = record updated {
    status = record (updated.status) {
      state = ses.status.state;
      conditions = ses.status.conditions;
      reason_ended = ses.status.reason_ended;
    };
  }

  -- The loop of status updates; the first argument is the number of attempts left.
  pub attempt_updates : ℕ → Session → W → Attempts W
  unfolding reapply
  attempt_updates zero ses w = record { failed = true; session = ses; world = w }
  attempt_updates (suc n) ses w =
      let (r, w') = update_session_status kube ses w in
      elim r [
        | ok _ ↦ record { failed = false; session = ses; world = w' }
        | err e ↦ elim (get_session_by_name kube ses.name w') [
          | ok updated ↦ attempt_updates n (reapply ses updated) w'
          | err e' ↦ record { failed = true; session = ses; world = w' }
        ]
      ]

  -- One approved session that has passed its ExpiresAt: three attempts, then a full update.
  pub expire_session : Session → W → W
  unfolding expired_status refresh_metadata attempt_updates
  expire_session ses w =
      let marked = record ses { status = expired_status now ses.status } in
      let result = attempt_updates 3 (refresh_metadata marked w) w in
      if result.failed then (update_session kube result.session result.world).1 else result.world

  pub expire_approved_loop : List Session → W → W
  unfolding expire_session
  expire_approved_loop [] w = w
  expire_approved_loop (ses ∷ rest) w = expire_approved_loop rest (
      if state_eq ses.status.state approved && is_session_expired now ses
      then expire_session ses w
      else w)

  -- ExpireApprovedSessions
  pub expire_approved_sessions : W → W
  unfolding expire_approved_loop
  expire_approved_sessions w = elim (get_all_sessions kube w) [
    | err e ↦ w
    | ok sessions ↦ expire_approved_loop sessions w
  ]

  -- Whether the sweep deletes a session: its retention has passed, or it is an orphan without a
  -- retention that is not pending.
  pub should_delete : Session → Bool
  should_delete ses =
      (not (is_zero ses.status.retained_until) && ltb ses.status.retained_until now)
      || (is_empty ses.owner_references
          && (is_zero ses.status.retained_until && not (state_eq ses.status.state pending)))

  pub sweep_loop : List Session → W → W
  unfolding should_delete
  sweep_loop [] w = w
  sweep_loop (ses ∷ rest) w =
      sweep_loop rest (if should_delete ses then (delete_session kube ses w).1 else w)

  -- markCleanupExpiredSession
  pub mark_cleanup_expired_session : W → W
  unfolding sweep_loop
  mark_cleanup_expired_session w = elim (kube.list_sessions w) [
    | err e ↦ w
    | ok sessions ↦ sweep_loop sessions w
  ]

-- One round of CleanupRoutine, with the clock's reading in each part.
module _ {W : Type 0} (kube : Kube W) where
  unfoldable pub cleanup_round : Time → Time → Time → W → W
  unfolding expire_pending_sessions expire_approved_sessions mark_cleanup_expired_session
  cleanup_round t₁ t₂ t₃ w =
      mark_cleanup_expired_session kube t₃
        (expire_approved_sessions kube t₂ (expire_pending_sessions kube t₁ w))
