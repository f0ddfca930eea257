-- ===== src/Tasks/Retry.antt =====
-- The status updates of ExpireApprovedSessions: what the retries keep.
use telekom_k8s_breakglass.Prelude.{
  ℕ, zero, suc, false, Result, ok, Result-cases, ◌≡◌, inl, inr, refl, ap,
}
use telekom_k8s_breakglass.Api.Session.{Time, Session}
use telekom_k8s_breakglass.Kube.{Kube}
use telekom_k8s_breakglass.Session.Manager.{get_session_by_name, update_session_status}
use telekom_k8s_breakglass.Tasks.{Attempts, reapply, attempt_updates}

module _ {W : Type 0} (kube : Kube W) where
  -- The session has the state, the conditions and the end reason of the marked one; and when the
  -- attempts did not fail, the status update of that session succeeded and gave the final world.
  pub record IsFaithful (ses : Session) (r : Attempts W) : Type 0 where
    pub state : r.session.status.state ≡ ses.status.state
    pub conditions : r.session.status.conditions ≡ ses.status.conditions
    pub reason_ended : r.session.status.reason_ended ≡ ses.status.reason_ended
    pub written :
        r.failed ≡ false → (w₀ : W) × (update_session_status kube r.session w₀ ≡ (ok tt, r.world))

  -- Each attempt writes the state, the conditions and the end reason that the task has set, also after
  -- the session was read again; and attempts that do not report a failure end with a status update
  -- that the cluster accepted.
  pub attempt_updates-IsFaithful :
      (now : Time) (n : ℕ) (ses : Session) (w : W)
      → IsFaithful ses (attempt_updates kube now n ses w)
  unfolding attempt_updates reapply
  attempt_updates-IsFaithful now zero ses w = record {
    state = refl;
    conditions = refl;
    reason_ended = refl;
    written = λ h. cc;
  }
  attempt_updates-IsFaithful now (suc n) ses w =
      elim (Result-cases (update_session_status kube ses w).0) [
        | inl (u, e) ↦
            rw (e, attempt_updates)
              (record {
                state = refl;
                conditions = refl;
                reason_ended = refl;
                written = λ _. (
                  w,
                  ap (λ (x : Result (Unit {0})). (x, (update_session_status kube ses w).1)) e,
                );
              })
        | inr (x, e) ↦
            let w' = (update_session_status kube ses w).1 in
            elim (Result-cases (get_session_by_name kube ses.name w')) [
              | inr (y, q) ↦
                  rw (e, q, attempt_updates)
                    (record {
                      state = refl;
                      conditions = refl;
                      reason_ended = refl;
                      written = λ h. cc;
                    })
              | inl (updated, q) ↦
                  let ih = attempt_updates-IsFaithful now n (reapply kube now ses updated) w' in
                  rw (e, q, attempt_updates)
                    (record {
                      state = ih.state;
                      conditions = ih.conditions;
                      reason_ended = ih.reason_ended;
                      written = ih.written;
                    })
            ]
      ]
