-- ===== src/Session/Lifecycle/Written.antt =====
-- What the endpoints write to a hub that stores sessions.
use telekom_k8s_breakglass.Prelude.{
  true, false, In, List, [], ◌∷◌, ◌++◌, Str, codes, AllDistinct, Result-cases, Bool-cases, ◌≡◌, inl,
  inr, refl, ap, ◌∙◌, arith, str_eq,
}
use telekom_k8s_breakglass.Api.Session.{Session, OwnerReference, condition_eq, approve, pending}
use telekom_k8s_breakglass.Api.Escalation.{Escalation}
use telekom_k8s_breakglass.Kube.Store.{IsStore, names, In-split}
use telekom_k8s_breakglass.Env.{Env, Context}
use telekom_k8s_breakglass.Escalations.{get_cluster_group_escalations, update_escalation_status}
use telekom_k8s_breakglass.Approval.{is_session_approver}
use telekom_k8s_breakglass.Session.{last_kind}
use telekom_k8s_breakglass.Session.Manager.{update_session_status}
use telekom_k8s_breakglass.Session.Endpoints.{Action, approves, rejects, withdraws, drops, cancels}
use telekom_k8s_breakglass.Session.Review.{review, bump_approvals, count_first, count_approval}
use telekom_k8s_breakglass.Session.Review.Outcome.{
  approved_session, rejected_session, approve_result, approve_iff,
}
use telekom_k8s_breakglass.Session.Owner.{store, withdraw, drop}
use telekom_k8s_breakglass.Session.Owner.Outcome.{withdrawn_session, dropped_session}
use telekom_k8s_breakglass.Session.Cancel.{approver_cancel}
use telekom_k8s_breakglass.Session.Cancel.Outcome.{cancelled_session}
use telekom_k8s_breakglass.Session.Lifecycle.Handled.{handle}

-- The session that an endpoint stores.
abbrev pub stored : {W : Type 0} → Env W → Action → Context → Session → W → Session
stored env approves c bs w = approved_session env c bs w
stored env rejects c bs w = rejected_session env c bs w
stored env withdraws c bs w = withdrawn_session env c bs w
stored env drops c bs w = dropped_session env c bs w
stored env cancels c bs w = cancelled_session env c bs w

module _ {W : Type 0} (env : Env W) where
  -- The state of the hub when an endpoint writes the session: an approval was counted before.
  abbrev counted : Action → Session → W → W
  counted approves bs w = count_approval env bs.spec.cluster bs.owner_references w
  counted _ bs w = w

  handle-state :
      (a : Action) (c : Context) (bs : Session) (w : W)
      → (handle env a c bs w).0.code ≡ 200
      → (handle env a c bs w).1
        ≡ (update_session_status env.kube (stored env a c bs w) (counted a bs w)).1
  unfolding review withdraw drop approver_cancel store
  handle-state approves c bs w h = (approve_result env c bs w h).1
  handle-state rejects c bs w h = ground arith
  handle-state withdraws c bs w h = ground arith
  handle-state drops c bs w h = ground arith
  handle-state cancels c bs w h = ground arith

  module _ {sessions : W → List Session} (hub : IsStore env.kube sessions) where
    count_first-sessions :
        (name : Str) (escs : List Escalation) (w : W)
        → sessions (count_first env name escs w) ≡ sessions w
    unfolding count_first update_escalation_status
    count_first-sessions name [] w = refl
    count_first-sessions name (e ∷ escs) w = elim (Bool-cases (str_eq e.name name)) [
      | inl q ↦ rw q (hub.escalations_apart (bump_approvals e) w)
      | inr q ↦ rw q (count_first-sessions name escs w)
    ]

    count_approval-sessions :
        (cluster : Str) (refs : List OwnerReference) (w : W)
        → sessions (count_approval env cluster refs w) ≡ sessions w
    unfolding count_approval
    count_approval-sessions cluster [] w = refl
    count_approval-sessions cluster (r ∷ refs) w =
        elim (Bool-cases (str_eq r.kind (codes "BreakglassEscalation"))) [
          | inr q ↦ rw q (count_approval-sessions cluster refs w)
          | inl q ↦
              elim (Result-cases (get_cluster_group_escalations env.kube env.config cluster [] w)) [
                | inr (x, e) ↦ rw (q, e) (count_approval-sessions cluster refs w)
                | inl (escs, e) ↦
                    rw (q, e)
                      (count_approval-sessions cluster refs (count_first env r.name escs w)
                        ∙ count_first-sessions r.name escs w)
              ]
        ]

    counted-sessions : (a : Action) (bs : Session) (w : W) → sessions (counted a bs w) ≡ sessions w
    counted-sessions approves bs w = count_approval-sessions bs.spec.cluster bs.owner_references w
    counted-sessions rejects bs w = refl
    counted-sessions withdraws bs w = refl
    counted-sessions drops bs w = refl
    counted-sessions cancels bs w = refl

    -- An answer with 200 means that the hub then stores the session with its new status, in its place,
    -- and the other sessions as before.
    pub handle-stored :
        (a : Action) (c : Context) (bs : Session) (w : W) (p q : List Session)
        → sessions w ≡ p ++ bs ∷ q
        → AllDistinct (names (sessions w))
        → (handle env a c bs w).0.code ≡ 200
        → (version : Str) × (sessions (handle env a c bs w).1
            ≡ p
              ++ record bs { status = (stored env a c bs w).status; resource_version = version }
                ∷ q)
    unfolding update_session_status
    handle-stored a c bs w p q e d h =
        let same = counted-sessions a bs w in
        let (n, ns, v) = stored_metadata a c bs w in
        let (version, _, e') =
          hub.status_updated (counted a bs w) p q bs (stored env a c bs w) (same ∙ e) (rw same d) n
            ns v in
        (version, ap sessions (handle-state a c bs w h) ∙ e')
      where
        stored_metadata :
            (a : Action) (c : Context) (bs : Session) (w : W)
            → ((stored env a c bs w).name ≡ bs.name)
              × ((stored env a c bs w).namespace ≡ bs.namespace)
              × ((stored env a c bs w).resource_version ≡ bs.resource_version)
        stored_metadata approves c bs w = (refl, refl, refl)
        stored_metadata rejects c bs w = (refl, refl, refl)
        stored_metadata withdraws c bs w = (refl, refl, refl)
        stored_metadata drops c bs w = (refl, refl, refl)
        stored_metadata cancels c bs w = (refl, refl, refl)

    -- An approval of a stored session that is pending, whose last condition is no approval, and of which
    -- the caller is an approver is answered with 200.
    pub approval-accepted :
        (c : Context) (bs : Session) (w : W)
        → In bs (sessions w)
        → AllDistinct (names (sessions w))
        → condition_eq (last_kind bs.status.conditions) approve ≡ false
        → bs.status.state ≡ pending
        → is_session_approver env c bs w ≡ true
        → (handle env approves c bs w).0.code ≡ 200
    unfolding update_session_status
    approval-accepted c bs w m d last waiting approver =
        let (p, q, e) = In-split (sessions w) m in
        let same = counted-sessions approves bs w in
        let (version, accepted, _) =
          hub.status_updated (counted approves bs w) p q bs (stored env approves c bs w) (same ∙ e)
            (rw same d) refl refl refl in
        (approve_iff env c bs w).1
          (last, waiting, approver, rw (update_session_status, accepted) refl)
