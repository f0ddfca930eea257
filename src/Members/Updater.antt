-- ===== src/Members/Updater.antt =====
-- pkg/breakglass/escalation_status_updater.go: EscalationStatusUpdater.runOnce, which Start calls at once
-- and then at every tick.
pub mod Settled
pub mod Stored
use telekom_k8s_breakglass.Prelude.{
  ℕ, Bool, true, false, List, [], ◌∷◌, Str, codes, is_empty, if◌then◌else◌, Option, none, some,
  Result, ok, err, StrMap, look_up, set_at,
}
use telekom_k8s_breakglass.Api.Escalation.{Escalation, EscalationStatus}
use telekom_k8s_breakglass.Kube.{Kube}
use telekom_k8s_breakglass.Members.{normalize_members, equal_string_slices}
use telekom_k8s_breakglass.Members.Keycloak.{GroupMemberResolver}

-- `updated.Status.ApproverGroupMembers[g]`: nil for a missing key
pub members_of : StrMap (List Str) → Str → List Str
members_of m g = elim (look_up m g) [ none ↦ [] | some v ↦ v ]

-- `updated.Status`, `changed` and the resolver's state in the loop over the groups.
pub record Expanded (S : Type 0) : Type 0 where
  pub status : EscalationStatus
  pub changed : Bool
  pub resolver_state : S

pub with_resolution : Str → Str → EscalationStatus → EscalationStatus
with_resolution g text st = record st {
  group_resolution_status = set_at g text st.group_resolution_status;
}

-- The comparison with the stored members, and the assignment.
pub store_members : Str → List Str → EscalationStatus → EscalationStatus × Bool
unfolding members_of
store_members g norm st =
    if equal_string_slices norm (members_of st.approver_group_members g)
    then (st, false)
    else (record st { approver_group_members = set_at g norm st.approver_group_members }, true)

-- `resolver` is none for a nil resolver; `to_lower` is `unicode.ToLower`.
module _ {S : Type 0} (resolver : Option (GroupMemberResolver S)) (to_lower : ℕ → ℕ) where
  -- The loop's body for one group.
  pub expand_group : Str → Expanded S → Expanded S
  unfolding with_resolution store_members
  expand_group g x = elim resolver [
    | none ↦ record x { status = with_resolution g (codes "disabled") x.status }
    | some r ↦
        let (members, s) = r.members g x.resolver_state in
        elim members [
          | err e ↦ record x { status = with_resolution g e x.status; resolver_state = s }
          | ok ms ↦
              let (st, new) =
                store_members g (normalize_members to_lower ms)
                  (with_resolution g (codes "ok") x.status) in
              record { status = st; changed = if new then true else x.changed; resolver_state = s }
        ]
  ]

  pub expand_groups : List Str → Expanded S → Expanded S
  unfolding expand_group
  expand_groups [] x = x
  expand_groups (g ∷ gs) x = expand_groups gs (expand_group g x)

  module _ {W : Type 0} (kube : Kube W) where
    -- The loop's body for one escalation.
    pub refresh_escalation : Escalation → S × W → S × W
    unfolding expand_groups
    refresh_escalation esc (s, w) =
        if is_empty esc.spec.approvers.groups
        then (s, w)
        else (let x =
              expand_groups esc.spec.approvers.groups
                (record { status = esc.status; changed = false; resolver_state = s }) in
            (
              x.resolver_state,
              if x.changed
                  then (kube.update_escalation_status (record esc { status = x.status }) w).1
                  else w,
            ))

    pub refresh_escalations : List Escalation → S × W → S × W
    unfolding refresh_escalation
    refresh_escalations [] sw = sw
    refresh_escalations (esc ∷ escs) sw = refresh_escalations escs (refresh_escalation esc sw)

    -- runOnce
    pub run_once : S × W → S × W
    unfolding refresh_escalations
    run_once (s, w) = elim (kube.list_escalations w) [
      | err e ↦ (s, w)
      | ok items ↦ refresh_escalations items (s, w)
    ]
