-- ===== src/Members/Updater/Stored.antt =====
-- What the refresh of an escalation writes to the hub.
use telekom_k8s_breakglass.Prelude.{
  ℕ, true, false, List, [], ◌∷◌, Str, codes, is_empty, In, not_In-nil, some, Result, Result-cases,
  ◌≡◌, ◌⊎◌, false≢true, refl, sym, ap, ◌∙◌, inl, inr, Bool-cases,
}
use telekom_k8s_breakglass.Api.Escalation.{Escalation, EscalationStatus}
use telekom_k8s_breakglass.Kube.{Kube}
use telekom_k8s_breakglass.Members.{normalize_members, equal_string_slices}
use telekom_k8s_breakglass.Members.Keycloak.{GroupMemberResolver}
use telekom_k8s_breakglass.Members.Updater.{
  members_of, Expanded, with_resolution, store_members, expand_group, expand_groups,
  refresh_escalation,
}
use telekom_k8s_breakglass.Members.Updater.Settled.{
  stored, IsCurrent, expand_group-ok, expand_group-err, expand_groups-IsCurrent,
}

-- A resolver whose answers do not depend on its state: `f` of the group.
module _ {S : Type 0} (r : GroupMemberResolver S) (to_lower : ℕ → ℕ) (f : Str → Result (List Str))
    (answers : (g : Str) (s : S) → (r.members g s).0 ≡ f g) where
  expand_group-stored :
      (g h : Str) (x : Expanded S)
      → (expand_group (some r) to_lower g x).changed ≡ false
      → (x.changed ≡ false)
        × (stored (expand_group (some r) to_lower g x).status h ≡ stored x.status h)
  unfolding store_members with_resolution
  expand_group-stored g h x e = elim (Result-cases (f g)) [
    | inr (y, q) ↦ (
      sym (expand_group-err r to_lower f answers g y x q).1 ∙ e,
      ap (λ st. stored st h) (expand_group-err r to_lower f answers g y x q).0,
    )
    | inl (ms, q) ↦
        let norm = normalize_members to_lower ms in
        let st = with_resolution g (codes "ok") x.status in
        let (status, change) = expand_group-ok r to_lower f answers g ms x q in
        elim (Bool-cases (equal_string_slices norm (members_of st.approver_group_members g))) [
          | inl same ↦ (
            sym (rw (store_members, same) at change) ∙ e,
            ap (λ st. stored st h) (rw (store_members, same) at status),
          )
          | inr new ↦ absurd (false≢true (sym e ∙ rw (store_members, new) at change))
        ]
  ]

  expand_groups-stored :
      (gs : List Str) (h : Str) (x : Expanded S)
      → (expand_groups (some r) to_lower gs x).changed ≡ false
      → (x.changed ≡ false)
        × (stored (expand_groups (some r) to_lower gs x).status h ≡ stored x.status h)
  unfolding expand_groups
  expand_groups-stored [] h x e = (e, refl)
  expand_groups-stored (g ∷ gs) h x e =
      let (c, k) = expand_groups-stored gs h (expand_group (some r) to_lower g x) e in
      let (c', k') = expand_group-stored g h x c in (c', k ∙ k')

  -- Where the answers of the resolver do not depend on its state: the refresh of an escalation computes
  -- a status that holds, for each of its approver groups that the resolver resolves, the normalised
  -- members, up to their order. It either writes the escalation with that status, once, or writes
  -- nothing, and then the escalation's own status holds the same members for every group.
  pub refresh_escalation-IsCurrent :
      {W : Type 0} (kube : Kube W) (esc : Escalation) (s : S) (w : W)
      → (st : EscalationStatus) × ((g : Str)
          → In g esc.spec.approvers.groups
          → IsCurrent r to_lower f answers g st)
        × (((refresh_escalation (some r) to_lower kube esc (s, w)).1
              ≡ (kube.update_escalation_status (record esc { status = st }) w).1)
            ⊎ (((refresh_escalation (some r) to_lower kube esc (s, w)).1 ≡ w)
                × ((g : Str) → stored esc.status g ≡ stored st g)))
  unfolding refresh_escalation
  refresh_escalation-IsCurrent kube esc s w =
      elim (Bool-cases (is_empty esc.spec.approvers.groups)) [
        | inl q ↦ (
          esc.status,
          λ g m. not_In-nil (rw (nil-of_empty _ q) at m),
          inr (rw (refresh_escalation, q) refl, λ g. refl),
        )
        | inr q ↦
            let x : Expanded S = record {
              status = esc.status;
              changed = false;
              resolver_state = s;
            } in
            let y = expand_groups (some r) to_lower esc.spec.approvers.groups x in
            (
              y.status,
              λ g m. expand_groups-IsCurrent r to_lower f answers esc.spec.approvers.groups x m,
              elim (Bool-cases y.changed) [
                | inl c ↦ inl (rw (refresh_escalation, q, c) refl)
                | inr c ↦ inr (
                  rw (refresh_escalation, q, c) refl,
                  λ g. sym (expand_groups-stored esc.spec.approvers.groups g x c).1,
                )
              ],
            )
      ]
    where
      nil-of_empty : (xs : List Str) → is_empty xs ≡ true → xs ≡ []
      nil-of_empty [] e = refl
      nil-of_empty (y ∷ ys) e = cc
