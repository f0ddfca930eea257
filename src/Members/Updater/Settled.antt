-- ===== src/Members/Updater/Settled.antt =====
-- What a run of the updater stores, and when it stores nothing.
use telekom_k8s_breakglass.Prelude.{
  ℕ, Bool, true, false, List, [], ◌∷◌, Str, codes, is_empty, In, here, there, In-cons, not_In-nil,
  some, Result, ok, err, Result-cases, ok-ne-err, look_up-set_at, look_up-set_at_other, str_eq,
  str_eq_iff, str_eq-false_iff, ◌≡◌, ◌≢◌, refl, sym, ap, subst, ◌∙◌, inl, inr, Bool-cases,
  if◌then◌else◌,
}
use telekom_k8s_breakglass.Api.Escalation.{Escalation, EscalationStatus}
use telekom_k8s_breakglass.Kube.{Kube}
use telekom_k8s_breakglass.Members.{normalize_members, equal_string_slices}
use telekom_k8s_breakglass.Members.Bag.{Bag, bag, equal_string_slices_iff}
use telekom_k8s_breakglass.Members.Keycloak.{GroupMemberResolver}
use telekom_k8s_breakglass.Members.Updater.{
  members_of, Expanded, with_resolution, store_members, expand_group, expand_groups,
  refresh_escalation, refresh_escalations, run_once,
}

-- The members stored for a group, their order forgotten.
abbrev pub stored : EscalationStatus → Str → Bag
stored st g = bag (members_of st.approver_group_members g)

store_members-at :
    (g : Str) (norm : List Str) (st : EscalationStatus)
    → stored (store_members g norm st).0 g ≡ bag norm
unfolding store_members
store_members-at g norm st =
    elim (Bool-cases (equal_string_slices norm (members_of st.approver_group_members g))) [
      | inl e ↦ rw (store_members, e) (sym ((equal_string_slices_iff _ _).0 e))
      | inr e ↦
          rw (store_members, e, members_of, look_up-set_at g norm st.approver_group_members) refl
    ]

store_members-other :
    (g h : Str) (norm : List Str) (st : EscalationStatus)
    → g ≢ h
    → stored (store_members g norm st).0 h ≡ stored st h
unfolding store_members members_of
store_members-other g h norm st ne =
    elim (Bool-cases (equal_string_slices norm (members_of st.approver_group_members g))) [
      | inl e ↦ rw (store_members, e) refl
      | inr e ↦
          rw
            (
              store_members,
              e,
              members_of,
              look_up-set_at_other g h norm st.approver_group_members ne,
            )
            refl
    ]

store_members-same :
    (g : Str) (norm : List Str) (st : EscalationStatus)
    → stored st g ≡ bag norm
    → store_members g norm st ≡ (st, false)
unfolding store_members
store_members-same g norm st h = rw (store_members, (equal_string_slices_iff _ _).1 (sym h)) refl

-- A resolver whose answers do not depend on its state: `f` of the group.
module _ {S : Type 0} (r : GroupMemberResolver S) (to_lower : ℕ → ℕ) (f : Str → Result (List Str))
    (answers : (g : Str) (s : S) → (r.members g s).0 ≡ f g) where
  pub expand_group-ok :
      (g : Str) (ms : List Str) (x : Expanded S)
      → f g ≡ ok ms
      → let out =
          store_members g
            (normalize_members to_lower ms)
            (with_resolution g (codes "ok") x.status) in
        ((expand_group (some r) to_lower g x).status ≡ out.0)
        × ((expand_group (some r) to_lower g x).changed ≡ (if out.1 then true else x.changed))
  unfolding expand_group
  expand_group-ok g ms x e = rw (expand_group, answers g x.resolver_state ∙ e) (refl, refl)

  pub expand_group-err :
      (g e : Str) (x : Expanded S)
      → f g ≡ err e
      → ((expand_group (some r) to_lower g x).status ≡ with_resolution g e x.status)
        × ((expand_group (some r) to_lower g x).changed ≡ x.changed)
  unfolding expand_group
  expand_group-err g e x q = rw (expand_group, answers g x.resolver_state ∙ q) (refl, refl)

  -- The members stored for a group are those that the resolver gives, if it gives any.
  abbrev pub IsCurrent : Str → EscalationStatus → Type 0
  IsCurrent g st = (ms : List Str) → f g ≡ ok ms → stored st g ≡ bag (normalize_members to_lower ms)

  expand_group-other :
      (g h : Str) (x : Expanded S)
      → g ≢ h
      → stored (expand_group (some r) to_lower g x).status h ≡ stored x.status h
  unfolding with_resolution
  expand_group-other g h x ne = elim (Result-cases (f g)) [
    | inl (ms, e) ↦
        ap (λ st. stored st h) (expand_group-ok g ms x e).0
        ∙ store_members-other g h _ (with_resolution g (codes "ok") x.status) ne
    | inr (e, q) ↦ ap (λ st. stored st h) (expand_group-err g e x q).0
  ]

  expand_group-IsCurrent :
      (g : Str) (x : Expanded S) → IsCurrent g (expand_group (some r) to_lower g x).status
  expand_group-IsCurrent g x ms e =
      ap (λ st. stored st g) (expand_group-ok g ms x e).0 ∙ store_members-at g _ _

  expand_group-keeps :
      (g h : Str) (x : Expanded S)
      → IsCurrent h x.status
      → IsCurrent h (expand_group (some r) to_lower g x).status
  expand_group-keeps g h x c = elim (Bool-cases (str_eq g h)) [
    | inl e ↦
        subst (λ k. IsCurrent k (expand_group (some r) to_lower g x).status) ((str_eq_iff g h).0 e)
          (expand_group-IsCurrent g x)
    | inr e ↦ λ ms q. expand_group-other g h x ((str_eq-false_iff g h).0 e) ∙ c ms q
  ]

  expand_groups-keeps :
      (gs : List Str) (h : Str) (x : Expanded S)
      → IsCurrent h x.status
      → IsCurrent h (expand_groups (some r) to_lower gs x).status
  unfolding expand_groups
  expand_groups-keeps [] h x c = c
  expand_groups-keeps (g ∷ gs) h x c =
      expand_groups-keeps gs h (expand_group (some r) to_lower g x) (expand_group-keeps g h x c)

  pub expand_groups-IsCurrent :
      (gs : List Str) (x : Expanded S) {g : Str}
      → In g gs
      → IsCurrent g (expand_groups (some r) to_lower gs x).status
  unfolding expand_groups
  expand_groups-IsCurrent [] x m = not_In-nil m
  expand_groups-IsCurrent (h ∷ gs) x {g} m = elim (In-cons m) [
    | inl e ↦ expand_groups-keeps gs g (expand_group (some r) to_lower h x) (
        subst (λ k. IsCurrent k (expand_group (some r) to_lower h x).status) e
          (expand_group-IsCurrent h x))
    | inr n ↦ expand_groups-IsCurrent gs (expand_group (some r) to_lower h x) n
  ]

  -- The loop over the groups of an escalation stores, for each group that the resolver resolves, the
  -- members that it gives, normalised and up to their order.
  pub expand_groups_current :
      (gs : List Str) (x : Expanded S) (g : Str) (ms : List Str)
      → In g gs
      → f g ≡ ok ms
      → stored (expand_groups (some r) to_lower gs x).status g ≡ bag (normalize_members to_lower ms)
  expand_groups_current gs x g ms m e = expand_groups-IsCurrent gs x m ms e

  expand_group-unchanged :
      (g : Str) (x : Expanded S)
      → IsCurrent g x.status
      → (expand_group (some r) to_lower g x).changed ≡ x.changed
  unfolding with_resolution
  expand_group-unchanged g x c = elim (Result-cases (f g)) [
    | inl (ms, e) ↦
        (expand_group-ok g ms x e).1
        ∙ ap (λ (out : EscalationStatus × Bool). if out.1 then true else x.changed)
            (store_members-same g _ (with_resolution g (codes "ok") x.status) (c ms e))
    | inr (e, q) ↦ (expand_group-err g e x q).1
  ]

  expand_groups-unchanged :
      (gs : List Str) (x : Expanded S)
      → ((g : Str) → In g gs → IsCurrent g x.status)
      → (expand_groups (some r) to_lower gs x).changed ≡ x.changed
  unfolding expand_groups
  expand_groups-unchanged [] x c = refl
  expand_groups-unchanged (g ∷ gs) x c =
      expand_groups-unchanged gs (expand_group (some r) to_lower g x)
        (λ h m. expand_group-keeps g h x (c h (there m)))
      ∙ expand_group-unchanged g x (c g (here refl))

  -- Once an escalation carries the status that a run computed for it, and while the resolver gives the
  -- same answers, a further run does not write the escalation.
  pub refresh_escalation_again :
      {W : Type 0} (kube : Kube W) (esc : Escalation) (x : Expanded S) (s : S) (w : W)
      → esc.status ≡ (expand_groups (some r) to_lower esc.spec.approvers.groups x).status
      → (refresh_escalation (some r) to_lower kube esc (s, w)).1 ≡ w
  unfolding refresh_escalation
  refresh_escalation_again kube esc x s w e =
      elim (Bool-cases (is_empty esc.spec.approvers.groups)) [
        | inl q ↦ rw (refresh_escalation, q) refl
        | inr q ↦
            let settled =
              expand_groups-unchanged esc.spec.approvers.groups
                (record { status = esc.status; changed = false; resolver_state = s })
                (λ g m. rw e (expand_groups-IsCurrent esc.spec.approvers.groups x m)) in
            rw (refresh_escalation, q, settled) refl
      ]

-- A resolver that answers every group with an error.
module _ {S : Type 0} (r : GroupMemberResolver S) (to_lower : ℕ → ℕ) (failure : Str → Str)
    (fails : (g : Str) (s : S) → (r.members g s).0 ≡ err (failure g)) {W : Type 0}
    (kube : Kube W) where
  refresh_escalation_lost :
      (esc : Escalation) (s : S) (w : W)
      → (refresh_escalation (some r) to_lower kube esc (s, w)).1 ≡ w
  unfolding refresh_escalation
  refresh_escalation_lost esc s w = elim (Bool-cases (is_empty esc.spec.approvers.groups)) [
    | inl q ↦ rw (refresh_escalation, q) refl
    | inr q ↦
        let settled =
          expand_groups-unchanged r to_lower (λ g. err (failure g)) fails esc.spec.approvers.groups
            (record { status = esc.status; changed = false; resolver_state = s })
            (λ g m ms e. absurd (ok-ne-err (sym e))) in
        rw (refresh_escalation, q, settled) refl
  ]

  refresh_escalations_lost :
      (escs : List Escalation) (s : S) (w : W)
      → (refresh_escalations (some r) to_lower kube escs (s, w)).1 ≡ w
  unfolding refresh_escalations
  refresh_escalations_lost [] s w = refl
  refresh_escalations_lost (esc ∷ escs) s w =
      refresh_escalations_lost escs (refresh_escalation (some r) to_lower kube esc (s, w)).0
        (refresh_escalation (some r) to_lower kube esc (s, w)).1
      ∙ refresh_escalation_lost esc s w

  -- When every group fails to resolve, a run writes nothing: the errors that it puts into the status of
  -- the escalations do not reach the cluster.
  pub resolution_errors_lost : (s : S) (w : W) → (run_once (some r) to_lower kube (s, w)).1 ≡ w
  unfolding run_once
  resolution_errors_lost s w = elim (Result-cases (kube.list_escalations w)) [
    | inl (items, e) ↦ rw (run_once, e) (refresh_escalations_lost items s w)
    | inr (x, e) ↦ rw (run_once, e) refl
  ]
