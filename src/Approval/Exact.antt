-- ===== src/Approval/Exact.antt =====
-- Who may approve a session.
use telekom_k8s_breakglass.Prelude.{
  Bool, true, false, not, ◌&&◌, List, [], Str, any, is_empty, contains, str_eq, str_eq_iff,
  str_eq-false_iff, guard_iff, if◌then◌else◌, Result, ok, err, ◌≡◌, ◌≢◌, ◌∙◌, sym, ◌↔◌, ◌⊎◌, inl,
  inr, arith, Bool-cases, In, any-witness, any-of_In, In-of_contains, contains-of_In, Result-cases,
  false≢true,
}
use telekom_k8s_breakglass.Api.Session.{Session}
use telekom_k8s_breakglass.Api.Escalation.{Escalation}
use telekom_k8s_breakglass.Escalations.{get_cluster_escalations}
use telekom_k8s_breakglass.Env.{Env, Context, get_email}
use telekom_k8s_breakglass.Approval.{
  approver_groups, effective_block_self, effective_allowed_domains, in_domain, escalation_approves,
  is_session_approver,
}

module _ {W : Type 0} (env : Env W) where
  -- The escalation grants the session's group, does not block self-approval by the session's own user,
  -- admits the domain of the email, and names the approver, by the email or by one of the groups.
  pub record Authorises (email : Str) (groups : List Str) (session : Session) (w : W)
      (esc : Escalation) : Type 0 where
    pub same_group : esc.spec.escalated_group ≡ session.spec.granted_group
    pub not_self : (effective_block_self env esc session w ≡ false) ⊎ (email ≢ session.spec.user)
    pub domain :
        (effective_allowed_domains env esc session w ≡ [])
        ⊎ ((d : Str) × In d (effective_allowed_domains env esc session w)
            × (in_domain env email d ≡ true))
    pub named :
        In email esc.spec.approvers.users
        ⊎ ((g : Str) × In g groups × In g esc.spec.approvers.groups)

  module _ (email : Str) (groups : List Str) (session : Session) (w : W) (esc : Escalation) where
    abbrev domains : List Str
    domains = effective_allowed_domains env esc session w

    abbrev named_test : Bool
    named_test =
        if contains esc.spec.approvers.users email
        then true
        else any (λ g. contains esc.spec.approvers.groups g) groups

    -- The tests of the loop's body, in conjunction.
    tests_of_approves :
        escalation_approves env email groups session w esc ≡ true
        → (str_eq esc.spec.escalated_group session.spec.granted_group ≡ true)
          × ((effective_block_self env esc session w && str_eq email session.spec.user) ≡ false)
          × ((not (is_empty domains) && not (any (in_domain env email) domains)) ≡ false)
          × (named_test ≡ true)
    unfolding escalation_approves
    tests_of_approves h = (ground arith, ground arith, ground arith, ground arith)

    approves_of_tests :
        str_eq esc.spec.escalated_group session.spec.granted_group ≡ true
        → (effective_block_self env esc session w && str_eq email session.spec.user) ≡ false
        → (not (is_empty domains) && not (any (in_domain env email) domains)) ≡ false
        → named_test ≡ true
        → escalation_approves env email groups session w esc ≡ true
    unfolding escalation_approves
    approves_of_tests a b c d = ground arith

    not_self_iff :
        ((effective_block_self env esc session w && str_eq email session.spec.user) ≡ false)
        ↔ ((effective_block_self env esc session w ≡ false) ⊎ (email ≢ session.spec.user))
    not_self_iff = (
      λ h. elim (Bool-cases (effective_block_self env esc session w)) [
        | inr e ↦ inl e
        | inl e ↦ inr ((str_eq-false_iff _ _).0 (rw e at h))
      ],
      λ c. elim c [ inl e ↦ rw e | inr ne ↦ ground (arith, (str_eq-false_iff _ _).1 ne) ],
    )

    domain_iff :
        (any (in_domain env email) domains ≡ true)
        ↔ ((d : Str) × In d domains × (in_domain env email d ≡ true))
    domain_iff = (
      λ h. any-witness (in_domain env email) domains h,
      λ (d, m, e). any-of_In (in_domain env email) domains m e,
    )

    named_iff : (named_test ≡ true) ↔ (
        In email esc.spec.approvers.users
        ⊎ ((g : Str) × In g groups × In g esc.spec.approvers.groups))
    named_iff = (
      λ h. elim (Bool-cases (contains esc.spec.approvers.users email)) [
        | inl e ↦ inl (In-of_contains _ e)
        | inr e ↦
            let (g, m, q) =
              any-witness (λ g. contains esc.spec.approvers.groups g) groups (rw e at h) in
            inr (g, m, In-of_contains _ q)
      ],
      λ c. elim c [
        | inl m ↦ ground (arith, contains-of_In _ m)
        | inr (g, m, n) ↦ ground (
          arith,
          any-of_In (λ g. contains esc.spec.approvers.groups g) groups m (contains-of_In _ n),
        )
      ],
    )

    pub escalation_approves_iff :
        (escalation_approves env email groups session w esc ≡ true)
        ↔ Authorises email groups session w esc
    escalation_approves_iff = (
      λ h.
          let (a, b, c, d) = tests_of_approves h in
          record {
            same_group = (str_eq_iff _ _).0 a;
            not_self = not_self_iff.0 b;
            domain = (guard_iff domains _ domain_iff).0 c;
            named = named_iff.0 d;
          },
      λ v.
          approves_of_tests ((str_eq_iff _ _).1 v.same_group) (not_self_iff.1 v.not_self)
            ((guard_iff domains _ domain_iff).1 v.domain) (named_iff.1 v.named),
    )

  module _ (c : Context) (session : Session) (w : W) where
    abbrev escalations_of : Result (List Escalation)
    escalations_of = get_cluster_escalations env.kube env.config session.spec.cluster w

    looked_up :
        {email : Str} {groups : List Str} {escs : List Escalation}
        → get_email c ≡ ok email
        → approver_groups env c email session.spec.cluster w ≡ ok groups
        → escalations_of ≡ ok escs
        → is_session_approver env c session w
          ≡ any (escalation_approves env email groups session w) escs
    unfolding is_session_approver
    looked_up p q r = ground arith

    no_email : {e : Str} → get_email c ≡ err e → is_session_approver env c session w ≡ false
    unfolding is_session_approver
    no_email p = ground arith

    no_groups :
        {email e : Str}
        → get_email c ≡ ok email
        → approver_groups env c email session.spec.cluster w ≡ err e
        → is_session_approver env c session w ≡ false
    unfolding is_session_approver
    no_groups p q = ground arith

    no_escalations :
        {email : Str} {groups : List Str} {e : Str}
        → get_email c ≡ ok email
        → approver_groups env c email session.spec.cluster w ≡ ok groups
        → escalations_of ≡ err e
        → is_session_approver env c session w ≡ false
    unfolding is_session_approver
    no_escalations p q r = ground arith

  -- The caller may approve a session exactly when the context carries an email, the approver's groups
  -- and the cluster's escalations can be looked up, and one of these escalations authorises the caller:
  -- it grants the session's group, does not block self-approval by this user, admits the email's
  -- domain, and names the caller directly or by a group.
  pub is_session_approver_iff :
      (c : Context) (session : Session) (w : W)
      → (is_session_approver env c session w ≡ true) ↔ (
          (email : Str) × (get_email c ≡ ok email)
          × ((groups : List Str) × (approver_groups env c email session.spec.cluster w ≡ ok groups)
              × ((escs : List Escalation) × (get_cluster_escalations env.kube env.config
                      session.spec.cluster w
                    ≡ ok escs)
                  × ((esc : Escalation) × In esc escs × Authorises email groups session w esc))))
  is_session_approver_iff c session w = (
    λ h. elim (Result-cases (get_email c)) [
      | inr (e, p) ↦ absurd (false≢true (sym (no_email c session w p) ∙ h))
      | inl (email, p) ↦ (
        email,
        p,
        elim (Result-cases (approver_groups env c email session.spec.cluster w)) [
          | inr (e, q) ↦ absurd (false≢true (sym (no_groups c session w p q) ∙ h))
          | inl (groups, q) ↦ (
            groups,
            q,
            elim (Result-cases (escalations_of c session w)) [
              | inr (e, r) ↦ absurd (false≢true (sym (no_escalations c session w p q r) ∙ h))
              | inl (escs, r) ↦
                  let (esc, m, t) =
                    any-witness (escalation_approves env email groups session w) escs
                      (sym (looked_up c session w p q r) ∙ h) in
                  (escs, r, (esc, m, (escalation_approves_iff email groups session w esc).0 t))
            ],
          )
        ],
      )
    ],
    λ (email, p, (groups, q, (escs, r, (esc, m, v)))).
        looked_up c session w p q r
        ∙ any-of_In _ escs m ((escalation_approves_iff email groups session w esc).1 v),
  )
