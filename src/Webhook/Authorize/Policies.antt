-- ===== src/Webhook/Authorize/Policies.antt =====
-- The deny policies of a request to the webhook: the global evaluation and one for each session.
use telekom_k8s_breakglass.Prelude.{
  false≢true, List, [], ◌∷◌, Str, In, here, there, In-cons, not_In-nil, none, some, ok, ◌≡◌, ◌≢◌,
  ◌↔◌, ◌⊎◌, inl, inr, refl, sym, ap, ◌∙◌, subst,
}
use telekom_k8s_breakglass.Api.Session.{Session}
use telekom_k8s_breakglass.Api.Policy.{DenyPolicy}
use telekom_k8s_breakglass.Policy.{Action, Verdict, match}
use telekom_k8s_breakglass.Policy.First.{
  NoneDenies, FirstDenial, denial, allowance, verdict-of_NoneDenies, verdict-cases, match_first,
}
use telekom_k8s_breakglass.Webhook.Env.{ResourceAttributes, WebhookEnv}
use telekom_k8s_breakglass.Webhook.Sessions.{UserAccess}
use telekom_k8s_breakglass.Webhook.Authorize.{action_of, denying, denying_session, denied_by}

none-ne-some : {v : Str} → none ≢ some v
none-ne-some h = cc

module _ {W R : Type 0} (env : WebhookEnv W R) (w : W) where
  module _ (ps : List DenyPolicy) (e : env.list_policies w ≡ ok ps) where
    denying-cases :
        (act : Action)
        → ((n : Str) × (denying env act w ≡ some n)
            × FirstDenial env.glob act n ps
            × ¬ NoneDenies env.glob act ps)
          ⊎ ((denying env act w ≡ none) × NoneDenies env.glob act ps)
    unfolding denying
    denying-cases act = elim (verdict-cases env.glob act ps) [
      | inl (n, q, f) ↦
          let m : match env.glob (ok ps) act ≡ ok (denial env.glob act n) =
            (match_first env.glob act ps n []).0.1 f in
          inl (
            n,
            rw (denying, e, m) refl,
            f,
            λ a. false≢true (
                sym (
                  ap (λ (v : Verdict). v.denied)
                    (sym q ∙ verdict-of_NoneDenies env.glob act ps a))),
          )
      | inr (q, a) ↦
          let m : match env.glob (ok ps) act ≡ ok (allowance env.glob act) =
            (match_first env.glob act ps [] []).1.1 a in
          inr (rw (denying, e, m) refl, a)
    ]

    denying_session_iff :
        (ra : ResourceAttributes) (cluster tenant : Str) (ss : List Session)
        → (denying_session env ra cluster tenant ss w ≡ none)
          ↔ ((s : Session) → In s ss → NoneDenies env.glob (action_of ra cluster tenant s.name) ps)
    unfolding denying_session
    denying_session_iff ra cluster tenant [] = (λ _ s m. not_In-nil m, λ _. refl)
    denying_session_iff ra cluster tenant (s ∷ ss) =
        elim (denying-cases (action_of ra cluster tenant s.name)) [
          | inl (n, q, f, d) ↦ (
            λ h. absurd (none-ne-some {v = n} (sym h ∙ rw (q, denying_session) refl)),
            λ a. absurd (d (a s (here refl))),
          )
          | inr (q, a) ↦
              let same : denying_session env ra cluster tenant (s ∷ ss) w
                  ≡ denying_session env ra cluster tenant ss w =
                rw (q, denying_session) refl in
              let ih = denying_session_iff ra cluster tenant ss in
              (
                λ h t m. elim (In-cons m) [
                  | inl eq ↦
                      subst
                        (λ (x : Session).
                          NoneDenies env.glob (action_of ra cluster tenant x.name) ps)
                        eq a
                  | inr n ↦ ih.0 (sym same ∙ h) t n
                ],
                λ all. same ∙ ih.1 (λ t m. all t (there m)),
              )
        ]

    -- When the deny policies can be listed, a request with resource attributes passes them exactly when
    -- no listed policy denies the action, neither as such nor in any of the user's sessions.
    pub denied_by_exact :
        (ra : ResourceAttributes) (cluster : Str) (user : UserAccess)
        → (denied_by env (some ra) cluster user w ≡ none) ↔ (
            NoneDenies env.glob (action_of ra cluster user.tenant []) ps
            × ((s : Session)
                → In s user.sessions
                → NoneDenies env.glob (action_of ra cluster user.tenant s.name) ps))
    unfolding denied_by
    denied_by_exact ra cluster user = elim (denying-cases (action_of ra cluster user.tenant [])) [
      | inl (n, q, f, d) ↦ (
        λ h. absurd (none-ne-some {v = n} (sym h ∙ rw (q, denied_by) refl)),
        λ (a, _). absurd (d a),
      )
      | inr (q, a) ↦
          let same : denied_by env (some ra) cluster user w
              ≡ denying_session env ra cluster user.tenant user.sessions w =
            rw (q, denied_by) refl in
          let rest = denying_session_iff ra cluster user.tenant user.sessions in
          (λ h. (a, rest.0 (sym same ∙ h)), λ (_, b). same ∙ rest.1 b)
    ]
